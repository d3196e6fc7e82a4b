-- ===== src/Executor.antt =====
-- The task executor (backend/app/workers/task_executor.py): the control protocol of the remote
-- runner, the writes that end or delay a task, the batches, and the collection of remote results.
pub mod Payload
pub mod Finish
pub mod Collect
pub mod Effects
pub mod Settle
pub mod Evidence
pub mod Stopping
pub mod Safety
pub mod Batch
pub mod Restart
pub mod Restored
pub mod Prepare
pub mod Launch
pub mod Tick
