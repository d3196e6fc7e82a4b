-- ===== src/Tasks.antt =====
-- The task service (backend/app/services/task_service.py): who may see and manage a task, the
-- submission, the edit and the deletion of tasks, the requests to hold and to stop one, and the text
-- of a batch.
pub mod Visible
pub mod Stop
pub mod Commands
pub mod Cancel
pub mod Create
pub mod Update
pub mod Successors
