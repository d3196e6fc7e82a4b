-- ===== src/Scheduler.antt =====
-- The scheduler (backend/app/workers/scheduler.py): occupancy of the GPUs, choice of a node and its
-- GPUs, allocation, and one tick of the worker.
pub mod Occupancy
pub mod Select
pub mod Allocate
pub mod Tick
pub mod Holders
pub mod Exclusive
pub mod Invariant
pub mod Admission
