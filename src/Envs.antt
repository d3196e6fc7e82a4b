-- ===== src/Envs.antt =====
-- The environments of the users, and the jobs that install packages in them
-- (backend/app/services/env_service.py, backend/app/workers/env_install_worker.py).
pub mod Store
pub mod Install
pub mod Jobs
pub mod Lock
pub mod Transactions
pub mod Register
pub mod Steps
