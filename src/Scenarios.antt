-- ===== src/Scenarios.antt =====
-- A small cluster, on which the operations of the workers and of the task service run
-- (backend/app/workers, backend/app/services/task_service.py).
mod Cluster
mod Runs
mod Requests
mod Launches
mod Logins
mod Periods
mod Remote
mod Environments
mod Histories
