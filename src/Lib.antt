-- ===== src/Lib.antt =====
-- The control plane of NebulaGrid, a scheduler of GPU tasks on a cluster
-- (backend/app). Its parts meet in one database: the task service takes the requests of users, the
-- scheduler gives waiting tasks a node and GPUs, the executor starts them over SSH and collects what
-- the remote runner writes, the runtime guard watches which GPUs a task uses, and the node monitor
-- keeps the state of the nodes, which an administrator may force offline. Accounts and their login
-- sessions decide who may send a request.
--
-- Base              lists, texts, integers and tables: `select`, `update_where`, `sort_by`
-- Model             task states, rows (backend/app/db/models/core.py), the database `Db` and its
--                   writes (backend/app/services/task_service.py, task_timing.py)
-- Executor.Payload  the control files of a launch, and what is accepted in them
-- Executor.Finish   the writes that end a task or note an unconfirmed stop
-- Executor.Collect  `collect_remote_status` with all that it calls
-- Executor.Prepare  what a start tells the remote runner, and the check of its answer
-- Executor.Launch   `start_remote_task` with all that it calls
-- Executor.Batch    `load_rotating_task_batch`, `claim_dispatching_task`,
--                   `restore_unconfirmed_legacy_cancellations`; Restart and Restored what the last one
--                   takes up again
-- Executor.Tick     `task_executor_tick`, which composes these
--                   (all of backend/app/workers/task_executor.py)
-- Runner            `main` of the remote runner; Group the end of a process group, Quote the quotes of
--                   a shell word, Outcomes what the executor reads of it (backend/app/remote/runner.py)
-- Scheduler         `scheduler_tick` with all that it calls (backend/app/workers/scheduler.py)
-- RuntimeGuard      `inspect_guard`; RuntimeGuard.Processes the process table and the tree of a task
--                   (backend/app/workers/runtime_guard.py)
-- Tasks             `hold_task`, `cancel_task`, `parse_batch_commands` and the rights of users;
--                   Tasks.Create, Tasks.Update and Tasks.Successors the submission, the edit and the
--                   new submission, and the deletion (backend/app/services/task_service.py)
-- Nodes.Offline     `force_offline_node`, `reconnect_node`, `delete_node`
--                   (backend/app/services/node_service.py)
-- Nodes.Monitor     the thread that watches a node; Paused and Elsewhere what it does to its node and
--                   to others (backend/app/workers/node_monitor.py)
-- Envs              Store: environments, packages and jobs; Install the requests of users; Register
--                   rows that need no job (backend/app/services/env_service.py); Jobs the claim and
--                   the run of a job (backend/app/workers/env_install_worker.py); Lock, Transactions
--                   and Steps the lock of an environment and its histories
-- Usage             the merged intervals of a node and its days
--                   (backend/app/services/usage_service.py)
-- Interplay         histories of the scheduler, the executor and the requests on one database; Rounds
--                   the ticks of the executor in them
-- Accounts          Tokens: backend/app/core/security.py; Devices and Sessions: login, tokens and
--                   sessions (backend/app/services/auth_service.py); Users, with Edit, Passwords and
--                   Requests: the user page (backend/app/services/user_service.py)
-- PathResolver      backend/app/core/path_resolver.py
-- Response          the errors of backend/app/core/errors.py
-- Access            roles (backend/app/core/rbac.py) and the access to nodes
--                   (backend/app/services/node_service.py)
-- GpuCompatibility  backend/app/services/gpu_compatibility_service.py
-- Scenarios         a small cluster, and the theorems at it
--
-- An operation is a function on `Db`, the tables as one session sees them under its row locks. A
-- commit is the result; a ValueError is `raise`, an error response is `error`. What other sessions
-- do while the runtime guard samples a node, or while a task is started over SSH, is a function on
-- `Db`, an argument. The accounts and their sessions have tables of their own, `AccountDb`, where
-- an error is a value, and a call of Linux or Samba is a test that the host answers. Environments
-- have `EnvDb`: a request checks in one session, with `before`, and writes in a later one, with
-- `db`, each one step, so two sessions whose reads and writes overlap without a row lock are left
-- out. What is made of the paths of a local installation is an argument. The digest is any
-- function. `now` is what the clock shows during a session. Times are microseconds. New keys come
-- from one counter, where the database has one for each table. The newest event stands first; the
-- texts and the details of events are left out, as are log files, the audit log and the marker
-- files. What a node answers over SSH, the shared files and the GPU metrics are arguments. Texts
-- are code points, with the letters, digits and spaces of ASCII. A ratio is compared by cross
-- multiplication, where the program divides floats. A JSON value that is no integer, text, Boolean
-- or null is known by its truth value and its text. A float in a control file equals no integer;
-- bytes that are no UTF-8, and texts of numbers with more digits than Python's `int` takes, are
-- left out.
--
-- The file system is a function from a path to the path it resolves to. The clock gives the number of
-- each attempt at a new task number. A connection to a node is the list of the frames that it brings,
-- with the way it ends; that the thread is told to stop from outside is left out.
--
-- All loops are structural recursion but three, which run on fuel. `to_decimal` has `n + 1` of it, and
-- each step divides by ten. The walk over a process tree and the search for the successors of a task
-- have a round for the start and one for each row of their table: each row adds to the queue at most
-- once.
--
-- Not modelled: the shell texts that start and stop a task on a node, the parsing of /proc by the
-- remote runner, the creation and edit of nodes, the manager of the monitor threads and their settings,
-- the accounts of Linux and Samba, files, the package tools, tests and archives of environments, and
-- the audit log, the progress of tasks, the reports of metrics and the HTTP interface, which read and
-- show what the modelled parts write.
pub mod Base
pub mod Response
pub mod Model
pub mod Executor
pub mod Access
pub mod GpuCompatibility
pub mod Scheduler
pub mod PathResolver
pub mod Nodes
pub mod Tasks
pub mod Accounts
pub mod RuntimeGuard
pub mod Scenarios
pub mod Usage
pub mod Runner
pub mod Envs
pub mod Interplay
