-- ===== src/Executor/Tick.antt =====
-- One tick of the executor (`task_executor_tick` of backend/app/workers/task_executor.py).
use nebula_grid.Base.{ℕ, Option, none, some, List, [], ◌∷◌}
use nebula_grid.Base.Table.{first}
use nebula_grid.Model.{Task, Db, is_dispatching, is_cancelling, is_launched, get_task}
use nebula_grid.Executor.Finish.{Outcome, return, ◌>>=◌}
use nebula_grid.Executor.Batch.{
  load_rotating_task_batch, claim_dispatching_task, restore_unconfirmed_legacy_cancellations,
}
use nebula_grid.Executor.Collect.{Observation, collect_remote_status}
use nebula_grid.Executor.Prepare.{Settings}
use nebula_grid.Executor.Launch.{Launching, start_remote_task}

-- What a tick meets: the settings, the answers for each task, and what other sessions do between two
-- transactions of the tick.
pub record Round : Type 0 where
  pub settings : Settings
  pub timeout_seconds : ℕ
  pub observe : ℕ → Observation
  pub launching : ℕ → Launching
  pub between : Db → Db

abbrev pub stopping_batch_size : ℕ
stopping_batch_size = 10

abbrev pub active_batch_size : ℕ
active_batch_size = 50

-- The rows are read again under their locks.
unfoldable pub collect_each : Round → List Task → Db → Outcome Db
collect_each r [] db = return db
collect_each r (task ∷ tasks) db =
    collect_remote_status r.timeout_seconds (r.observe task.id) task.id db >>= λ d.
    collect_each r tasks (r.between d)

-- After the commit of the claim the task is read again.
unfoldable pub start_claimed : Round → ℕ → Option Task → Db → Outcome Db
start_claimed r pk none db = return db
start_claimed r pk (some task) db = start_remote_task r.settings (r.launching pk) task db

unfoldable pub use_claim : Round → ℕ → Option Db → Db → Outcome Db
unfolding start_claimed
use_claim r pk none db = return db
use_claim r pk (some claimed) db =
    start_claimed r pk (get_task pk (r.between claimed)) (r.between claimed)

-- At most one dispatched task.
unfoldable pub start_dispatched : Round → Option Task → Db → Outcome Db
unfolding use_claim
start_dispatched r none db = return db
start_dispatched r (some task) db = use_claim r task.id (claim_dispatching_task task.id db) db

-- The two cursors.
pub record Cursors : Type 0 where
  pub stopping : ℕ
  pub active : ℕ

unfoldable pub task_executor_tick : Round → Cursors → Db → Outcome (Cursors × Db)
unfolding collect_each start_dispatched
task_executor_tick r cursors db =
    let db1 = r.between (restore_unconfirmed_legacy_cancellations db).1 in
    let stopping =
      load_rotating_task_batch is_cancelling cursors.stopping stopping_batch_size db1 in
    collect_each r stopping.0 db1 >>= λ db2.
    start_dispatched r (first (λ t. is_dispatching t.state) db2.tasks) db2 >>= λ db3.
    let db4 = r.between db3 in
    let active = load_rotating_task_batch is_launched cursors.active active_batch_size db4 in
    collect_each r active.0 db4 >>= λ db5.
    return (record { stopping = stopping.1; active = active.1 }, db5)
