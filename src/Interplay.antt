-- ===== src/Interplay.antt =====
-- The transactions of the scheduler, the executor and the task service in any order, and the exclusive
-- use of GPUs (backend/app/workers/scheduler.py, backend/app/workers/task_executor.py,
-- backend/app/services/task_service.py).
pub mod Rounds
use nebula_grid.Base.{
  ℕ, ◌≡◌, refl, sym, ap, ◌∙◌, subst, ◌⊎◌, inl, inr, Bool, true, false, Option, none, some, List, [],
  ◌∷◌, All,
}
use nebula_grid.Base.Text.{Text}
use nebula_grid.Model.{
  Task, User, Node, TaskAllocation, Db, is_starting, is_open_for, get_task,
  release_task_allocations,
}
use nebula_grid.Response.Laws.{ok_inj}
use nebula_grid.Response.{Response, ok, error, validation_error}
use nebula_grid.Scheduler.Select.{Metrics}
use nebula_grid.Scheduler.Tick.{scheduler_tick}
use nebula_grid.Scheduler.Exclusive.{IsExclusive, IsDistinct}
use nebula_grid.Scheduler.Invariant.{IsGood, scheduler_tick-IsGood, release-IsExclusive}
use nebula_grid.Executor.Finish.{Outcome, return, raise}
use nebula_grid.Executor.Effects.{Quiet, Archives}
use nebula_grid.Executor.Collect.{Observation, collect_remote_status}
use nebula_grid.Executor.Safety.{collect_remote_status-safe}
use nebula_grid.Executor.Prepare.{Settings}
use nebula_grid.Executor.Launch.{Launching, start_remote_task}
use nebula_grid.Executor.Launch.Safe.{start_remote_task-safe}
use nebula_grid.Tasks.Visible.{managed_task}
use nebula_grid.Tasks.Stop.{cancel_task}
use nebula_grid.Tasks.Cancel.{Stopping, already, at_once, requested, cancel_task-safe}
use nebula_grid.PathResolver.{Files}
use nebula_grid.Tasks.Update.{TaskUpdateRequest, update_task}
use nebula_grid.Tasks.Update.Requeue.{Edited, requeued, edited, update_task-Edited}
use nebula_grid.Tasks.Create.{Surroundings, TaskCreateRequest, create_task_model}
use nebula_grid.Tasks.Create.Fresh.{create_task_model-Stored}

-- One transaction. The scheduler relies on the keys of the GPUs. A start reads the task in an earlier
-- session, and `db` is what the other sessions left when it locks the row.
pub data ClusterStep (db : Db) : Db → Type 0 where
  schedules :
      (locked : Bool) (metrics : Metrics)
      → All (λ (n : Node). IsDistinct n.gpus) db.nodes
      → ClusterStep db (scheduler_tick locked metrics db).1
  starts :
      {db' : Db} (settings : Settings) (l : Launching) (task row : Task) (before : Db)
      → l.during before ≡ db
      → is_starting task.state ≡ true
      → get_task task.id (l.during before) ≡ some row
      → start_remote_task settings l task before ≡ return db'
      → ClusterStep db db'
  collects :
      {db' : Db} (timeout : ℕ) (o : Observation) (pk : ℕ) (task : Task)
      → get_task pk db ≡ some task
      → collect_remote_status timeout o pk db ≡ return db'
      → ClusterStep db db'
  cancels :
      {db' : Db} (user : User) (task_id : Text) (task : Task)
      → managed_task user task_id db ≡ ok task
      → get_task task.id db ≡ some task
      → cancel_task user task_id db ≡ ok db'
      → ClusterStep db db'
  edits :
      {db' : Db} (files : Files) (user : User) (task_id : Text) (p : TaskUpdateRequest)
      (task : Task)
      → managed_task user task_id db ≡ ok task
      → get_task task.id db ≡ some task
      → update_task files user task_id p db ≡ ok db'
      → ClusterStep db db'
  submits :
      {db' : Db} (around : Surroundings) (user : User) (p : TaskCreateRequest) (number pk : ℕ)
      → create_task_model around user p number db ≡ ok (pk, db')
      → ClusterStep db db'

pub data ClusterRun (start : Db) : Db → Type 0 where
  stays : ClusterRun start start
  goes_on :
      {middle last : Db} → ClusterRun start middle → ClusterStep middle last → ClusterRun start last

abbrev Exclusive : Db → Type 0
Exclusive db = IsExclusive db.task_allocations

-- The allocations stay, or those of one task are released.
released-Exclusive :
    (pk : ℕ) (db db' : Db)
    → Exclusive db
    → (db'.task_allocations ≡ db.task_allocations)
      ⊎ (db'.task_allocations ≡ (release_task_allocations pk db).task_allocations)
    → Exclusive db'
unfolding release_task_allocations
released-Exclusive pk db db' h (inl same) = subst IsExclusive (sym same) h
released-Exclusive pk db db' h (inr released) =
    subst IsExclusive (sym released)
      (release-IsExclusive (is_open_for pk) db.now db.task_allocations h)

settled-Exclusive :
    (pk : ℕ) (db d db' : Db)
    → Exclusive db
    → d ≡ db'
    → Quiet pk db d ⊎ Archives pk db d
    → Exclusive db'
settled-Exclusive pk db d db' h same (inl quiet) =
    subst Exclusive same (released-Exclusive pk db d h (inl quiet.same_allocations))
settled-Exclusive pk db d db' h same (inr archived) =
    subst Exclusive same (released-Exclusive pk db d h (inr archived.released))

return_inj : (a b : Db) → return a ≡ return b → a ≡ b
return_inj a b e = cc

starts-Exclusive :
    (settings : Settings) (l : Launching) (task row : Task) (before db' : Db)
    → is_starting task.state ≡ true
    → get_task task.id (l.during before) ≡ some row
    → start_remote_task settings l task before ≡ return db'
    → Exclusive (l.during before)
    → Exclusive db'
starts-Exclusive settings l task row before db' starting found e h =
    elim (start_remote_task-safe settings l task row before starting found) [
      | inl (d, returned, inl quiet) ↦
          settled-Exclusive task.id (l.during before) d db' h (return_inj d db' (sym returned ∙ e))
            (inl quiet)
      | inl (d, returned, inr (archived, over)) ↦
          settled-Exclusive task.id (l.during before) d db' h (return_inj d db' (sym returned ∙ e))
            (inr archived)
      | inr (raised, bad) ↦ let clash : raise ≡ return db' = sym raised ∙ e in cc
    ]

collects-Exclusive :
    (timeout : ℕ) (o : Observation) (pk : ℕ) (task : Task) (db db' : Db)
    → get_task pk db ≡ some task
    → collect_remote_status timeout o pk db ≡ return db'
    → Exclusive db
    → Exclusive db'
collects-Exclusive timeout o pk task db db' found e h =
    elim (collect_remote_status-safe timeout o pk db task found) [
      | inl (d, returned, inl quiet) ↦
          settled-Exclusive pk db d db' h (return_inj d db' (sym returned ∙ e)) (inl quiet)
      | inl (d, returned, inr (archived, justified)) ↦
          settled-Exclusive pk db d db' h (return_inj d db' (sym returned ∙ e)) (inr archived)
      | inr (raised, bad) ↦ let clash : raise ≡ return db' = sym raised ∙ e in cc
    ]

Stopping-Exclusive :
    (task : Task) (db d db' : Db) → Exclusive db → d ≡ db' → Stopping task db d → Exclusive db'
Stopping-Exclusive task db d db' h same (already stops unchanged) =
    subst Exclusive (sym unchanged ∙ same) h
Stopping-Exclusive task db d db' h same (at_once unlaunched archived) =
    settled-Exclusive task.id db d db' h same (inr archived)
Stopping-Exclusive task db d db' h same (requested was_launched quiet) =
    settled-Exclusive task.id db d db' h same (inl quiet)

cancels-Exclusive :
    (user : User) (task_id : Text) (task : Task) (db db' : Db)
    → managed_task user task_id db ≡ ok task
    → get_task task.id db ≡ some task
    → cancel_task user task_id db ≡ ok db'
    → Exclusive db
    → Exclusive db'
cancels-Exclusive user task_id task db db' managed found e h =
    elim (cancel_task-safe user task_id task db managed found) [
      | inl (over, refused) ↦ let clash : error validation_error ≡ ok db' = sym refused ∙ e in cc
      | inr (d, returned, stopping) ↦
          Stopping-Exclusive task db d db' h (ok_inj d db' (sym returned ∙ e)) stopping
    ]

Edited-Exclusive : (task : Task) (db db' : Db) → Exclusive db → Edited task db db' → Exclusive db'
Edited-Exclusive task db db' h (requeued history row) =
    released-Exclusive task.id db db' h (inr row.released)
Edited-Exclusive task db db' h (edited unended same) =
    released-Exclusive task.id db db' h (inl same)

step-Exclusive : (db db' : Db) → Exclusive db → ClusterStep db db' → Exclusive db'
step-Exclusive db _ h (schedules locked metrics distinct) =
    let good =
      scheduler_tick-IsGood locked metrics db (record { one_holder = h; distinct = distinct }) in
    good.one_holder
step-Exclusive db db' h (starts settings l task row before same starting found e) =
    starts-Exclusive settings l task row before db' starting found e (subst Exclusive (sym same) h)
step-Exclusive db db' h (collects timeout o pk task found e) =
    collects-Exclusive timeout o pk task db db' found e h
step-Exclusive db db' h (cancels user task_id task managed found e) =
    cancels-Exclusive user task_id task db db' managed found e h
step-Exclusive db db' h (edits files user task_id p task managed found e) =
    let (idle, confirmed, changed) =
      update_task-Edited files user task_id p task db db' managed found e in
    Edited-Exclusive task db db' h changed
step-Exclusive db db' h (submits around user p number pk e) =
    released-Exclusive pk db db' h
      (inl (create_task_model-Stored around user p number pk db db' e).same_allocations)

-- In any history of ticks of the scheduler, starts, collections, stops, edits and submissions, each of which
-- sees the ones before it, a GPU that an open allocation holds exclusively is named once in all open
-- allocations, if it is so at the beginning and the GPUs of each node are different rows at each tick.
pub ClusterRun-IsExclusive :
    (start db : Db)
    → IsExclusive start.task_allocations
    → ClusterRun start db
    → IsExclusive db.task_allocations
ClusterRun-IsExclusive start _ h stays = h
ClusterRun-IsExclusive start db h (goes_on {middle} run step) =
    step-Exclusive middle db (ClusterRun-IsExclusive start middle h run) step
