-- ===== src/Tasks/Update/Requeue.antt =====
-- The edit of a task (`update_task` of backend/app/services/task_service.py).
use nebula_grid.Base.{
  ℕ, ◌≡◌, refl, ap, ◌∙◌, subst, inl, inr, true, false, not, none, some, [], Bool-cases, arith, ◌==◌,
}
use mathlib.Core.Option
use nebula_grid.Base.Text.{Text}
use nebula_grid.Base.Table.{first}
use nebula_grid.Executor.Effects.{released_of-eq}
use nebula_grid.Model.{
  User, Task, is_running, is_terminal, is_waiting, is_active, Db, get_task, set_task,
  release_task_allocations, add_task_event, update_task_duration, get_task-set_task, updated,
}
use nebula_grid.Response.{Response, ok, error, validation_error, require, integrity_error}
use nebula_grid.PathResolver.{Files}
use nebula_grid.Tasks.Visible.{managed_task, has_unconfirmed_cancel_cleanup}
use nebula_grid.Tasks.Create.{require_user_model, validate_env}
use nebula_grid.Response.Laws.{bind_ok}
use nebula_grid.Tasks.Create.Fresh.{OnlyDependencies, replace-Only}
use nebula_grid.Tasks.Update.{
  Patch, unset, null, given, TaskUpdateRequest, patch_fields, requeue_fields, patch_dependency,
  apply_update, check_update, update_row, update_locked, update_task, validate_workdir,
  validate_patch_requirement, given_value, breaks_columns,
}

patch_dependency-Only :
    (pk : ℕ) (p : Patch Text) (user : User) (db db' : Db)
    → patch_dependency pk p user db ≡ ok db'
    → OnlyDependencies db db'
unfolding patch_dependency
patch_dependency-Only pk unset user db db' e =
    let eq : db ≡ db' = cc in
    subst (OnlyDependencies db) eq
      (record { same_tasks = refl; same_allocations = refl; same_now = refl; same_counter = refl })
patch_dependency-Only pk null user db db' e = replace-Only pk none user db db' e
patch_dependency-Only pk (given name) user db db' e = replace-Only pk (some name) user db db' e

check_update-Only :
    (files : Files) (user : User) (p : TaskUpdateRequest) (task : Task) (db db' : Db)
    → check_update files user p task db ≡ ok db'
    → OnlyDependencies db db'
unfolding check_update
check_update-Only files user p task db db' e =
    let (owner, _, e1) = bind_ok (require_user_model task.user_id db) _ e in
    let (_, _, e2) = bind_ok (validate_workdir files owner p.workdir) _ e1 in
    let (_, _, e3) = bind_ok (validate_env user (given_value p.env_id) db) _ e2 in
    let (_, _, e4) = bind_ok (validate_patch_requirement user p.requirement db) _ e3 in
    let (_, _, e5) = bind_ok (require (not (breaks_columns p)) integrity_error) _ e4 in
    patch_dependency-Only task.id p.predecessor_task_id user db db' e5

-- A task of the history that waits again: the times, the duration, the return code, the block reason
-- and the generated command of its last run are cleared, and its open allocations are released.
pub record Requeued (task : Task) (db db' : Db) : Type 0 where
  pub row : Task
  pub found : get_task task.id db' ≡ some row
  pub waits : is_waiting row.state ≡ true
  pub not_started : row.started_at ≡ none
  pub not_finished : row.finished_at ≡ none
  pub no_duration : row.duration_seconds ≡ none
  pub no_code : row.return_code ≡ none
  pub no_reason : row.last_block_reason ≡ []
  pub no_generated : row.generated_command ≡ []
  pub released : db'.task_allocations ≡ (release_task_allocations task.id db).task_allocations

requeue_waits : (p : TaskUpdateRequest) (t : Task) → is_waiting (requeue_fields p t).state ≡ true
unfolding requeue_fields is_waiting
requeue_waits p t = ground arith

requeue-duration :
    (p : TaskUpdateRequest) (t : Task)
    → (update_task_duration (requeue_fields p t)).duration_seconds ≡ none
unfolding requeue_fields update_task_duration is_active
requeue-duration p t = ground arith

-- What an accepted edit does.
pub data Edited (task : Task) (db db' : Db) : Type 0 where
  requeued : is_terminal task.state ≡ true → Requeued task db db' → Edited task db db'
  edited :
      is_terminal task.state ≡ false
      → db'.task_allocations ≡ db.task_allocations
      → Edited task db db'

requeue-Requeued :
    (user : User) (p : TaskUpdateRequest) (task : Task) (db db1 : Db)
    → get_task task.id db ≡ some task
    → OnlyDependencies db db1
    → Requeued task db (
        add_task_event task.id updated
          (some user.id)
          (set_task task.id (requeue_fields p) (release_task_allocations task.id db1)))
unfolding add_task_event get_task set_task release_task_allocations requeue_fields patch_fields
    update_task_duration
requeue-Requeued user p task db db1 found only = record {
  row = update_task_duration (requeue_fields p task);
  found =
      get_task-set_task task.id (requeue_fields p) (release_task_allocations task.id db1)
        (λ t. refl)
      ∙ ap
          (λ rows.
            Option.map (λ t. update_task_duration (requeue_fields p t))
              (first (λ t. t.id == task.id) rows))
          only.same_tasks
      ∙ ap (Option.map _) found;
  waits = requeue_waits p task;
  not_started = refl;
  not_finished = refl;
  no_duration = requeue-duration p task;
  no_code = refl;
  no_reason = refl;
  no_generated = refl;
  released = released_of-eq task.id db db1 only.same_now only.same_allocations;
}

apply_update-Edited :
    (user : User) (p : TaskUpdateRequest) (task : Task) (db db1 : Db)
    → get_task task.id db ≡ some task
    → OnlyDependencies db db1
    → Edited task db (apply_update user p task db1)
unfolding apply_update add_task_event set_task
apply_update-Edited user p task db db1 found only = elim (Bool-cases (is_terminal task.state)) [
  | inr n ↦ edited n (rw n only.same_allocations)
  | inl t ↦ requeued t (rw t (requeue-Requeued user p task db db1 found only))
]

update_row-Edited :
    (files : Files) (user : User) (p : TaskUpdateRequest) (task : Task) (db db' : Db)
    → get_task task.id db ≡ some task
    → update_row files user p task db ≡ ok db'
    → (is_running task.state ≡ false)
      × (has_unconfirmed_cancel_cleanup task db ≡ false)
      × Edited task db db'
unfolding update_row
update_row-Edited files user p task db db' found e = elim (Bool-cases (is_running task.state)) [
  | inl runs ↦
      let bad : ◌≡◌ {A = Response Db} (error validation_error) (ok db') = rw runs at e in cc
  | inr idle ↦ elim (Bool-cases (has_unconfirmed_cancel_cleanup task db)) [
    | inl held ↦
        let bad : ◌≡◌ {A = Response Db} (error validation_error) (ok db') = rw (idle, held) at e in
        cc
    | inr clean ↦
        let (db1, e1, e2) = bind_ok (check_update files user p task db) _ (rw (idle, clean) at e) in
        let last : apply_update user p task db1 ≡ db' = cc in
        (
          idle,
          clean,
          subst (Edited task db) last (
              apply_update-Edited user p task db db1 found
                (check_update-Only files user p task db db1 e1)),
        )
  ]
]

-- An edit succeeds only for a task that is not running and whose stop is confirmed. A task of the
-- history then waits again, with the times, duration, return code, block reason and generated command
-- of its last run cleared and its open allocations released; for any other task no allocation changes.
pub update_task-Edited :
    (files : Files) (user : User) (task_id : Text) (p : TaskUpdateRequest) (task : Task)
    (db db' : Db)
    → managed_task user task_id db ≡ ok task
    → get_task task.id db ≡ some task
    → update_task files user task_id p db ≡ ok db'
    → (is_running task.state ≡ false)
      × (has_unconfirmed_cancel_cleanup task db ≡ false)
      × Edited task db db'
unfolding update_task update_locked
update_task-Edited files user task_id p task db db' managed found e =
    let e1 : update_locked files user p (get_task task.id db) db ≡ ok db' = rw managed at e in
    update_row-Edited files user p task db db' found (rw found at e1)
