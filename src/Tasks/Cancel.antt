-- ===== src/Tasks/Cancel.antt =====
-- A request to stop a task never gives up the resources of a launch that may be alive
-- (`cancel_task` of backend/app/services/task_service.py).
use nebula_grid.Base.{
  ◌≡◌, refl, sym, subst, ◌⊎◌, inl, inr, true, false, none, some, List, [], Bool-cases,
}
use nebula_grid.Base.Text.{Text}
use nebula_grid.Model.{
  cancelled, cancelling, is_terminal, is_cancelling, Task, User, TaskAllocation, Db, get_task,
  set_task, set_guard_state, load_open_allocations, release_task_allocations, add_task_event,
}
use nebula_grid.Executor.Effects.{IsPresent, Quiet, Archives, set-Quiet, set-Archives}
use nebula_grid.Response.{ok, error, validation_error}
use nebula_grid.Tasks.Visible.{managed_task}
use nebula_grid.Tasks.Stop.{
  never_launched, stop_at_once, request_stop, stop_request_reason, cancel_row, cancel_locked,
  cancel_task,
}

-- What a successful request did to the task.
pub data Stopping (task : Task) (db db' : Db) : Type 0 where
  already : is_cancelling task.state ≡ true → db' ≡ db → Stopping task db db'
  at_once :
      never_launched task.state (load_open_allocations task.id db) ≡ true
      → Archives task.id db db'
      → Stopping task db db'
  requested :
      never_launched task.state (load_open_allocations task.id db) ≡ false
      → Quiet task.id db db'
      → Stopping task db db'

stop_at_once-Archives :
    (user : User) (task : Task) (db : Db)
    → IsPresent task.id db
    → Archives task.id db (stop_at_once user task db)
unfolding stop_at_once set_guard_state add_task_event release_task_allocations get_task set_task
    is_terminal
stop_at_once-Archives user task db h =
    set-Archives task.id
      (λ t. record t {
        on_hold = false;
        state = cancelled;
        finished_at = some db.now;
        last_block_reason = [];
      })
      db _ (λ t. refl) h refl refl (λ t. refl)

request_stop-Quiet :
    (user : User) (task : Task) (open_allocations : List TaskAllocation) (db : Db)
    → IsPresent task.id db
    → Quiet task.id db (request_stop user task open_allocations db)
unfolding request_stop set_guard_state add_task_event get_task set_task
request_stop-Quiet user task open_allocations db h =
    set-Quiet task.id
      (λ t. record t {
        on_hold = false;
        state = cancelling;
        finished_at = none;
        last_block_reason = stop_request_reason open_allocations;
      })
      db _ (λ t. refl) h refl refl refl

cancel_row-safe :
    (user : User) (task : Task) (db : Db)
    → IsPresent task.id db
    → ((is_terminal task.state ≡ true) × (cancel_row user task db ≡ error validation_error))
      ⊎ ((db' : Db) × (cancel_row user task db ≡ ok db') × Stopping task db db')
unfolding cancel_row
cancel_row-safe user task db h =
    let open_allocations = load_open_allocations task.id db in
    elim (Bool-cases (is_terminal task.state)) [
      | inl t ↦ inl (t, rw t refl)
      | inr not_ended ↦ elim (Bool-cases (is_cancelling task.state)) [
        | inl c ↦ inr (db, rw (not_ended, c) refl, already c refl)
        | inr n ↦ elim (Bool-cases (never_launched task.state (load_open_allocations task.id db))) [
          | inl l ↦ inr (
            stop_at_once user task db,
            rw (not_ended, n, l) refl,
            at_once l (stop_at_once-Archives user task db h),
          )
          | inr l ↦ inr (
            request_stop user task open_allocations db,
            rw (not_ended, n, l) refl,
            requested l (request_stop-Quiet user task open_allocations db h),
          )
        ]
      ]
    ]

pub cancel_task-safe :
    (user : User) (task_id : Text) (task : Task) (db : Db)
    → managed_task user task_id db ≡ ok task
    → get_task task.id db ≡ some task
    → ((is_terminal task.state ≡ true) × (cancel_task user task_id db ≡ error validation_error))
      ⊎ ((db' : Db) × (cancel_task user task_id db ≡ ok db') × Stopping task db db')
unfolding cancel_task cancel_row
cancel_task-safe user task_id task db managed found =
    let h : IsPresent task.id db = rw found refl in
    let e : cancel_task user task_id db ≡ cancel_row user task db =
      rw (managed, cancel_task, found, cancel_locked) in
    subst
      (λ r.
        ((is_terminal task.state ≡ true) × (r ≡ error validation_error))
        ⊎ ((db' : Db) × (r ≡ ok db') × Stopping task db db'))
      (sym e) (cancel_row-safe user task db h)
