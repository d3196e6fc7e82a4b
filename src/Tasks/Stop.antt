-- ===== src/Tasks/Stop.antt =====
-- The requests to hold and to stop a task (backend/app/services/task_service.py). The marker file
-- and the audit log are not part of the database.
use nebula_grid.Base.{
  Bool, true, false, ◌&&◌, ◌||◌, not, Option, none, some, List, [], ◌++◌, ltb, length, is_empty,
  if◌then◌else◌,
}
use nebula_grid.Base.Text.{Text, codes}
use nebula_grid.Model.{
  TaskState, wait, on_hold, cancelled, cancelling, is_waiting, is_terminal, is_cancelling,
  is_dispatching, is_on_hold, as_task, held, resumed, of_state, Task, User, TaskAllocation, Db,
  get_task, set_task, set_guard_state, load_open_allocations, release_task_allocations,
  add_task_event,
}
use nebula_grid.Response.{Response, ok, error, ◌>>=◌, not_found, validation_error}
use nebula_grid.Tasks.Visible.{managed_task}

-- The two writes of `hold_task`.
unfoldable pub toggle_hold : User → Task → Db → Db
toggle_hold user task db =
    if is_on_hold task.state || task.on_hold
    then add_task_event task.id resumed (some user.id)
        (set_task task.id (λ t. record t { state = wait; on_hold = false }) db)
    else add_task_event task.id held (some user.id)
        (set_task task.id (λ t. record t { state = on_hold; on_hold = true }) db)

unfoldable pub hold_task : User → Text → Db → Response Db
unfolding toggle_hold
hold_task user task_id db = do
  task ← managed_task user task_id db
  if not (is_waiting task.state) then error validation_error else ok (toggle_hold user task db)

-- The remote runner was certainly not called.
unfoldable pub never_launched : TaskState → List TaskAllocation → Bool
never_launched previous open_allocations =
    not (ltb 1 (length open_allocations))
    && ((is_empty open_allocations && is_waiting previous) || is_dispatching previous)

unfoldable pub stop_at_once : User → Task → Db → Db
stop_at_once user task db = add_task_event task.id (of_state cancelled) (some user.id) (
    set_guard_state task.id (as_task cancelled) (
      release_task_allocations task.id (
        set_task task.id
          (λ t. record t {
            on_hold = false;
            state = cancelled;
            finished_at = some db.now;
            last_block_reason = [];
          })
          db)))

unfoldable pub stop_request_reason : List TaskAllocation → Text
stop_request_reason open_allocations =
    codes "用户已请求停止，正在确认远端进程退出"
    ++ (if ltb 1 (length open_allocations) then codes "；检测到重叠 allocation，需人工核查" else [])

unfoldable pub request_stop : User → Task → List TaskAllocation → Db → Db
unfolding stop_request_reason
request_stop user task open_allocations db =
    add_task_event task.id (of_state cancelling) (some user.id) (
      set_guard_state task.id (as_task cancelling) (
        set_task task.id
          (λ t. record t {
            on_hold = false;
            state = cancelling;
            finished_at = none;
            last_block_reason = stop_request_reason open_allocations;
          })
          db))

-- The body of `cancel_task` on the locked row.
unfoldable pub cancel_row : User → Task → Db → Response Db
unfolding never_launched stop_at_once request_stop
cancel_row user task db =
    let open_allocations = load_open_allocations task.id db in
    if is_terminal task.state
    then error validation_error
    else if is_cancelling task.state
    then ok db
    else if never_launched task.state open_allocations
    then ok (stop_at_once user task db)
    else ok (request_stop user task open_allocations db)

-- The row is read again under its lock.
unfoldable pub cancel_locked : User → Option Task → Db → Response Db
unfolding cancel_row
cancel_locked user none db = error not_found
cancel_locked user (some task) db = cancel_row user task db

unfoldable pub cancel_task : User → Text → Db → Response Db
unfolding cancel_locked
cancel_task user task_id db = do
  task ← managed_task user task_id db
  cancel_locked user (get_task task.id db) db
