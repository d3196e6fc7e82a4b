-- ===== src/Model/State.antt =====
-- Task states and the zones of the task page (backend/app/services/task_service.py,
-- backend/app/services/task_timing.py), and the states of the runtime guard.
use nebula_grid.Base.{Bool, true, false, Option, none, some, if◌then◌else◌}
use nebula_grid.Base.Text.{Text}

-- The values of the column `tasks.state` that the program names, and any other text.
pub data TaskState : Type 0 where
  wait on_hold dispatching preparing starting running cancelling : TaskState
  succeeded failed cancelled alloc_error offline_error unknown : TaskState
  offline node_lost dependency_failed : TaskState
  other : Text → TaskState

-- `state in WAIT_STATES`
unfoldable pub is_waiting : TaskState → Bool
is_waiting wait = true
is_waiting on_hold = true
is_waiting _ = false

-- `state in RUNNING_STATES`
unfoldable pub is_running : TaskState → Bool
is_running dispatching = true
is_running starting = true
is_running running = true
is_running preparing = true
is_running cancelling = true
is_running _ = false

-- `state in TERMINAL_STATES`
unfoldable pub is_terminal : TaskState → Bool
is_terminal succeeded = true
is_terminal failed = true
is_terminal cancelled = true
is_terminal alloc_error = true
is_terminal offline_error = true
is_terminal unknown = true
is_terminal offline = true
is_terminal node_lost = true
is_terminal dependency_failed = true
is_terminal _ = false

-- `state in ACTIVE_STATES` of task_timing.py.
unfoldable pub is_active : TaskState → Bool
is_active wait = true
is_active on_hold = true
is_active dispatching = true
is_active preparing = true
is_active starting = true
is_active running = true
is_active cancelling = true
is_active _ = false

pub data Zone : Type 0 where
  wait_zone running_zone history_zone : Zone

unfoldable pub task_zone_name : TaskState → Option Zone
unfolding is_waiting is_running is_terminal
task_zone_name s =
    if is_waiting s
    then some wait_zone
    else if is_running s
    then some running_zone
    else if is_terminal s
    then some history_zone
    else none

-- Tests of one state, as the program writes them: `state == "..."` and `state in {...}`.
abbrev pub is_wait : TaskState → Bool
is_wait wait = true
is_wait _ = false

abbrev pub is_on_hold : TaskState → Bool
is_on_hold on_hold = true
is_on_hold _ = false

abbrev pub is_dispatching : TaskState → Bool
is_dispatching dispatching = true
is_dispatching _ = false

abbrev pub is_starting : TaskState → Bool
is_starting starting = true
is_starting _ = false

abbrev pub is_cancelling : TaskState → Bool
is_cancelling cancelling = true
is_cancelling _ = false

abbrev pub is_succeeded : TaskState → Bool
is_succeeded succeeded = true
is_succeeded _ = false

abbrev pub is_alloc_error : TaskState → Bool
is_alloc_error alloc_error = true
is_alloc_error _ = false

-- `state in {"cancelled", "alloc_error"}`
abbrev pub is_legacy_terminal : TaskState → Bool
is_legacy_terminal cancelled = true
is_legacy_terminal alloc_error = true
is_legacy_terminal _ = false

-- `state in {"starting", "running"}`
abbrev pub is_launched : TaskState → Bool
is_launched starting = true
is_launched running = true
is_launched _ = false

-- The column `task_runtime_guards.state`. The program also writes a task's state there.
pub data GuardState : Type 0 where
  allocated violation_pending check_failed uuid_pending cancel_failed : GuardState
  as_task : TaskState → GuardState

abbrev pub is_cancel_failed : GuardState → Bool
is_cancel_failed cancel_failed = true
is_cancel_failed _ = false
