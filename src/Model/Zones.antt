-- ===== src/Model/Zones.antt =====
-- The zones of the task page and the states in which a duration runs: the sets that
-- backend/app/services/task_service.py and backend/app/services/task_timing.py write down apart.
use nebula_grid.Base.{◌≡◌, false, ◌&&◌, ◌||◌, is_some, arith}
use nebula_grid.Model.State.{
  TaskState, is_waiting, is_running, is_terminal, is_active, task_zone_name,
}

-- The states in which a duration runs are those of the waiting and the running zone, no state is
-- both active and terminal, and a state has no zone exactly if it is none of these.
pub is_active-zones :
    (s : TaskState)
    → (is_active s ≡ (is_waiting s || is_running s))
      × ((is_active s && is_terminal s) ≡ false)
      × (is_some (task_zone_name s) ≡ (is_active s || is_terminal s))
unfolding is_active is_waiting is_running is_terminal task_zone_name
is_active-zones s = ground arith
