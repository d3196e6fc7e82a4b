-- ===== src/Model/Rows.antt =====
-- The rows of the tables (backend/app/db/models/core.py). A time is a number of microseconds.
use nebula_grid.Base.{ℕ, ◌-◌, Bool, Option, none, some, List, ltb, if◌then◌else◌}
use nebula_grid.Base.Int.{ℤ}
use nebula_grid.Base.Text.{Text}
use nebula_grid.Model.State.{TaskState, is_active, GuardState}

pub data Role : Type 0 where
  student mentor admin viewer : Role

pub data UserState : Type 0 where
  enabled disabled : UserState

pub record User : Type 0 where
  pub id : ℕ
  pub username : Text
  pub role : Role
  pub state : UserState

pub record UserSupervisor : Type 0 where
  pub student_id : ℕ
  pub supervisor_id : ℕ

pub data NodeState : Type 0 where
  online offline reconnecting manual_offline : NodeState

pub data AccessScope : Type 0 where
  public_access private_access : AccessScope

pub data SharingScope : Type 0 where
  public_sharing group_sharing no_sharing : SharingScope

pub record Gpu : Type 0 where
  pub id : ℕ
  pub gpu_index : ℕ
  pub gpu_uuid : Text
  pub model : Text
  pub total_vram_mb : ℕ
  pub compute_capability : Option Text
  pub schedulable : Bool

-- The scopes are `none` in rows of an older schema, where `is_public` decides.
pub record Node : Type 0 where
  pub id : ℕ
  pub name : Text
  pub ip : Text
  pub owner_user_id : Option ℕ
  pub owner_user_ids : List ℕ
  pub access_scope : Option AccessScope
  pub sharing_scope : Option SharingScope
  pub is_public : Bool
  pub gpu_compute_capability_overrides : List Text
  pub state : NodeState
  pub scheduling_enabled : Bool
  pub gpus : List Gpu

pub record Env : Type 0 where
  pub id : ℕ
  pub name : Text
  pub state : Text
  pub pytorch_version : Option Text
  pub pytorch_arch_list : List Text

pub record TaskRequirement : Type 0 where
  pub need_gpus : ℕ
  pub gpu_types : List Text
  pub node_id : Option ℕ
  pub allow_gpu_reuse : Bool
  pub max_reuse_count : ℕ

pub record Task : Type 0 where
  pub id : ℕ
  pub task_id : Text
  pub user_id : ℕ
  pub description : Text
  pub env_id : Option ℕ
  pub workdir : Text
  pub command : Text
  pub generated_command : Text
  pub state : TaskState
  pub priority : ℕ
  pub urgent : Bool
  pub on_hold : Bool
  pub last_block_reason : Text
  pub return_code : Option ℤ
  pub created_at : ℕ
  pub started_at : Option ℕ
  pub finished_at : Option ℕ
  pub duration_seconds : Option ℕ
  pub requirement : Option TaskRequirement

unfoldable pub execution_duration : Option ℕ → Option ℕ → Option ℕ
execution_duration (some start) (some finish) =
    if ltb finish start then none else some (finish - start)
execution_duration _ _ = none

-- The hook that runs before each insert and update of a task through the session.
unfoldable pub update_task_duration : Task → Task
unfolding is_active execution_duration
update_task_duration task = record task {
  duration_seconds =
      if is_active task.state then none else execution_duration task.started_at task.finished_at;
}

pub record TaskDependency : Type 0 where
  pub task_id : ℕ
  pub prev_task_id : ℕ

pub data AllocationMode : Type 0 where
  cpu reuse exclusive : AllocationMode

pub record TaskAllocation : Type 0 where
  pub id : ℕ
  pub task_id : ℕ
  pub node_id : ℕ
  pub gpu_ids : List ℕ
  pub cpu_allocated : ℕ
  pub allocation_mode : AllocationMode
  pub released_at : Option ℕ

pub record TaskRuntimeGuard : Type 0 where
  pub id : ℕ
  pub task_id : ℕ
  pub node_id : ℕ
  pub root_pid : Option ℕ
  pub process_group_id : Option ℕ
  pub allocated_gpu_ids : List ℕ
  pub observed_gpu_uuids : List Text
  pub violation_count : ℕ
  pub state : GuardState
  pub last_check_at : Option ℕ

pub data EventType : Type 0 where
  created updated held resumed allocated_event blocked started stop_confirmed : EventType
  guard_warning cancel_failed_event alloc_error_cancelling allocation_released : EventType
  of_state : TaskState → EventType

pub record TaskEvent : Type 0 where
  pub task_id : ℕ
  pub event_type : EventType
  pub actor_user_id : Option ℕ
  pub created_at : ℕ

pub record Setting : Type 0 where
  pub key : Text
  pub value : Text
