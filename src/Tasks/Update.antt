-- ===== src/Tasks/Update.antt =====
-- The edit of a task, and its new submission (backend/app/services/task_service.py).
pub mod Requeue
use nebula_grid.Base.{
  ℕ, Bool, true, false, ◌&&◌, ◌||◌, not, Option, none, some, List, [], ◌==◌, ltb, max,
  if◌then◌else◌,
}
use nebula_grid.Base.Text.{Text, codes}
use nebula_grid.Base.Table.{first}
use nebula_grid.Model.{
  User, Task, TaskRequirement, TaskState, wait, on_hold, is_running, is_terminal, updated, Db,
  get_task, get_user, set_task, release_task_allocations, add_task_event,
}
use nebula_grid.Response.{
  Response, ok, error, ◌>>=◌, require, not_found, validation_error, integrity_error,
}
use nebula_grid.Access.{is_admin}
use nebula_grid.PathResolver.{Files, resolve_user_visible_path}
use nebula_grid.Tasks.Visible.{managed_task, has_unconfirmed_cancel_cleanup}
use nebula_grid.Tasks.Create.{
  Surroundings, TaskCreateRequest, create_task_model, require_user_model, validate_env,
  validate_requirement_node, replace_task_dependency,
}

-- A field of a request body: left out, null, or a value.
pub data Patch {ℓ} (A : Type ℓ) : Type ℓ where
  unset null : Patch A
  given : A → Patch A

pub record TaskUpdateRequest : Type 0 where
  pub description : Patch Text
  pub env_id : Patch ℕ
  pub workdir : Patch Text
  pub command : Patch Text
  pub priority : Patch ℕ
  pub urgent : Patch Bool
  pub on_hold : Patch Bool
  pub predecessor_task_id : Patch Text
  pub requirement : Patch TaskRequirement

abbrev pub is_set {ℓ} : {A : Type ℓ} → Patch A → Bool
is_set unset = false
is_set _ = true

abbrev pub is_null {ℓ} : {A : Type ℓ} → Patch A → Bool
is_null null = true
is_null _ = false

-- `setattr`, on a column that may be null and on one that may not.
abbrev pub patch {ℓ} : {A : Type ℓ} → Patch A → A → A
patch (given a) old = a
patch _ old = old

abbrev pub patch_option {ℓ} : {A : Type ℓ} → Patch A → Option A → Option A
patch_option unset old = old
patch_option null old = none
patch_option (given a) old = some a

abbrev pub given_value {ℓ} : {A : Type ℓ} → Patch A → Option A
given_value (given a) = some a
given_value _ = none

-- A null in a column that may not be null, which the commit refuses.
unfoldable pub breaks_columns : TaskUpdateRequest → Bool
breaks_columns p =
    is_null p.description
    || (is_null p.workdir
        || (is_null p.command || (is_null p.priority || (is_null p.urgent || is_null p.on_hold))))

unfoldable pub validate_workdir : Files → User → Patch Text → Response Bool
validate_workdir files owner (given path) = do
  _ ← resolve_user_visible_path files path owner.username (is_admin owner.role)
  ok true
validate_workdir files owner _ = ok true

unfoldable pub validate_patch_requirement : User → Patch TaskRequirement → Db → Response Bool
validate_patch_requirement user (given r) db = validate_requirement_node user r db
validate_patch_requirement user _ db = ok true

-- The assignments of the fields, and the priority of a task that becomes urgent.
unfoldable pub patch_fields : TaskUpdateRequest → Task → Task
patch_fields p t =
    let urgent = patch p.urgent t.urgent in
    let priority = patch p.priority t.priority in
    record t {
      description = patch p.description t.description;
      env_id = patch_option p.env_id t.env_id;
      workdir = patch p.workdir t.workdir;
      command = patch p.command t.command;
      priority =
          if is_set p.urgent && (urgent && not (is_set p.priority))
          then max priority 100
          else priority;
      urgent = urgent;
      on_hold = patch p.on_hold t.on_hold;
      requirement = patch_option p.requirement t.requirement;
    }

abbrev pub hold_state : Bool → TaskState
hold_state true = on_hold
hold_state false = wait

-- A task of the history waits again, without the fields of its last run.
unfoldable pub requeue_fields : TaskUpdateRequest → Task → Task
unfolding patch_fields
requeue_fields p t =
    let t1 = patch_fields p t in
    record t1 {
      started_at = none;
      finished_at = none;
      return_code = none;
      last_block_reason = [];
      generated_command = [];
      state = hold_state t1.on_hold;
    }

unfoldable pub edit_fields : TaskUpdateRequest → Task → Task
unfolding patch_fields
edit_fields p t =
    let t1 = patch_fields p t in
    record t1 { state = if is_set p.on_hold then hold_state t1.on_hold else t1.state }

unfoldable pub patch_dependency : ℕ → Patch Text → User → Db → Response Db
patch_dependency pk unset user db = ok db
patch_dependency pk null user db = replace_task_dependency pk none user db
patch_dependency pk (given name) user db = replace_task_dependency pk (some name) user db

-- The writes of an accepted edit.
unfoldable pub apply_update : User → TaskUpdateRequest → Task → Db → Db
unfolding requeue_fields edit_fields
apply_update user p task db = add_task_event task.id updated (some user.id) (
    if is_terminal task.state
    then set_task task.id (requeue_fields p) (release_task_allocations task.id db)
    else set_task task.id (edit_fields p) db)

unfoldable pub check_update : Files → User → TaskUpdateRequest → Task → Db → Response Db
unfolding validate_workdir validate_patch_requirement patch_dependency
check_update files user p task db = do
  owner ← require_user_model task.user_id db
  _ ← validate_workdir files owner p.workdir
  _ ← validate_env user (given_value p.env_id) db
  _ ← validate_patch_requirement user p.requirement db
  _ ← require (not (breaks_columns p)) integrity_error
  patch_dependency task.id p.predecessor_task_id user db

-- On the locked row.
unfoldable pub update_row : Files → User → TaskUpdateRequest → Task → Db → Response Db
unfolding check_update apply_update
update_row files user p task db =
    if is_running task.state
    then error validation_error
    else if has_unconfirmed_cancel_cleanup task db
    then error validation_error
    else (do db1 ← check_update files user p task db; ok (apply_update user p task db1))

unfoldable pub update_locked : Files → User → TaskUpdateRequest → Option Task → Db → Response Db
unfolding update_row
update_locked files user p none db = error not_found
update_locked files user p (some task) db = update_row files user p task db

unfoldable pub update_task : Files → User → Text → TaskUpdateRequest → Db → Response Db
unfolding update_locked
update_task files user task_id p db = do
  task ← managed_task user task_id db
  update_locked files user p (get_task task.id db) db

abbrev pub predecessor_of : Task → Db → Option Task
predecessor_of task db = elim (first (λ d. d.task_id == task.id) db.task_dependencies) [
  | none ↦ none
  | some d ↦ get_task d.prev_task_id db
]

abbrev pub name_of : Option Task → Option Text
name_of none = none
name_of (some t) = some t.task_id

-- `task_requirement_schema`: a task without a requirement gets the default one.
abbrev pub requirement_of : Option TaskRequirement → TaskRequirement
requirement_of (some r) = r
requirement_of none = record {
  need_gpus = 1;
  gpu_types = [];
  node_id = none;
  allow_gpu_reuse = false;
  max_reuse_count = 1;
}

unfoldable pub resubmit_payload : Task → Db → TaskCreateRequest
resubmit_payload source db = record {
  description = source.description;
  env_id = source.env_id;
  workdir = source.workdir;
  command = source.command;
  priority = source.priority;
  urgent = source.urgent;
  on_hold = false;
  predecessor_task_id = name_of (predecessor_of source db);
  requirement = requirement_of source.requirement;
}

unfoldable pub resubmit_row : Surroundings → User → Task → Db → Response (ℕ × Db)
unfolding resubmit_payload
resubmit_row around user source db =
    if is_running source.state || has_unconfirmed_cancel_cleanup source db
    then error validation_error
    else create_task_model around user (resubmit_payload source db) source.user_id db

unfoldable pub resubmit_locked : Surroundings → User → Option Task → Db → Response (ℕ × Db)
unfolding resubmit_row
resubmit_locked around user none db = error not_found
resubmit_locked around user (some source) db = resubmit_row around user source db

unfoldable pub resubmit_task : Surroundings → User → Text → Db → Response (ℕ × Db)
unfolding resubmit_locked
resubmit_task around user task_id db = do
  task ← managed_task user task_id db
  resubmit_locked around user (get_task task.id db) db
