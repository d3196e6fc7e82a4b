-- ===== src/Tasks/Create.antt =====
-- The submission of tasks (backend/app/services/task_service.py). The time stamps that the clock gives
-- to the attempts at a new task number are an argument, and so is the file system.
pub mod Fresh
use nebula_grid.Base.{
  ℕ, zero, suc, ◌+◌, Bool, true, false, ◌&&◌, ◌||◌, not, Option, none, some, List, [], ◌∷◌, ◌==◌,
  ltb, or_else, is_empty, is_some, length, max, if◌then◌else◌,
}
use nebula_grid.Base.Text.{Text, codes, strip, text_eq}
use nebula_grid.Base.Table.{delete_where}
use nebula_grid.Model.{
  User, UserState, enabled, Node, Env, Task, TaskRequirement, TaskDependency, TaskState, wait,
  on_hold, created, Db, get_user, get_node, get_env, update_task_duration, add_task_event,
}
use nebula_grid.Response.{
  Response, ok, error, ◌>>=◌, require, not_found, forbidden, validation_error, schema_error,
}
use nebula_grid.Access.{is_admin, has_permission, can_user_access_node}
use nebula_grid.PathResolver.{Files, resolve_user_visible_path}
use nebula_grid.Scheduler.Tick.{is_enabled}
use nebula_grid.Tasks.Visible.{find_task_model, can_view_task}
use nebula_grid.Tasks.Commands.{parse_batch_commands}

pub record TaskCreateRequest : Type 0 where
  pub description : Text
  pub env_id : Option ℕ
  pub workdir : Text
  pub command : Text
  pub priority : ℕ
  pub urgent : Bool
  pub on_hold : Bool
  pub predecessor_task_id : Option Text
  pub requirement : TaskRequirement

-- What the service reads besides the database: the file system, and the number that the clock gives
-- to each attempt.
pub record Surroundings : Type 0 where
  pub files : Files
  pub stamp : ℕ → Text

unfoldable pub require_user_model : ℕ → Db → Response User
require_user_model pk db = elim (get_user pk db) [
  | none ↦ error validation_error
  | some user ↦ ok user
]

abbrev is_usable_state : Text → Bool
is_usable_state s = text_eq s (codes "available") || text_eq s (codes "registered")

-- `get_env_for_user` and the check of the environment's state.
unfoldable pub require_available_env : User → ℕ → Db → Response Env
require_available_env user env_id db =
    if not (has_permission user.role (codes "envs:read"))
    then error forbidden
    else elim (get_env env_id db) [
      | none ↦ error not_found
      | some env ↦
          if text_eq env.name (codes "base")
          then error not_found
          else if is_usable_state env.state
          then ok env
          else error validation_error
    ]

unfoldable pub validate_env : User → Option ℕ → Db → Response Bool
unfolding require_available_env
validate_env user none db = ok true
validate_env user (some env_id) db = do _ ← require_available_env user env_id db; ok true

unfoldable pub validate_node : User → Option Node → Db → Response Bool
validate_node user none db = error validation_error
validate_node user (some node) db =
    require (is_admin user.role || can_user_access_node user node db) forbidden

unfoldable pub validate_requirement_node : User → TaskRequirement → Db → Response Bool
unfolding validate_node
validate_requirement_node user requirement db = elim requirement.node_id [
  | none ↦ ok true
  | some node_id ↦ validate_node user (get_node node_id db) db
]

-- The loop over the attempts: the first number that no task has.
unfoldable pub first_free_id : ℕ → ℕ → (ℕ → Text) → Db → Response Text
first_free_id zero attempt stamp db = error validation_error
first_free_id (suc left) attempt stamp db =
    let later = first_free_id left (attempt + 1) stamp db in
    if is_some (find_task_model (stamp attempt) db) then later else ok (stamp attempt)

unfoldable pub generate_task_id : (ℕ → Text) → Db → Response Text
unfolding first_free_id
generate_task_id stamp db = first_free_id 1000 0 stamp db

unfoldable pub drop_dependency : ℕ → Db → Db
drop_dependency pk db = record db {
  task_dependencies = delete_where (λ d. d.task_id == pk) db.task_dependencies;
}

unfoldable pub add_dependency : ℕ → ℕ → Db → Db
add_dependency pk prev db = record db {
  task_dependencies = record { task_id = pk; prev_task_id = prev } ∷ db.task_dependencies;
}

-- With the predecessor that was found, if any.
unfoldable pub depend_on : ℕ → Option Task → User → Db → Response Db
unfolding add_dependency
depend_on pk none user db = error validation_error
depend_on pk (some predecessor) user db =
    if not (can_view_task user predecessor db)
    then error validation_error
    else if predecessor.id == pk
    then error validation_error
    else ok (add_dependency pk predecessor.id db)

unfoldable pub replace_task_dependency : ℕ → Option Text → User → Db → Response Db
unfolding drop_dependency depend_on
replace_task_dependency pk predecessor_task_id user db =
    let name = strip (or_else predecessor_task_id []) in
    let db1 = drop_dependency pk db in
    if is_empty name then ok db1 else depend_on pk (find_task_model name db1) user db1

-- The row of a new task.
unfoldable pub new_task : ℕ → Text → ℕ → TaskCreateRequest → ℕ → Task
new_task pk task_id owner payload now = record {
  id = pk;
  task_id = task_id;
  user_id = owner;
  description = payload.description;
  env_id = payload.env_id;
  workdir = payload.workdir;
  command = payload.command;
  generated_command = [];
  state = if payload.on_hold then on_hold else wait;
  priority = max payload.priority (if payload.urgent then 100 else payload.priority);
  urgent = payload.urgent;
  on_hold = payload.on_hold;
  last_block_reason = [];
  return_code = none;
  created_at = now;
  started_at = none;
  finished_at = none;
  duration_seconds = none;
  requirement = some payload.requirement;
}

unfoldable pub insert_task : Task → Db → Db
insert_task task db = record db {
  tasks = update_task_duration task ∷ db.tasks;
  next_id = db.next_id + 1;
}

-- The checks before the row is made; the result is the owner.
unfoldable pub check_submission : Surroundings → User → TaskCreateRequest → ℕ → Db → Response User
unfolding require_user_model validate_env validate_requirement_node
check_submission around user payload owner_user_id db = do
  _ ← require (has_permission user.role (codes "tasks:create")) forbidden
  _ ← require (is_enabled user.state) forbidden
  owner ← require_user_model owner_user_id db
  _ ← resolve_user_visible_path around.files payload.workdir owner.username (is_admin owner.role)
  _ ← validate_env user payload.env_id db
  _ ← validate_requirement_node user payload.requirement db
  ok owner

-- The writes: the row, its dependency, and the event.
unfoldable pub store_task : User → TaskCreateRequest → User → Text → Db → Response (ℕ × Db)
unfolding new_task insert_task replace_task_dependency
store_task user payload owner task_id db = do
  let pk = db.next_id
  let db1 = insert_task (new_task pk task_id owner.id payload db.now) db
  db2 ← replace_task_dependency pk payload.predecessor_task_id user db1
  ok (pk, add_task_event pk created (some user.id) db2)

-- The result is the key of the new row, and the database with it.
unfoldable pub create_task_model :
    Surroundings → User → TaskCreateRequest → ℕ → Db → Response (ℕ × Db)
unfolding check_submission generate_task_id store_task
create_task_model around user payload owner_user_id db = do
  owner ← check_submission around user payload owner_user_id db
  task_id ← generate_task_id around.stamp db
  store_task user payload owner task_id db

unfoldable pub create_task : Surroundings → User → TaskCreateRequest → Db → Response (ℕ × Db)
unfolding create_task_model
create_task around user payload db = create_task_model around user payload user.id db

-- The loop over the commands, and the bound that the schema sets on each. The clock goes on from one
-- command to the next: each has its own stamps.
unfoldable pub create_each :
    Files → (ℕ → ℕ → Text) → User → TaskCreateRequest → List Text → Db → Response (List ℕ × Db)
unfolding create_task_model
create_each files stamps user payload [] db = ok ([], db)
create_each files stamps user payload (command ∷ commands) db =
    let around : Surroundings = record { files = files; stamp = stamps (length commands) } in
    if ltb 4096 (length command) then error schema_error else (do
      (pk, db1) ← create_task_model around user (record payload { command = command }) user.id db
      (pks, db2) ← create_each files stamps user payload commands db1
      ok (pk ∷ pks, db2))

-- The `command` of the payload holds all the commands.
unfoldable pub create_tasks_batch :
    Files → (ℕ → ℕ → Text) → User → TaskCreateRequest → Db → Response (List ℕ × Db)
unfolding create_each
create_tasks_batch files stamps user payload db =
    let commands = parse_batch_commands payload.command in
    if is_empty commands
    then error validation_error
    else create_each files stamps user payload commands db
