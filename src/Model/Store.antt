-- ===== src/Model/Store.antt =====
-- The database that one session works on, and the row operations that the services and workers
-- share (backend/app/services/task_service.py, backend/app/workers/task_executor.py).
use nebula_grid.Base.{ℕ, Bool, ◌&&◌, not, Option, some, List, ◌∷◌, ◌==◌, ltb, is_some, take}
use nebula_grid.Base.Text.{Text, text_eq}
use nebula_grid.Base.Table.{select, first, update_where, sort_by}
use nebula_grid.Model.State.{GuardState}
use nebula_grid.Model.Rows.{
  User, UserSupervisor, Node, Env, Task, update_task_duration, TaskDependency, TaskAllocation,
  TaskRuntimeGuard, EventType, TaskEvent, Setting,
}

-- `now` is what the clock shows during the session.
pub record Db : Type 0 where
  pub now : ℕ
  pub users : List User
  pub user_supervisors : List UserSupervisor
  pub nodes : List Node
  pub envs : List Env
  pub settings : List Setting
  pub tasks : List Task
  pub task_dependencies : List TaskDependency
  pub task_allocations : List TaskAllocation
  pub task_runtime_guards : List TaskRuntimeGuard
  pub task_events : List TaskEvent
  pub next_id : ℕ

-- Keys: `db.get(T, pk)`.
unfoldable pub get_task : ℕ → Db → Option Task
get_task pk db = first (λ t. t.id == pk) db.tasks

unfoldable pub get_user : ℕ → Db → Option User
get_user pk db = first (λ u. u.id == pk) db.users

unfoldable pub get_node : ℕ → Db → Option Node
get_node pk db = first (λ n. n.id == pk) db.nodes

unfoldable pub get_env : ℕ → Db → Option Env
get_env pk db = first (λ e. e.id == pk) db.envs

unfoldable pub get_setting : Text → Db → Option Setting
get_setting key db = first (λ s. text_eq s.key key) db.settings

-- An assignment to the fields of a task through the session, with the hook of its flush.
unfoldable pub set_task : ℕ → (Task → Task) → Db → Db
unfolding update_task_duration
set_task pk f db = record db {
  tasks = update_where (λ t. t.id == pk) (λ t. update_task_duration (f t)) db.tasks;
}

-- `update(Task).where(...)`: a statement that does not run the hook.
unfoldable pub bulk_set_task : ℕ → (Task → Task) → Db → Db
bulk_set_task pk f db = record db { tasks = update_where (λ t. t.id == pk) f db.tasks }

-- `db.scalar(select(TaskRuntimeGuard).where(TaskRuntimeGuard.task_id == pk))`
unfoldable pub find_guard : ℕ → Db → Option TaskRuntimeGuard
find_guard pk db = first (λ g. g.task_id == pk) db.task_runtime_guards

-- An assignment to the guard of a task; nothing, if there is none.
unfoldable pub set_guard : ℕ → (TaskRuntimeGuard → TaskRuntimeGuard) → Db → Db
set_guard pk f db = record db {
  task_runtime_guards = update_where (λ g. g.task_id == pk) f db.task_runtime_guards;
}

unfoldable pub set_guard_state : ℕ → GuardState → Db → Db
unfolding set_guard
set_guard_state pk s db = set_guard pk (λ g. record g { state = s }) db

abbrev pub is_open : TaskAllocation → Bool
is_open a = not (is_some a.released_at)

abbrev pub is_open_for : ℕ → TaskAllocation → Bool
is_open_for pk a = (a.task_id == pk) && is_open a

-- The open allocations of a task, the newest first, two at most.
unfoldable pub load_open_allocations : ℕ → Db → List TaskAllocation
load_open_allocations pk db =
    take 2 (sort_by (λ a b. ltb b.id a.id) (select (is_open_for pk) db.task_allocations))

unfoldable pub release_task_allocations : ℕ → Db → Db
release_task_allocations pk db = record db {
  task_allocations =
      update_where (is_open_for pk) (λ a. record a { released_at = some db.now })
        db.task_allocations;
}

unfoldable pub add_task_event : ℕ → EventType → Option ℕ → Db → Db
add_task_event pk kind actor db = record db {
  task_events =
      record { task_id = pk; event_type = kind; actor_user_id = actor; created_at = db.now }
      ∷ db.task_events;
}
