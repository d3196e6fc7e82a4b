-- ===== src/Tasks/Successors.antt =====
-- The tasks that depend on a task, directly or through others, and the deletion of a task with them
-- (`load_successor_tasks`, `delete_task` of backend/app/services/task_service.py).
pub mod Keeps
pub mod Rounds
use nebula_grid.Base.{
  ℕ, zero, suc, ◌+◌, Bool, true, false, ◌&&◌, ◌||◌, not, Option, none, some, List, [], ◌∷◌, ◌++◌,
  ◌==◌, length, ltb, member, map, is_empty, or_else, if◌then◌else◌,
}
use nebula_grid.Base.Text.{Text, text_eq}
use nebula_grid.Base.Table.{select, delete_where, sort_by, first}
use nebula_grid.Model.{
  User, Task, TaskDependency, is_running, Db, get_task, release_task_allocations,
}
use nebula_grid.Response.{Response, ok, error, ◌>>=◌, require, not_found, validation_error}
use nebula_grid.Tasks.Visible.{
  managed_task, require_task_manager, can_view_task, has_unconfirmed_cancel_cleanup,
}

-- The tasks that name a task as their predecessor.
unfoldable pub dependents : List TaskDependency → ℕ → List ℕ
dependents [] pk = []
dependents (d ∷ rows) pk =
    let later = dependents rows pk in if d.prev_task_id == pk then d.task_id ∷ later else later

pub record Search : Type 0 where
  pub seen : List ℕ
  pub result : List Task
  pub frontier : List ℕ

-- The body of the inner loop.
unfoldable pub visit_found : ℕ → Option Task → Search → Search
visit_found pk none s = record s { seen = pk ∷ s.seen }
visit_found pk (some task) s = record {
  seen = pk ∷ s.seen;
  result = s.result ++ task ∷ [];
  frontier = s.frontier ++ task.id ∷ [];
}

unfoldable pub visit : Db → ℕ → Search → Search
unfolding visit_found
visit db pk s = if member pk s.seen then s else visit_found pk (get_task pk db) s

unfoldable pub visit_all : Db → List ℕ → Search → Search
unfolding visit
visit_all db [] s = s
visit_all db (pk ∷ pks) s = visit_all db pks (visit db pk s)

-- The outer loop, a round for each key of the frontier; `none` means that the fuel ran out.
unfoldable pub search_rounds : ℕ → Db → List ℕ → Search → Option Search
unfolding visit_all dependents
search_rounds fuel db [] s = some s
search_rounds zero db (pk ∷ rest) s = none
search_rounds (suc fuel) db (pk ∷ rest) s =
    let s1 = visit_all db (dependents db.task_dependencies pk) (record s { frontier = rest }) in
    search_rounds fuel db s1.frontier s1

abbrev pub start_search : ℕ → Search
start_search pk = record { seen = []; result = []; frontier = pk ∷ [] }

-- A round for the task itself, and one for each dependency row at most.
unfoldable pub load_successor_tasks : ℕ → Db → Option (List Task)
unfolding search_rounds
load_successor_tasks pk db =
    elim (search_rounds (suc (length db.task_dependencies)) db (pk ∷ []) (start_search pk)) [
      | none ↦ none
      | some s ↦ some s.result
    ]

abbrev pub by_key : Task → Task → Bool
by_key a b = ltb a.id b.id

-- The task may not be deleted.
unfoldable pub is_protected : Db → Task → Bool
is_protected db task = is_running task.state || has_unconfirmed_cancel_cleanup task db

-- `db.delete(item)` with the rows that the foreign keys take along.
unfoldable pub delete_row : ℕ → Db → Db
delete_row pk db = record db {
  tasks = delete_where (λ t. t.id == pk) db.tasks;
  task_dependencies =
      delete_where (λ d. d.task_id == pk || d.prev_task_id == pk) db.task_dependencies;
  task_allocations = delete_where (λ a. a.task_id == pk) db.task_allocations;
  task_runtime_guards = delete_where (λ g. g.task_id == pk) db.task_runtime_guards;
  task_events = delete_where (λ e. e.task_id == pk) db.task_events;
}

-- The loop over the locked rows: a protected one is skipped, and each other must be managed.
unfoldable pub delete_each : User → List Task → Db → Response (List Text × Db)
unfolding delete_row is_protected
delete_each user [] db = ok ([], db)
delete_each user (item ∷ items) db = if is_protected db item then delete_each user items db else (do
  _ ← require_task_manager user item db
  (removed, db1) ← delete_each user items (delete_row item.id (release_task_allocations item.id db))
  ok (item.task_id ∷ removed, db1))

pub record TaskDeleteResult : Type 0 where
  pub removed : List Text
  pub skipped_running : List Text

-- With the locked rows, by key.
unfoldable pub delete_locked : User → Task → List Task → Db → Response (TaskDeleteResult × Db)
unfolding delete_each
delete_locked user task items db =
    if is_running task.state
    then error validation_error
    else if has_unconfirmed_cancel_cleanup task db
    then error validation_error
    else (do
      (removed, db1) ← delete_each user items db
      ok (
        record {
          removed = removed;
          skipped_running = map (λ t. t.task_id) (select (is_protected db) items);
        },
        db1,
      ))

abbrev pub selected_keys : Task → Bool → List Task → List ℕ
selected_keys task delete_successors successors =
    task.id ∷ (if delete_successors then map (λ t. t.id) successors else [])

abbrev pub locked_items : Task → Bool → List Task → Db → List Task
locked_items task delete_successors successors db =
    sort_by by_key
      (select (λ t. member t.id (selected_keys task delete_successors successors)) db.tasks)

unfoldable pub delete_selected :
    User → Bool → Task → List Task → Db → Response (TaskDeleteResult × Db)
unfolding delete_locked
delete_selected user delete_successors task successors db =
    let items = locked_items task delete_successors successors db in
    elim (first (λ t. t.id == task.id) items) [
      | none ↦ error not_found
      | some locked ↦ delete_locked user locked items db
    ]

unfoldable pub delete_task : User → Text → Bool → Db → Response (TaskDeleteResult × Db)
unfolding delete_selected load_successor_tasks
delete_task user task_id delete_successors db = do
  task ← managed_task user task_id db
  delete_selected user delete_successors task (or_else (load_successor_tasks task.id db) []) db

unfoldable pub preview_task_delete : User → Text → Db → Response (List Text)
unfolding load_successor_tasks
preview_task_delete user task_id db = do
  task ← managed_task user task_id db
  let successors = or_else (load_successor_tasks task.id db) []
  ok (map (λ t. t.task_id) (select (λ t. can_view_task user t db) successors))
