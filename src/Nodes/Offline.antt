-- ===== src/Nodes/Offline.antt =====
-- Forcing a node offline and its reconnection, and the tasks that run on it
-- (backend/app/services/node_service.py). The marker files are written after the commit.
use nebula_grid.Base.{
  Option, ℕ, Bool, false, ◌&&◌, ◌||◌, not, none, some, List, [], ◌∷◌, ◌++◌, ◌==◌, ltb, any, length,
  is_empty, member, map, if◌then◌else◌,
}
use nebula_grid.Base.Text.{Text, codes}
use nebula_grid.Base.Table.{select, sort_by, update_where, delete_where}
use nebula_grid.Model.{
  User, Node, offline, reconnecting, Task, cancelled, cancelling, is_legacy_terminal,
  is_dispatching, is_alloc_error, is_running, as_task, is_cancel_failed,
  alloc_error_stop_reason_prefix, is_alloc_error_reason, is_auto_stop_reason, of_state,
  allocation_released, TaskAllocation, is_open, Db, get_node, set_task, set_guard, add_task_event,
}
use nebula_grid.Response.{
  Response, ok, error, ◌>>=◌, require, not_found, forbidden, validation_error,
}
use nebula_grid.Access.{has_permission, is_control_plane_node}

abbrev pub is_open_on : ℕ → TaskAllocation → Bool
is_open_on node_id a = (a.node_id == node_id) && is_open a

-- The open allocations of the node that belong to a task.
abbrev pub open_of : ℕ → ℕ → Db → List TaskAllocation
open_of node_id pk db = select (λ a. is_open_on node_id a && a.task_id == pk) db.task_allocations

unfoldable pub set_node : ℕ → (Node → Node) → Db → Db
set_node pk f db = record db { nodes = update_where (λ n. n.id == pk) f db.nodes }

unfoldable pub compute_node : Option Node → Response Node
compute_node none = error not_found
compute_node (some node) = if is_control_plane_node node then error not_found else ok node

unfoldable pub require_node_model : ℕ → Db → Response Node
unfolding compute_node
require_node_model pk db = compute_node (get_node pk db)

-- `legacy_terminal_unconfirmed` or `active_stop_state`.
abbrev pub is_interrupted : Task → Bool
is_interrupted task = is_running task.state || is_legacy_terminal task.state

-- The task was certainly not launched: it is dispatched, and has one open allocation.
unfoldable pub is_unlaunched : Task → List TaskAllocation → Bool
is_unlaunched task allocations = is_dispatching task.state && length allocations == 1

unfoldable pub cancel_unlaunched : ℕ → Task → Db → Db
cancel_unlaunched actor task db = add_task_event task.id (of_state cancelled) (some actor) (
    set_guard task.id (λ g. record g { state = as_task cancelled })
      (set_task task.id
        (λ t. record t {
          on_hold = false;
          state = cancelled;
          finished_at = some db.now;
          last_block_reason = codes "节点被管理员强制下线";
        })
        db))

-- The block reason decides in which state the executor archives the task.
unfoldable pub interrupt_reason : Task → List TaskAllocation → Text
interrupt_reason task allocations =
    let base =
      if is_alloc_error task.state || is_alloc_error_reason task.last_block_reason
      then (if is_alloc_error_reason task.last_block_reason
          then task.last_block_reason
          else alloc_error_stop_reason_prefix ++ codes "；正在确认远端进程停止")
      else if is_auto_stop_reason task.last_block_reason
      then task.last_block_reason
      else codes "节点已被管理员强制下线，远端进程停止尚未确认" in
    if ltb 1 (length allocations) then base ++ codes "；检测到重叠 allocation，需人工核查" else base

unfoldable pub request_interrupt : ℕ → Task → List TaskAllocation → Db → Db
unfolding interrupt_reason
request_interrupt actor task allocations db =
    add_task_event task.id (of_state cancelling) (some actor) (
      set_guard task.id
        (λ g. if is_cancel_failed g.state then g else record g { state = as_task cancelling })
        (set_task task.id
          (λ t. record t {
            on_hold = false;
            state = cancelling;
            finished_at = none;
            last_block_reason = interrupt_reason task allocations;
          })
          db))

-- What the loop collects: the tasks that it interrupted, and those whose allocations stay.
pub record Interrupted : Type 0 where
  pub interrupted_task_ids : List ℕ
  pub keep_allocation_task_ids : List ℕ

-- The body of the loop on one task. The allocations of the node do not change in the loop.
unfoldable pub interrupt_task : ℕ → ℕ → Task → Interrupted → Db → Interrupted × Db
unfolding is_unlaunched cancel_unlaunched request_interrupt
interrupt_task node_id actor task r db =
    let allocations = open_of node_id task.id db in
    if not (is_interrupted task)
    then (r, db)
    else if is_unlaunched task allocations
    then (
      record r { interrupted_task_ids = task.id ∷ r.interrupted_task_ids },
      cancel_unlaunched actor task db,
    )
    else (
      record {
        interrupted_task_ids = task.id ∷ r.interrupted_task_ids;
        keep_allocation_task_ids = task.id ∷ r.keep_allocation_task_ids;
      },
      request_interrupt actor task allocations db,
    )

unfoldable pub interrupt_all : ℕ → ℕ → List Task → Interrupted → Db → Interrupted × Db
unfolding interrupt_task
interrupt_all node_id actor [] r db = (r, db)
interrupt_all node_id actor (task ∷ tasks) r db =
    let (r1, db1) = interrupt_task node_id actor task r db in
    interrupt_all node_id actor tasks r1 db1

-- The allocation is released at the end.
abbrev pub is_let_go : ℕ → Interrupted → TaskAllocation → Bool
is_let_go node_id r a = is_open_on node_id a && not (member a.task_id r.keep_allocation_task_ids)

unfoldable pub note_released : ℕ → Interrupted → List TaskAllocation → Db → Db
note_released actor r [] db = db
note_released actor r (a ∷ rest) db =
    let db1 = add_task_event a.task_id allocation_released (some actor) db in
    note_released actor r rest (
      if member a.task_id r.interrupted_task_ids || not (any (λ t. t.id == a.task_id) db.tasks)
      then db
      else db1)

abbrev pub by_id : TaskAllocation → TaskAllocation → Bool
by_id a b = ltb a.id b.id

unfoldable pub release_interrupted : ℕ → ℕ → Interrupted → Db → Db
unfolding note_released
release_interrupted node_id actor r db =
    note_released actor r (sort_by by_id (select (is_let_go node_id r) db.task_allocations))
      (record db {
        task_allocations =
            update_where (is_let_go node_id r) (λ a. record a { released_at = some db.now })
              db.task_allocations;
      })

abbrev pub by_key : Task → Task → Bool
by_key a b = ltb a.id b.id

-- The tasks with an open allocation on the node, by key.
unfoldable pub tasks_on : ℕ → Db → List Task
tasks_on node_id db =
    sort_by by_key (select (λ t. not (is_empty (open_of node_id t.id db))) db.tasks)

unfoldable pub interrupt_node_tasks : ℕ → ℕ → Db → Db
unfolding interrupt_all release_interrupted tasks_on
interrupt_node_tasks node_id actor db =
    let (r, db1) =
      interrupt_all node_id actor (tasks_on node_id db)
        (record { interrupted_task_ids = []; keep_allocation_task_ids = [] }) db in
    release_interrupted node_id actor r db1

unfoldable pub pause_node : ℕ → Db → Db
unfolding set_node
pause_node pk db = set_node pk (λ n. record n { state = offline; scheduling_enabled = false }) db

unfoldable pub force_offline_node : User → ℕ → Db → Response Db
unfolding require_node_model interrupt_node_tasks pause_node
force_offline_node user node_id db = do
  _ ← require (has_permission user.role (codes "nodes:write")) forbidden
  node ← require_node_model node_id db
  ok (interrupt_node_tasks node.id user.id (pause_node node.id db))

unfoldable pub reconnect_node : User → ℕ → Db → Response Db
unfolding require_node_model set_node
reconnect_node user node_id db = do
  _ ← require (has_permission user.role (codes "nodes:write")) forbidden
  node ← require_node_model node_id db
  ok (set_node node.id (λ n. record n { state = reconnecting }) db)

unfoldable pub has_open_node_allocation : ℕ → Db → Bool
has_open_node_allocation node_id db = any (is_open_on node_id) db.task_allocations

-- The requirements lose the node; the jobs of environments are not part of the database here.
abbrev pub forget_node : ℕ → Task → Task
forget_node pk t = elim t.requirement [
  | none ↦ t
  | some r ↦ elim r.node_id [
    | none ↦ t
    | some n ↦ if n == pk then record t { requirement = some (record r { node_id = none }) } else t
  ]
]

unfoldable pub delete_node : User → ℕ → Db → Response Db
unfolding require_node_model has_open_node_allocation
delete_node user node_id db = do
  _ ← require (has_permission user.role (codes "nodes:write")) forbidden
  node ← require_node_model node_id db
  _ ← require (not (has_open_node_allocation node.id db)) validation_error
  ok (record db {
    tasks = map (forget_node node.id) db.tasks;
    task_allocations = delete_where (λ a. a.node_id == node.id) db.task_allocations;
    task_runtime_guards = delete_where (λ g. g.node_id == node.id) db.task_runtime_guards;
    nodes = delete_where (λ n. n.id == node.id) db.nodes;
  })
