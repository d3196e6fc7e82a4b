-- ===== src/Nodes/Interrupt.antt =====
-- A launched task keeps its allocations when its node is forced offline
-- (`force_offline_node` of backend/app/services/node_service.py).
use nebula_grid.Base.{
  ℕ, ◌≡◌, refl, sym, ap, ◌∙◌, subst, inl, inr, Bool, true, false, ◌&&◌, ◌||◌, not, Option, none,
  some, List, [], ◌∷◌, ◌==◌, ==_iff, any, is_empty, member, Bool-cases, arith, if_ind,
}
use nebula_grid.Base.Text.{codes}
use nebula_grid.Base.Table.Laws.{any-sort_by, any-select, any-first, select-update_where}
use nebula_grid.Base.Table.{select, update_where, sort_by}
use nebula_grid.Model.{
  User, Node, Task, TaskAllocation, Db, get_node, get_task, get_task-id, first-holds, set_task,
  set_guard, add_task_event, allocation_released,
}
use nebula_grid.Response.{Response, ok, error, require, not_found, forbidden}
use nebula_grid.Access.{has_permission, is_control_plane_node}
use nebula_grid.Response.Laws.{bind_ok}
use nebula_grid.Nodes.Offline.{
  is_open_on, open_of, is_interrupted, is_unlaunched, cancel_unlaunched, request_interrupt,
  Interrupted, interrupt_task, interrupt_all, is_let_go, note_released, release_interrupted, by_id,
  tasks_on, by_key, interrupt_node_tasks, pause_node, compute_node, require_node_model,
  force_offline_node,
}

-- The task keeps what it holds: it is to be stopped, and may have been launched.
abbrev stays : ℕ → ℕ → List TaskAllocation → Task → Bool
stays node_id pk held t =
    t.id == pk
    && (is_interrupted t
        && not (is_unlaunched t (select (λ a. is_open_on node_id a && a.task_id == t.id) held)))

interrupt_task-allocations :
    (node_id actor : ℕ) (t : Task) (r : Interrupted) (db : Db)
    → (interrupt_task node_id actor t r db).1.task_allocations ≡ db.task_allocations
unfolding interrupt_task cancel_unlaunched request_interrupt set_task set_guard add_task_event
interrupt_task-allocations node_id actor t r db = ground arith

interrupt_task-member :
    (node_id actor pk : ℕ) (t : Task) (r : Interrupted) (db : Db)
    → (stays node_id pk db.task_allocations t || member pk r.keep_allocation_task_ids) ≡ true
    → member pk (interrupt_task node_id actor t r db).0.keep_allocation_task_ids ≡ true
unfolding interrupt_task
interrupt_task-member node_id actor pk t r db h = ground arith

interrupt_all-allocations :
    (node_id actor : ℕ) (ts : List Task) (r : Interrupted) (db : Db)
    → (interrupt_all node_id actor ts r db).1.task_allocations ≡ db.task_allocations
unfolding interrupt_all
interrupt_all-allocations node_id actor [] r db = refl
interrupt_all-allocations node_id actor (t ∷ ts) r db =
    let step : Interrupted × Db = interrupt_task node_id actor t r db in
    interrupt_all-allocations node_id actor ts step.0 step.1
    ∙ interrupt_task-allocations node_id actor t r db

interrupt_all-member :
    (node_id actor pk : ℕ) (ts : List Task) (r : Interrupted) (db : Db)
    → (any (stays node_id pk db.task_allocations) ts || member pk r.keep_allocation_task_ids) ≡ true
    → member pk (interrupt_all node_id actor ts r db).0.keep_allocation_task_ids ≡ true
unfolding interrupt_all
interrupt_all-member node_id actor pk [] r db h = h
interrupt_all-member node_id actor pk (t ∷ ts) r db h =
    let step : Interrupted × Db = interrupt_task node_id actor t r db in
    let one = interrupt_task-member node_id actor pk t r db in
    interrupt_all-member node_id actor pk ts step.0 step.1 (
      subst
        (λ held.
          (any (stays node_id pk held) ts || member pk step.0.keep_allocation_task_ids) ≡ true)
        (sym (interrupt_task-allocations node_id actor t r db)) (ground (arith, one, h)))

note_released-allocations :
    (actor : ℕ) (r : Interrupted) (held : List TaskAllocation) (db : Db)
    → (note_released actor r held db).task_allocations ≡ db.task_allocations
unfolding note_released add_task_event
note_released-allocations actor r [] db = refl
note_released-allocations actor r (a ∷ rest) db =
    if_ind (λ d. (note_released actor r rest d).task_allocations ≡ db.task_allocations)
      (member a.task_id r.interrupted_task_ids || not (any (λ t. t.id == a.task_id) db.tasks))
      (λ _. note_released-allocations actor r rest db)
      (λ _.
        note_released-allocations actor r rest
          (add_task_event a.task_id allocation_released (some actor) db))

-- The allocations of a task.
abbrev pub allocations_of : ℕ → Db → List TaskAllocation
allocations_of pk db = select (λ a. a.task_id == pk) db.task_allocations

-- A kept task loses nothing in the release.
release-keeps :
    (node_id actor pk : ℕ) (r : Interrupted) (db : Db)
    → member pk r.keep_allocation_task_ids ≡ true
    → allocations_of pk (release_interrupted node_id actor r db) ≡ allocations_of pk db
unfolding release_interrupted
release-keeps node_id actor pk r db kept =
    ap (select (λ (a : TaskAllocation). a.task_id == pk)) (
      note_released-allocations actor r
        (sort_by by_id (select (is_let_go node_id r) db.task_allocations)) released)
    ∙ select-update_where (λ (a : TaskAllocation). a.task_id == pk) (is_let_go node_id r)
        (λ a. record a { released_at = some db.now }) db.task_allocations (λ a. refl)
        (λ a same.
          let eq : a.task_id ≡ pk = (==_iff a.task_id pk).0 same in
          let m : member a.task_id r.keep_allocation_task_ids ≡ true = rw eq kept in
          ground (arith, m))
  where
    released : Db
    released = record db {
      task_allocations =
          update_where (is_let_go node_id r) (λ a. record a { released_at = some db.now })
            db.task_allocations;
    }

interrupt_node_tasks-keeps :
    (node_id actor pk : ℕ) (task : Task) (db : Db)
    → get_task pk db ≡ some task
    → is_interrupted task ≡ true
    → is_unlaunched task (open_of node_id pk db) ≡ false
    → is_empty (open_of node_id pk db) ≡ false
    → allocations_of pk (interrupt_node_tasks node_id actor db) ≡ allocations_of pk db
unfolding interrupt_node_tasks tasks_on get_task
interrupt_node_tasks-keeps node_id actor pk task db found stop launched holds =
    release-keeps node_id actor pk run.0 run.1 kept
    ∙ ap (select (λ (a : TaskAllocation). a.task_id == pk))
        (interrupt_all-allocations node_id actor (tasks_on node_id db) none_yet db)
  where
    none_yet : Interrupted
    none_yet = record { interrupted_task_ids = []; keep_allocation_task_ids = [] }

    run : Interrupted × Db
    run = interrupt_all node_id actor (tasks_on node_id db) none_yet db

    key : task.id ≡ pk
    key = get_task-id pk db task found

    launched' : is_unlaunched task (open_of node_id task.id db) ≡ false
    launched' = rw key launched

    holds' : is_empty (open_of node_id task.id db) ≡ false
    holds' = rw key holds

    stays' : stays node_id pk db.task_allocations task ≡ true
    stays' = ground (arith, stop, launched', (==_iff task.id pk).1 key)

    on_node : any (stays node_id pk db.task_allocations) (tasks_on node_id db) ≡ true
    on_node =
        any-sort_by (stays node_id pk db.task_allocations) by_key _
        ∙ any-select (stays node_id pk db.task_allocations) _ db.tasks
        ∙ any-first
            (λ t.
              not (is_empty (open_of node_id t.id db)) && stays node_id pk db.task_allocations t)
            db.tasks (λ t. t.id == pk) task found (ground (arith, stays', holds'))

    kept : member pk run.0.keep_allocation_task_ids ≡ true
    kept =
        interrupt_all-member node_id actor pk (tasks_on node_id db) none_yet db
          (ground (arith, on_node))

-- The node that a request names has the key of the request.
require_node_model-id : (pk : ℕ) (db : Db) (n : Node) → require_node_model pk db ≡ ok n → n.id ≡ pk
unfolding require_node_model compute_node get_node
require_node_model-id pk db n e = go (get_node pk db) refl e
  where
    go : (o : Option Node) → get_node pk db ≡ o → compute_node o ≡ ok n → n.id ≡ pk
    go none found h = cc
    go (some x) found h = elim (Bool-cases (is_control_plane_node x)) [
      | inl y ↦ let bad : ◌≡◌ {A = Response Node} (error not_found) (ok n) = rw y at h in cc
      | inr f ↦
          let h' : ok x ≡ ok n = rw f at h in
          let same : x ≡ n = cc in
          (==_iff n.id pk).0 (first-holds (λ m. m.id == pk) db.nodes n (found ∙ ap some same))
    ]

-- Forcing a node offline releases no allocation of a task that holds one there, is on its way to run,
-- runs, is being stopped or was archived without a confirmed stop, and may have been launched. Of a
-- dispatched task that holds just one allocation there it is certain that it was not launched.
pub force_offline_node-keeps :
    (user : User) (node_id pk : ℕ) (task : Task) (db db' : Db)
    → get_task pk db ≡ some task
    → is_interrupted task ≡ true
    → is_unlaunched task (open_of node_id pk db) ≡ false
    → is_empty (open_of node_id pk db) ≡ false
    → force_offline_node user node_id db ≡ ok db'
    → allocations_of pk db' ≡ allocations_of pk db
unfolding force_offline_node pause_node get_task
force_offline_node-keeps user node_id pk task db db' found stop launched holds e =
    let (allowed, e1, e2) =
      bind_ok (require (has_permission user.role (codes "nodes:write")) forbidden) _ e in
    let (node, e3, e4) = bind_ok (require_node_model node_id db) _ e2 in
    let same : node.id ≡ node_id = require_node_model-id node_id db node e3 in
    let eq : interrupt_node_tasks node.id user.id (pause_node node.id db) ≡ db' = cc in
    subst (λ d. allocations_of pk d ≡ allocations_of pk db) eq
      (subst
        (λ k.
          allocations_of pk (interrupt_node_tasks k user.id (pause_node k db))
          ≡ allocations_of pk db)
        (sym same)
        (interrupt_node_tasks-keeps node_id user.id pk task (pause_node node_id db) found stop
          launched holds))
