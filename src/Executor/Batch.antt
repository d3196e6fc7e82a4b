-- ===== src/Executor/Batch.antt =====
-- The batches of the executor's tick, the claim of a dispatched task, and the restart of stops that an
-- older version archived too early (backend/app/workers/task_executor.py).
use nebula_grid.Base.{
  ℕ, suc, ◌-◌, ◌≤◌, ◌≡◌, refl, Bool, true, ◌&&◌, Option, none, some, List, [], ◌∷◌, ◌++◌, ltb, leb,
  any, take, length, last?, All, length-append, length-take-le, if◌then◌else◌, if_ind, arith,
}
use nebula_grid.Base.Text.{Text, codes}
use nebula_grid.Base.Table.{select, sort_by}
use nebula_grid.Base.Table.Laws.{All-select_holds, All-sort_by, All-take}
use nebula_grid.Model.{
  TaskState, starting, cancelling, is_dispatching, is_alloc_error, is_legacy_terminal,
  is_cancel_failed, as_task, of_state, Task, alloc_error_stop_reason_prefix, is_open_for, Db,
  get_task, set_task, bulk_set_task, set_guard, add_task_event,
}

abbrev pub by_key : Task → Task → Bool
by_key a b = ltb a.id b.id

-- The tasks of a set of states whose key passes a test, by key.
unfoldable pub keyed_tasks : (TaskState → Bool) → (ℕ → Bool) → Db → List Task
keyed_tasks states keys db = sort_by by_key (select (λ t. states t.state && keys t.id) db.tasks)

abbrev pub last_key : List Task → ℕ
last_key items = elim (last? items) [ none ↦ 0 | some t ↦ t.id ]

unfoldable pub rotating_items : (TaskState → Bool) → ℕ → ℕ → Db → List Task
unfolding keyed_tasks
rotating_items states after limit db =
    let items = take limit (keyed_tasks states (ltb after) db) in
    if ltb (length items) limit && ltb 0 after
    then items ++ take (limit - length items) (keyed_tasks states (λ k. leb k after) db)
    else items

unfoldable pub load_rotating_task_batch : (TaskState → Bool) → ℕ → ℕ → Db → List Task × ℕ
unfolding rotating_items
load_rotating_task_batch states after limit db =
    let items = rotating_items states after limit db in (items, last_key items)

-- The conditional update, and the row as it then stands; `none` where the claim fails.
unfoldable pub claim_dispatching_task : ℕ → Db → Option Db
claim_dispatching_task pk db = elim (get_task pk db) [
  | none ↦ none
  | some task ↦
      if is_dispatching task.state
      then some (
          add_task_event pk (of_state starting) none
            (bulk_set_task pk (λ t. record t { state = starting; last_block_reason = [] }) db))
      else none
]

unfoldable pub legacy_reason : TaskState → Text
legacy_reason previous =
    if is_alloc_error previous
    then alloc_error_stop_reason_prefix ++ codes "；检测到升级前越权终态尚未确认，正在重新核查远端进程"
    else codes "检测到升级前停止状态尚未确认，正在重新核查远端进程"

unfoldable pub restore_row : Task → Db → Db
unfolding legacy_reason
restore_row task db = add_task_event task.id (of_state cancelling) none (
    set_guard task.id
      (λ g. if is_cancel_failed g.state then g else record g { state = as_task cancelling })
      (set_task task.id
        (λ t. record t {
          state = cancelling;
          finished_at = none;
          last_block_reason = legacy_reason task.state;
        })
        db))

unfoldable pub is_unconfirmed : Db → Task → Bool
is_unconfirmed db task =
    is_legacy_terminal task.state && any (is_open_for task.id) db.task_allocations

unfoldable pub restore_each : List Task → Db → ℕ × Db
unfolding restore_row
restore_each [] db = (0, db)
restore_each (task ∷ tasks) db =
    let (restored, db1) = restore_each tasks (restore_row task db) in (suc restored, db1)

unfoldable pub restore_unconfirmed_legacy_cancellations : Db → ℕ × Db
unfolding restore_each is_unconfirmed
restore_unconfirmed_legacy_cancellations db =
    restore_each (take 50 (sort_by by_key (select (is_unconfirmed db) db.tasks))) db

All-append : (P : Task → Type 0) (xs ys : List Task) → All P xs → All P ys → All P (xs ++ ys)
All-append P [] ys h k = k
All-append P (x ∷ xs) ys h k = (h.0, All-append P xs ys h.1 k)

abbrev InStates : (TaskState → Bool) → Task → Type 0
InStates states t = states t.state ≡ true

first_true : (a b : Bool) → (a && b) ≡ true → a ≡ true
first_true a b h = ground arith

keyed_tasks-InStates :
    (states : TaskState → Bool) (keys : ℕ → Bool) (db : Db)
    → All (InStates states) (keyed_tasks states keys db)
unfolding keyed_tasks
keyed_tasks-InStates states keys db =
    All-sort_by (InStates states) by_key (select (λ t. states t.state && keys t.id) db.tasks) (
      All-select_holds (InStates states) (λ t. states t.state && keys t.id) db.tasks
        (λ t h. first_true (states t.state) (keys t.id) h))

rotating_items-le :
    (states : TaskState → Bool) (after limit : ℕ) (db : Db)
    → length (rotating_items states after limit db) ≤ limit
unfolding rotating_items
rotating_items-le states after limit db =
    let items = take limit (keyed_tasks states (ltb after) db) in
    let wrapped = take (limit - length items) (keyed_tasks states (λ k. leb k after) db) in
    if_ind (λ (xs : List Task). length xs ≤ limit) (ltb (length items) limit && ltb 0 after)
      (λ _. omega (
        arith,
        length-append items wrapped,
        length-take-le limit (keyed_tasks states (ltb after) db),
        length-take-le (limit - length items) (keyed_tasks states (λ k. leb k after) db),
      ))
      (λ _. length-take-le limit (keyed_tasks states (ltb after) db))

-- A batch has at most `limit` tasks, each in one of the states that were asked for, also where it
-- wraps around the end of the table.
pub load_rotating_task_batch-InStates :
    (states : TaskState → Bool) (after limit : ℕ) (db : Db)
    → (length (load_rotating_task_batch states after limit db).0 ≤ limit)
      × All (λ t. states t.state ≡ true) (load_rotating_task_batch states after limit db).0
unfolding load_rotating_task_batch rotating_items
load_rotating_task_batch-InStates states after limit db =
    let items = take limit (keyed_tasks states (ltb after) db) in
    let head =
      All-take (InStates states) limit (keyed_tasks states (ltb after) db)
        (keyed_tasks-InStates states (ltb after) db) in
    (
      rotating_items-le states after limit db,
      if_ind (All (InStates states)) (ltb (length items) limit && ltb 0 after)
          (λ _.
            All-append (InStates states) items
              (take (limit - length items) (keyed_tasks states (λ k. leb k after) db)) head
              (All-take (InStates states) (limit - length items)
                (keyed_tasks states (λ k. leb k after) db)
                (keyed_tasks-InStates states (λ k. leb k after) db)))
          (λ _. head),
    )

restore_each-allocations :
    (tasks : List Task) (db : Db) → (restore_each tasks db).1.task_allocations ≡ db.task_allocations
unfolding restore_each restore_row add_task_event set_guard set_task
restore_each-allocations [] db = refl
restore_each-allocations (task ∷ tasks) db = restore_each-allocations tasks (restore_row task db)

-- Taking up again the stops of an older version touches no allocation.
pub restore_unconfirmed_legacy_cancellations-keeps :
    (db : Db)
    → (restore_unconfirmed_legacy_cancellations db).1.task_allocations ≡ db.task_allocations
unfolding restore_unconfirmed_legacy_cancellations
restore_unconfirmed_legacy_cancellations-keeps db =
    restore_each-allocations (take 50 (sort_by by_key (select (is_unconfirmed db) db.tasks))) db
