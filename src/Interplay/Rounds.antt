-- ===== src/Interplay/Rounds.antt =====
-- A tick of the executor among other sessions, and the exclusive use of GPUs
-- (`task_executor_tick` of backend/app/workers/task_executor.py).
use nebula_grid.Base.{
  ℕ, ◌≡◌, refl, sym, ap, subst, inl, inr, Option, none, some, List, [], ◌∷◌, Bool-cases,
  Option-cases,
}
use nebula_grid.Base.Table.{first}
use nebula_grid.Model.{
  Task, Db, is_starting, is_dispatching, is_cancelling, is_launched, get_task, bulk_set_task,
  add_task_event,
}
use nebula_grid.Scheduler.Exclusive.{IsExclusive}
use nebula_grid.Executor.Finish.{Outcome, return, raise, ◌>>=◌}
use nebula_grid.Executor.Batch.{
  load_rotating_task_batch, claim_dispatching_task, restore_unconfirmed_legacy_cancellations,
  restore_unconfirmed_legacy_cancellations-keeps,
}
use nebula_grid.Executor.Collect.{collect_remote_status}
use nebula_grid.Executor.Launch.{start_remote_task}
use nebula_grid.Executor.Tick.{
  Round, Cursors, collect_each, start_claimed, use_claim, start_dispatched, task_executor_tick,
  stopping_batch_size, active_batch_size,
}
use nebula_grid.Interplay.{
  Exclusive, return_inj, released-Exclusive, starts-Exclusive, collects-Exclusive,
}

bind_return {ℓ κ} :
    {A : Type ℓ} {B : Type κ} (o : Outcome A) (f : A → Outcome B) {b : B}
    → (o >>= f) ≡ return b
    → (a : A) × (o ≡ return a) × (f a ≡ return b)
bind_return (return a) f e = (a, refl, e)
bind_return raise f e = cc

some_inj : (a b : Db) → some a ≡ some b → a ≡ b
some_inj a b e = cc

claim-Exclusive :
    (pk : ℕ) (db d : Db) → Exclusive db → claim_dispatching_task pk db ≡ some d → Exclusive d
unfolding claim_dispatching_task bulk_set_task add_task_event
claim-Exclusive pk db d h e = elim (Option-cases (get_task pk db)) [
  | inl missing ↦ let bad : none ≡ some d = rw (missing, claim_dispatching_task) at e in cc
  | inr (task, found) ↦ elim (Bool-cases (is_dispatching task.state)) [
    | inl waiting ↦
        let opened = rw (found, claim_dispatching_task, waiting) at e in
        let written = some_inj _ d opened in
        released-Exclusive pk db d h (inl (sym (ap (λ x. x.task_allocations) written)))
    | inr other ↦ let bad : none ≡ some d = rw (found, claim_dispatching_task, other) at e in cc
  ]
]

collect_one-Exclusive :
    (r : Round) (pk : ℕ) (db d : Db)
    → Exclusive db
    → collect_remote_status r.timeout_seconds (r.observe pk) pk db ≡ return d
    → Exclusive d
unfolding collect_remote_status
collect_one-Exclusive r pk db d h e = elim (Option-cases (get_task pk db)) [
  | inl missing ↦
      let same : return db ≡ return d = rw (missing, collect_remote_status) at e in
      subst Exclusive (return_inj db d same) h
  | inr (task, found) ↦ collects-Exclusive r.timeout_seconds (r.observe pk) pk task db d found e h
]

-- The other sessions keep the exclusive use, and delete no task that is started.
pub record IsFair (r : Round) : Type 0 where
  pub between :
      (d : Db) → IsExclusive d.task_allocations → IsExclusive (r.between d).task_allocations
  pub during :
      (pk : ℕ) (d : Db)
      → IsExclusive d.task_allocations
      → IsExclusive ((r.launching pk).during d).task_allocations
  pub keeps :
      (pk : ℕ) (task : Task) (d : Db)
      → get_task pk d ≡ some task
      → (row : Task) × (get_task task.id ((r.launching pk).during d) ≡ some row)

module _ (r : Round) (fair : IsFair r) where
  collect_each-Exclusive :
      (tasks : List Task) (db d : Db)
      → Exclusive db
      → collect_each r tasks db ≡ return d
      → Exclusive d
  unfolding collect_each
  collect_each-Exclusive [] db d h e = subst Exclusive (return_inj db d e) h
  collect_each-Exclusive (task ∷ tasks) db d h e =
      let (m, e1, e2) =
        bind_return (collect_remote_status r.timeout_seconds (r.observe task.id) task.id db)
          (λ x. collect_each r tasks (r.between x)) e in
      collect_each-Exclusive tasks (r.between m) d
        (fair.between m (collect_one-Exclusive r task.id db m h e1)) e2

  start_claimed-Exclusive :
      (pk : ℕ) (o : Option Task) (db d : Db)
      → Exclusive db
      → get_task pk db ≡ o
      → start_claimed r pk o db ≡ return d
      → Exclusive d
  unfolding start_claimed start_remote_task
  start_claimed-Exclusive pk none db d h found e = subst Exclusive (return_inj db d e) h
  start_claimed-Exclusive pk (some task) db d h found e =
      elim (Bool-cases (is_starting task.state)) [
        | inl starting ↦
            let (row, there) = fair.keeps pk task db found in
            starts-Exclusive r.settings (r.launching pk) task row db d starting there e
              (fair.during pk db h)
        | inr idle ↦
            let same : return db ≡ return d = rw (start_remote_task, idle) at e in
            subst Exclusive (return_inj db d same) h
      ]

  use_claim-Exclusive :
      (pk : ℕ) (o : Option Db) (db d : Db)
      → Exclusive db
      → claim_dispatching_task pk db ≡ o
      → use_claim r pk o db ≡ return d
      → Exclusive d
  unfolding use_claim
  use_claim-Exclusive pk none db d h claims e = subst Exclusive (return_inj db d e) h
  use_claim-Exclusive pk (some claimed) db d h claims e =
      start_claimed-Exclusive pk (get_task pk (r.between claimed)) (r.between claimed) d
        (fair.between claimed (claim-Exclusive pk db claimed h claims)) refl e

  start_dispatched-Exclusive :
      (o : Option Task) (db d : Db)
      → Exclusive db
      → start_dispatched r o db ≡ return d
      → Exclusive d
  unfolding start_dispatched
  start_dispatched-Exclusive none db d h e = subst Exclusive (return_inj db d e) h
  start_dispatched-Exclusive (some task) db d h e =
      use_claim-Exclusive task.id (claim_dispatching_task task.id db) db d h refl e

-- A tick that is not cut off by an exception keeps the exclusive use of GPUs, if the other sessions
-- keep it between the transactions of the tick and during its start, and delete no task meanwhile that
-- is started.
pub task_executor_tick-IsExclusive :
    (r : Round) (cursors later : Cursors) (db db' : Db)
    → IsFair r
    → IsExclusive db.task_allocations
    → task_executor_tick r cursors db ≡ return (later, db')
    → IsExclusive db'.task_allocations
unfolding task_executor_tick
task_executor_tick-IsExclusive r cursors later db db' fair h e =
    let restored = (restore_unconfirmed_legacy_cancellations db).1 in
    let db1 = r.between restored in
    let h1 = fair.between restored (
      released-Exclusive 0 db restored h
        (inl (restore_unconfirmed_legacy_cancellations-keeps db))) in
    let stopping =
      (load_rotating_task_batch is_cancelling cursors.stopping stopping_batch_size db1).0 in
    let (db2, e2, r2) = bind_return (collect_each r stopping db1) _ e in
    let h2 = collect_each-Exclusive r fair stopping db1 db2 h1 e2 in
    let (db3, e3, r3) =
      bind_return (start_dispatched r (first (λ t. is_dispatching t.state) db2.tasks) db2) _ r2 in
    let h3 = start_dispatched-Exclusive r fair _ db2 db3 h2 e3 in
    let active =
      (load_rotating_task_batch is_launched cursors.active active_batch_size (r.between db3)).0 in
    let (db5, e5, r5) = bind_return (collect_each r active (r.between db3)) _ r3 in
    let h5 = collect_each-Exclusive r fair active (r.between db3) db5 (fair.between db3 h3) e5 in
    let same : db5 ≡ db' = cc in subst Exclusive same h5
