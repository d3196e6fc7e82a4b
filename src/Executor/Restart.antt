-- ===== src/Executor/Restart.antt =====
-- The rows that the restart of archived stops writes, and those that it leaves
-- (`restore_unconfirmed_legacy_cancellations` of backend/app/workers/task_executor.py).
use nebula_grid.Base.{
  ℕ, ◌≡◌, refl, sym, ap, ◌∙◌, subst, inl, inr, Bool, true, false, none, some, List, [], ◌∷◌, any,
  Bool-cases, arith, ◌==◌, ==_iff,
}
use mathlib.Core.Option
use nebula_grid.Base.Table.{first, update_where}
use nebula_grid.Model.{
  cancelling, Task, Db, get_task, set_task, set_guard, add_task_event, get_task-set_task,
  first-update_apart, update_task_duration,
}
use nebula_grid.Executor.Batch.{restore_row, restore_each, legacy_reason}

-- The row is in the state cancelling and has not ended.
abbrev pub IsStopping : ℕ → Db → Type 0
IsStopping pk db =
    (row : Task) × (get_task pk db ≡ some row) × (row.state ≡ cancelling) × (row.finished_at ≡ none)

abbrev pub has_key : ℕ → Task → Bool
has_key pk t = t.id == pk

abbrev restored : Task → Task → Task
restored task t = record t {
  state = cancelling;
  finished_at = none;
  last_block_reason = legacy_reason task.state;
}

restore_row-same :
    (pk : ℕ) (task : Task) (db : Db)
    → (task.id == pk) ≡ true
    → get_task pk (restore_row task db)
      ≡ Option.map (λ t. update_task_duration (restored task t)) (get_task pk db)
unfolding restore_row add_task_event set_guard get_task set_task
restore_row-same pk task db same =
    let here = (==_iff task.id pk).0 same in
    subst
      (λ k.
        first (λ t. t.id == pk)
          (update_where (λ t. t.id == k) (λ t. update_task_duration (restored task t)) db.tasks)
        ≡ Option.map (λ t. update_task_duration (restored task t))
            (first (λ t. t.id == pk) db.tasks))
      (sym here) (get_task-set_task pk (restored task) db (λ t. refl))

restore_row-other :
    (pk : ℕ) (task : Task) (db : Db)
    → (task.id == pk) ≡ false
    → get_task pk (restore_row task db) ≡ get_task pk db
unfolding restore_row add_task_event set_guard get_task set_task update_task_duration
restore_row-other pk task db other =
    first-update_apart (λ t. t.id == pk) (λ t. t.id == task.id)
      (λ t. update_task_duration (restored task t)) db.tasks (λ t. refl)
      (λ t same. subst (λ k. (k == pk) ≡ false) (sym ((==_iff t.id task.id).0 same)) other)

-- The row that a query finds with its key, after a round of the loop for another task or for its own.
restore_row-there :
    (pk : ℕ) (task t : Task) (db : Db)
    → get_task pk db ≡ some t
    → (u : Task) × (get_task pk (restore_row task db) ≡ some u)
restore_row-there pk task t db found = elim (Bool-cases (task.id == pk)) [
  | inl same ↦ (
    update_task_duration (restored task t),
    restore_row-same pk task db same ∙ ap (Option.map _) found,
  )
  | inr other ↦ (t, restore_row-other pk task db other ∙ found)
]

pub restore_each-other :
    (pk : ℕ) (tasks : List Task) (db : Db)
    → any (has_key pk) tasks ≡ false
    → get_task pk (restore_each tasks db).1 ≡ get_task pk db
unfolding restore_each
restore_each-other pk [] db h = refl
restore_each-other pk (task ∷ tasks) db h =
    restore_each-other pk tasks (restore_row task db) (ground (arith, h))
    ∙ restore_row-other pk task db (ground (arith, h))

restore_row-IsStopping :
    (pk : ℕ) (task t : Task) (db : Db)
    → get_task pk db ≡ some t
    → (task.id == pk) ≡ true
    → IsStopping pk (restore_row task db)
unfolding update_task_duration
restore_row-IsStopping pk task t db found same = (
  update_task_duration (restored task t),
  restore_row-same pk task db same ∙ ap (Option.map _) found,
  refl,
  refl,
)

pub restore_each-IsStopping :
    (pk : ℕ) (t : Task) (tasks : List Task) (db : Db)
    → get_task pk db ≡ some t
    → any (has_key pk) tasks ≡ true
    → IsStopping pk (restore_each tasks db).1
unfolding restore_each
restore_each-IsStopping pk t [] db found h = cc
restore_each-IsStopping pk t (task ∷ tasks) db found h =
    elim (Bool-cases (any (has_key pk) tasks)) [
      | inl later ↦
          let (u, found') = restore_row-there pk task t db found in
          restore_each-IsStopping pk u tasks (restore_row task db) found' later
      | inr last ↦
          let (row, e, stopping, open_end) =
            restore_row-IsStopping pk task t db found (ground (arith, h, last)) in
          (row, restore_each-other pk tasks (restore_row task db) last ∙ e, stopping, open_end)
    ]
