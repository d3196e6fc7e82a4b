-- ===== src/Executor/Restored.antt =====
-- Which tasks are taken up again from an older version, and which are left alone
-- (`restore_unconfirmed_legacy_cancellations` of backend/app/workers/task_executor.py).
use nebula_grid.Base.{
  ℕ, zero, suc, ◌≤◌, ◌<◌, ◌≡◌, refl, ap, ◌∙◌, subst, ◌⊎◌, inl, inr, Bool, true, false, ◌&&◌, Option,
  none, some, List, [], ◌∷◌, any, take, length, All, Any, Bool-cases, arith, ==_iff, is_some,
}
use native.Mathlib.Decide.{dec_lt}
use nebula_grid.Base.Table.{first, select, sort_by, insert_sorted}
use nebula_grid.Base.Table.Laws.{All-sort_by, All-take, any-sort_by, any-select}
use nebula_grid.Model.{
  TaskState, cancelled, alloc_error, is_legacy_terminal, Task, TaskAllocation, is_open_for, Db,
  get_task,
}
use nebula_grid.Executor.Batch.{
  restore_each, is_unconfirmed, by_key, restore_unconfirmed_legacy_cancellations,
  restore_unconfirmed_legacy_cancellations-keeps,
}
use nebula_grid.Executor.Restart.{IsStopping, has_key, restore_each-other, restore_each-IsStopping}
use nebula_grid.Tasks.Successors.Keeps.{HasKeys}

-- A stop that was archived while the task still held an allocation.
abbrev pub ArchivedEarly : Task → Db → Type 0
ArchivedEarly t db =
    ((t.state ≡ cancelled) ⊎ (t.state ≡ alloc_error))
    × Any (λ (a : TaskAllocation). (a.task_id ≡ t.id) × (a.released_at ≡ none)) db.task_allocations

-- The tasks that the query finds.
abbrev found_by : Db → List Task
found_by db = sort_by by_key (select (is_unconfirmed db) db.tasks)

length-insert_sorted :
    (lt : Task → Task → Bool) (a : Task) (xs : List Task)
    → length (insert_sorted lt a xs) ≡ suc (length xs)
unfolding insert_sorted
length-insert_sorted lt a [] = refl
length-insert_sorted lt a (x ∷ xs) = ground (arith, length-insert_sorted lt a xs)

length-sort_by : (lt : Task → Task → Bool) (xs : List Task) → length (sort_by lt xs) ≡ length xs
unfolding sort_by
length-sort_by lt [] = refl
length-sort_by lt (x ∷ xs) =
    omega (arith, length-insert_sorted lt x (sort_by lt xs), length-sort_by lt xs)

take-all : (n : ℕ) (xs : List Task) → length xs ≤ n → take n xs ≡ xs
take-all zero [] h = refl
take-all zero (x ∷ xs) h = absurd (omega (arith, h))
take-all (suc n) [] h = refl
take-all (suc n) (x ∷ xs) h = ap (λ r. x ∷ r) (take-all n xs (omega (arith, h)))

-- What holds of the rows of the query: the test, and what held of all rows.
All-select_both :
    (P : Task → Type 0) (p : Task → Bool) (xs : List Task)
    → All P xs
    → All (λ x. P x × (p x ≡ true)) (select p xs)
unfolding select
All-select_both P p [] h = tt
All-select_both P p (x ∷ xs) h = elim (Bool-cases (p x)) [
  | inl e ↦ rw e ((h.0, e), All-select_both P p xs h.1)
  | inr e ↦ rw e (All-select_both P p xs h.1)
]

any-All :
    (P : Task → Type 0) (p : Task → Bool) (xs : List Task)
    → All P xs
    → any p xs ≡ true
    → (x : Task) × (p x ≡ true) × P x
any-All P p [] h e = cc
any-All P p (x ∷ xs) h e = elim (Bool-cases (p x)) [
  | inl y ↦ (x, y, h.0)
  | inr n ↦ any-All P p xs h.1 (rw n at e)
]

-- Where keys are unique, a task is in the batch only if it was found unconfirmed.
batch-unconfirmed :
    (pk : ℕ) (t : Task) (db : Db)
    → HasKeys db
    → get_task pk db ≡ some t
    → any (has_key pk) (take 50 (found_by db)) ≡ true
    → is_unconfirmed db t ≡ true
batch-unconfirmed pk t db keys found e =
    let P = λ (x : Task). (get_task x.id db ≡ some x) × (is_unconfirmed db x ≡ true) in
    let (x, same, own) =
      any-All P (has_key pk) (take 50 (found_by db))
        (All-take P 50 (found_by db) (
          All-sort_by P by_key (select (is_unconfirmed db) db.tasks)
            (All-select_both (λ x. get_task x.id db ≡ some x) (is_unconfirmed db) db.tasks keys)))
        e in
    let here : get_task pk db ≡ some x =
      subst (λ k. get_task k db ≡ some x) ((==_iff x.id pk).0 same) own.0 in
    let one : x ≡ t = cc in subst (λ y. is_unconfirmed db y ≡ true) one own.1

any-first_both :
    (p q : Task → Bool) (xs : List Task) (a : Task)
    → first p xs ≡ some a
    → q a ≡ true
    → any (λ x. q x && p x) xs ≡ true
unfolding first
any-first_both p q [] a e h = cc
any-first_both p q (x ∷ xs) a e h = elim (Bool-cases (p x)) [
  | inl y ↦
      let e' : some x ≡ some a = rw y at e in let same : x ≡ a = cc in ground (arith, ap q same)
  | inr n ↦
      let e' : first p xs ≡ some a = rw n at e in
      let later = any-first_both p q xs a e' h in ground (arith, later)
]

-- And it is in the batch, if no more than 50 are.
unconfirmed-batch :
    (pk : ℕ) (t : Task) (db : Db)
    → get_task pk db ≡ some t
    → is_unconfirmed db t ≡ true
    → length (select (is_unconfirmed db) db.tasks) ≤ 50
    → any (has_key pk) (take 50 (found_by db)) ≡ true
unfolding get_task
unconfirmed-batch pk t db found unconfirmed few =
    ap (any (has_key pk)) (
      take-all 50 (found_by db)
        (omega (arith, few, length-sort_by by_key (select (is_unconfirmed db) db.tasks))))
    ∙ any-sort_by (has_key pk) by_key (select (is_unconfirmed db) db.tasks)
    ∙ any-select (has_key pk) (is_unconfirmed db) db.tasks
    ∙ any-first_both (has_key pk) (is_unconfirmed db) db.tasks t found unconfirmed

any-Any :
    (pk : ℕ) (xs : List TaskAllocation)
    → any (is_open_for pk) xs ≡ true
    → Any (λ a. (a.task_id ≡ pk) × (a.released_at ≡ none)) xs
any-Any pk [] e = cc
any-Any pk (a ∷ xs) e = elim (Bool-cases (is_open_for pk a)) [
  | inl y ↦
      inl ((==_iff a.task_id pk).0 (ground (arith, y)), not_some a.released_at (ground (arith, y)))
  | inr n ↦ inr (any-Any pk xs (rw n at e))
]
  where
    not_some : (o : Option ℕ) → is_some o ≡ false → o ≡ none
    not_some none h = refl
    not_some (some x) h = cc

Any-any :
    (pk : ℕ) (xs : List TaskAllocation)
    → Any (λ a. (a.task_id ≡ pk) × (a.released_at ≡ none)) xs
    → any (is_open_for pk) xs ≡ true
Any-any pk [] h = absurd h
Any-any pk (a ∷ xs) (inl h) =
    let same = (==_iff a.task_id pk).1 h.0 in ground (arith, same, ap is_some h.1)
Any-any pk (a ∷ xs) (inr h) = let later = Any-any pk xs h in ground (arith, later)

legacy_states : (s : TaskState) → is_legacy_terminal s ≡ true → (s ≡ cancelled) ⊎ (s ≡ alloc_error)
legacy_states cancelled e = inl refl
legacy_states alloc_error e = inr refl
legacy_states _ e = cc

legacy_true : (s : TaskState) → (s ≡ cancelled) ⊎ (s ≡ alloc_error) → is_legacy_terminal s ≡ true
legacy_true s (inl e) = rw e refl
legacy_true s (inr e) = rw e refl

unconfirmed-ArchivedEarly : (t : Task) (db : Db) → is_unconfirmed db t ≡ true → ArchivedEarly t db
unfolding is_unconfirmed
unconfirmed-ArchivedEarly t db e = (
  legacy_states t.state (ground (arith, e)),
  any-Any t.id db.task_allocations (ground (arith, e)),
)

ArchivedEarly-unconfirmed : (t : Task) (db : Db) → ArchivedEarly t db → is_unconfirmed db t ≡ true
unfolding is_unconfirmed
ArchivedEarly-unconfirmed t db (states, open_one) =
    rw (legacy_true t.state states) (Any-any t.id db.task_allocations open_one)

-- What becomes of the row of a task.
pub data Outcome (pk : ℕ) (t : Task) (db db' : Db) : Type 0 where
  taken_up : ArchivedEarly t db → IsStopping pk db' → Outcome pk t db db'
  left_alone :
      get_task pk db' ≡ some t
      → ¬ ArchivedEarly t db ⊎ (50 < length (select (is_unconfirmed db) db.tasks))
      → Outcome pk t db db'

-- Where each key names one row, the restart of archived stops puts a task that was archived as
-- cancelled or alloc_error while it still held an allocation back into the state cancelling, without an
-- end; any other task keeps its row, and so does such a task only if there are more than 50 of them. No
-- allocation changes.
pub restore_unconfirmed_legacy_cancellations-Outcome :
    (pk : ℕ) (t : Task) (db : Db)
    → HasKeys db
    → get_task pk db ≡ some t
    → Outcome pk t db (restore_unconfirmed_legacy_cancellations db).1
      × ((restore_unconfirmed_legacy_cancellations db).1.task_allocations ≡ db.task_allocations)
unfolding restore_unconfirmed_legacy_cancellations
restore_unconfirmed_legacy_cancellations-Outcome pk t db keys found =
    (outcome, restore_unconfirmed_legacy_cancellations-keeps db)
  where
    outcome : Outcome pk t db (restore_each (take 50 (found_by db)) db).1
    outcome = elim (Bool-cases (any (has_key pk) (take 50 (found_by db)))) [
      | inl batch ↦
          taken_up (unconfirmed-ArchivedEarly t db (batch-unconfirmed pk t db keys found batch))
            (restore_each-IsStopping pk t (take 50 (found_by db)) db found batch)
      | inr outside ↦
          left_alone (restore_each-other pk (take 50 (found_by db)) db outside ∙ found)
            (elim (dec_lt 50 (length (select (is_unconfirmed db) db.tasks))) [
              | yes many ↦ inr many
              | no few ↦ inl (λ early.
                  let batch =
                    unconfirmed-batch pk t db found (ArchivedEarly-unconfirmed t db early)
                      (omega (arith, few)) in
                  cc)
            ])
    ]
