-- ===== src/Model/Laws.antt =====
-- How the row operations act on the tables that they do not touch, and on the row they change.
use nebula_grid.Base.{
  ℕ, ◌≡◌, refl, Bool, true, false, some, arith, List, [], ◌∷◌, ◌==◌, Bool-cases, inl, inr, ==_iff,
}
use mathlib.Core.Option
use nebula_grid.Base.Table.{first, update_where}
use nebula_grid.Model.Rows.{Task, update_task_duration}
use nebula_grid.Model.Store.{Db, get_task, set_task}

-- The first row that matches, after an update of the matching rows that keeps them matching.
pub first-update_where {ℓ} :
    {A : Type ℓ} (p : A → Bool) (f : A → A) (xs : List A)
    → ((x : A) → p (f x) ≡ p x)
    → first p (update_where p f xs) ≡ Option.map f (first p xs)
unfolding first update_where
first-update_where p f [] keep = refl
first-update_where p f (x ∷ xs) keep = elim (Bool-cases (p x)) [
  | inl e ↦ rw (e, keep x, e)
  | inr e ↦ rw (e, e) (first-update_where p f xs keep)
]

-- The first row that matches, after an update of rows that do not.
pub first-update_apart {ℓ} :
    {A : Type ℓ} (p q : A → Bool) (f : A → A) (xs : List A)
    → ((x : A) → p (f x) ≡ p x)
    → ((x : A) → q x ≡ true → p x ≡ false)
    → first p (update_where q f xs) ≡ first p xs
unfolding first update_where
first-update_apart p q f [] keep apart = refl
first-update_apart p q f (x ∷ xs) keep apart =
    ground (arith, keep x, apart x, first-update_apart p q f xs keep apart)

-- A row that a query finds matches it.
pub first-holds {ℓ} :
    {A : Type ℓ} (p : A → Bool) (xs : List A) (a : A) → first p xs ≡ some a → p a ≡ true
unfolding first
first-holds p [] a e = cc
first-holds p (x ∷ xs) a e = elim (Bool-cases (p x)) [
  | inl t ↦ let e' : some x ≡ some a = rw t at e in cc
  | inr f ↦ first-holds p xs a (rw f at e)
]

pub get_task-id : (pk : ℕ) (db : Db) (t : Task) → get_task pk db ≡ some t → t.id ≡ pk
unfolding get_task
get_task-id pk db t e = (==_iff t.id pk).0 (first-holds (λ x. x.id == pk) db.tasks t e)

pub update_task_duration-id : (t : Task) → (update_task_duration t).id ≡ t.id
unfolding update_task_duration
update_task_duration-id t = refl

pub update_task_duration-state : (t : Task) → (update_task_duration t).state ≡ t.state
unfolding update_task_duration
update_task_duration-state t = refl

-- The row that an assignment leaves.
pub get_task-set_task :
    (pk : ℕ) (f : Task → Task) (db : Db)
    → ((t : Task) → (f t).id ≡ t.id)
    → get_task pk (set_task pk f db) ≡ Option.map (λ t. update_task_duration (f t)) (get_task pk db)
unfolding get_task set_task
get_task-set_task pk f db keep =
    first-update_where (λ t. t.id == pk) (λ t. update_task_duration (f t)) db.tasks
      (λ t. rw (keep t))
