-- ===== src/Base/Table.antt =====
-- A table of the database: a list of rows with the queries that the program makes.
pub mod Laws
use Prim.Native.Nat.{ℕ, zero, suc, ◌≤◌}
use mathlib.Core.Path.{◌≡◌, refl}
use mathlib.Core.Bool.{Bool, true, false, not}
use mathlib.Core.List.{List, [], ◌∷◌, ◌++◌}
use mathlib.Core.Option.{Option, none, some}
use mathlib.Core.Option
use native.Mathlib.Omega.{arith}
use nebula_grid.Base.Tests.{Bool-cases, if◌then◌else◌}
use nebula_grid.Base.Lists.{length, any, All}

module _ {ℓ} {A : Type ℓ} where
  -- `select(T).where(p)`
  unfoldable pub select : (A → Bool) → List A → List A
  select p [] = []
  select p (x ∷ xs) = let rest = select p xs in if p x then x ∷ rest else rest

  -- `db.scalar(select(T).where(p))`: the first row.
  unfoldable pub first : (A → Bool) → List A → Option A
  first p [] = none
  first p (x ∷ xs) = let rest = first p xs in if p x then some x else rest

  -- `update(T).where(p)`, and an assignment to the fields of an attached object.
  unfoldable pub update_where : (A → Bool) → (A → A) → List A → List A
  update_where p f [] = []
  update_where p f (x ∷ xs) = (if p x then f x else x) ∷ update_where p f xs

  unfoldable pub delete_where : (A → Bool) → List A → List A
  delete_where p [] = []
  delete_where p (x ∷ xs) = let rest = delete_where p xs in if p x then rest else x ∷ rest

  -- `order_by`, and Python's `sorted`: a stable insertion sort by a strict order.
  unfoldable pub insert_sorted : (A → A → Bool) → A → List A → List A
  insert_sorted lt a [] = a ∷ []
  insert_sorted lt a (x ∷ xs) = elim (lt x a) [
    | true ↦ x ∷ insert_sorted lt a xs
    | false ↦ a ∷ x ∷ xs
  ]

  unfoldable pub sort_by : (A → A → Bool) → List A → List A
  unfolding insert_sorted
  sort_by lt [] = []
  sort_by lt (x ∷ xs) = insert_sorted lt x (sort_by lt xs)

  -- One attached object: the first row that a query finds.
  unfoldable pub update_first : (A → Bool) → (A → A) → List A → List A
  update_first p f [] = []
  update_first p f (x ∷ xs) = let rest = update_first p f xs in if p x then f x ∷ xs else x ∷ rest

  unfoldable pub delete_first : (A → Bool) → List A → List A
  delete_first p [] = []
  delete_first p (x ∷ xs) = let rest = delete_first p xs in if p x then xs else x ∷ rest
