-- ===== src/Base/Table/Laws.antt =====
-- Queries and sorting keep what holds of every row, and never add a row.
use nebula_grid.Base.Tests.{Bool-cases}
use nebula_grid.Base.Lists.{All, any, take, count, member}
use nebula_grid.Base.Table.{first, select, update_where, update_first, insert_sorted, sort_by}
use Prim.Native.Nat.{ℕ, zero, suc, ◌≤◌, ◌<◌}
use mathlib.Core.Path.{◌≡◌, refl, ap, subst}
use mathlib.Core.Bool.{Bool, true, false, ◌||◌, ◌&&◌}
use mathlib.Core.Logic.{inl, inr}
use mathlib.Core.Option.{some}
use mathlib.Core.List.{List, [], ◌∷◌, map}
use native.Mathlib.Omega.{arith}

module _ {ℓ κ} {A : Type ℓ} (P : A → Type κ) where
  pub All-select : (p : A → Bool) (xs : List A) → All P xs → All P (select p xs)
  unfolding select
  All-select p [] h = tt
  All-select p (x ∷ xs) h = elim (Bool-cases (p x)) [
    | inl e ↦ rw e (h.0, All-select p xs h.1)
    | inr e ↦ rw e (All-select p xs h.1)
  ]

  All-insert_sorted :
      (lt : A → A → Bool) (a : A) (xs : List A) → P a → All P xs → All P (insert_sorted lt a xs)
  unfolding insert_sorted
  All-insert_sorted lt a [] pa h = (pa, tt)
  All-insert_sorted lt a (x ∷ xs) pa h = elim (Bool-cases (lt x a)) [
    | inl e ↦ rw (e, insert_sorted) (h.0, All-insert_sorted lt a xs pa h.1)
    | inr e ↦ rw (e, insert_sorted) (pa, h)
  ]

  pub All-sort_by : (lt : A → A → Bool) (xs : List A) → All P xs → All P (sort_by lt xs)
  unfolding sort_by
  All-sort_by lt [] h = tt
  All-sort_by lt (x ∷ xs) h = All-insert_sorted lt x (sort_by lt xs) h.0 (All-sort_by lt xs h.1)

  pub All-take : (n : ℕ) (xs : List A) → All P xs → All P (take n xs)
  All-take zero xs h = tt
  All-take (suc n) [] h = tt
  All-take (suc n) (x ∷ xs) h = (h.0, All-take n xs h.1)

  -- What two queries share.
  pub All-select_holds :
      (p : A → Bool) (xs : List A) → ((x : A) → p x ≡ true → P x) → All P (select p xs)
  unfolding select
  All-select_holds p [] h = tt
  All-select_holds p (x ∷ xs) h = elim (Bool-cases (p x)) [
    | inl e ↦ rw e (h x e, All-select_holds p xs h)
    | inr e ↦ rw e (All-select_holds p xs h)
  ]

-- The multiplicity of a key among the rows.
module _ {ℓ} {A : Type ℓ} (key : A → ℕ) (k : ℕ) where
  abbrev pub occurrences : List A → ℕ
  occurrences xs = count k (map key xs)

  pub occurrences-select-le :
      (p : A → Bool) (xs : List A) → occurrences (select p xs) ≤ occurrences xs
  unfolding select
  occurrences-select-le p [] = omega arith
  occurrences-select-le p (x ∷ xs) = ground (arith, occurrences-select-le p xs)

  pub occurrences-take-le : (n : ℕ) (xs : List A) → occurrences (take n xs) ≤ occurrences xs
  occurrences-take-le zero xs = omega arith
  occurrences-take-le (suc n) [] = omega arith
  occurrences-take-le (suc n) (x ∷ xs) = ground (arith, occurrences-take-le n xs)

  occurrences-insert_sorted :
      (lt : A → A → Bool) (a : A) (xs : List A)
      → occurrences (insert_sorted lt a xs) ≡ occurrences (a ∷ xs)
  unfolding insert_sorted
  occurrences-insert_sorted lt a [] = refl
  occurrences-insert_sorted lt a (x ∷ xs) = ground (arith, occurrences-insert_sorted lt a xs)

  pub occurrences-sort_by :
      (lt : A → A → Bool) (xs : List A) → occurrences (sort_by lt xs) ≡ occurrences xs
  unfolding sort_by
  occurrences-sort_by lt [] = refl
  occurrences-sort_by lt (x ∷ xs) =
      ground (arith, occurrences-insert_sorted lt x (sort_by lt xs), occurrences-sort_by lt xs)

pub count-pos_of_member : (k : ℕ) (xs : List ℕ) → member k xs ≡ true → 0 < count k xs
count-pos_of_member k [] h = ground arith
count-pos_of_member k (x ∷ xs) h = ground (arith, count-pos_of_member k xs)

pub count-zero_of_not_member : (k : ℕ) (xs : List ℕ) → member k xs ≡ false → count k xs ≡ 0
count-zero_of_not_member k [] h = refl
count-zero_of_not_member k (x ∷ xs) h = ground (arith, count-zero_of_not_member k xs)

module _ {ℓ} {A : Type ℓ} (p : A → Bool) where
  any-insert_sorted :
      (lt : A → A → Bool) (a : A) (xs : List A) → any p (insert_sorted lt a xs) ≡ (p a || any p xs)
  unfolding insert_sorted
  any-insert_sorted lt a [] = refl
  any-insert_sorted lt a (x ∷ xs) = ground (arith, any-insert_sorted lt a xs)

  pub any-sort_by : (lt : A → A → Bool) (xs : List A) → any p (sort_by lt xs) ≡ any p xs
  unfolding sort_by
  any-sort_by lt [] = refl
  any-sort_by lt (x ∷ xs) =
      ground (arith, any-insert_sorted lt x (sort_by lt xs), any-sort_by lt xs)

  pub any-select : (q : A → Bool) (xs : List A) → any p (select q xs) ≡ any (λ x. q x && p x) xs
  unfolding select
  any-select q [] = refl
  any-select q (x ∷ xs) = ground (arith, any-select q xs)

  pub any-first :
      (xs : List A) (q : A → Bool) (a : A) → first q xs ≡ some a → p a ≡ true → any p xs ≡ true
  unfolding first
  any-first [] q a e h = cc
  any-first (x ∷ xs) q a e h = elim (Bool-cases (q x)) [
    | inl y ↦
        let e' : some x ≡ some a = rw y at e in let same : x ≡ a = cc in ground (arith, ap p same)
    | inr n ↦ let e' : first q xs ≡ some a = rw n at e in ground (arith, any-first xs q a e' h)
  ]

  pub select-update_where :
      (q : A → Bool) (f : A → A) (xs : List A)
      → ((x : A) → p (f x) ≡ p x)
      → ((x : A) → p x ≡ true → q x ≡ false)
      → select p (update_where q f xs) ≡ select p xs
  unfolding select update_where
  select-update_where q f [] keep apart = refl
  select-update_where q f (x ∷ xs) keep apart =
      ground (arith, keep x, apart x, select-update_where q f xs keep apart)

  pub All-first : (P : A → Type 0) (xs : List A) (x : A) → All P xs → first p xs ≡ some x → P x
  unfolding first
  All-first P [] x h e = cc
  All-first P (y ∷ ys) x h e = elim (Bool-cases (p y)) [
    | inl t ↦ let e' : some y ≡ some x = rw t at e in let same : y ≡ x = cc in subst P same h.0
    | inr f ↦ All-first P ys x h.1 (rw f at e)
  ]

  -- A write to one row makes it the only one that a query finds.
  pub first-update_first :
      (q : A → Bool) (f : A → A) (xs : List A)
      → All (λ x. p x ≡ false) xs
      → ((x : A) → p (f x) ≡ true)
      → any q xs ≡ true
      → (x : A) × (first p (update_first q f xs) ≡ some (f x))
  unfolding first update_first
  first-update_first q f [] none_found hit there = cc
  first-update_first q f (x ∷ xs) none_found hit there = elim (Bool-cases (q x)) [
    | inl y ↦ (x, rw (y, hit x) refl)
    | inr n ↦
        let (z, e) = first-update_first q f xs none_found.1 hit (rw n at there) in
        (z, rw (n, none_found.0, e) refl)
  ]
