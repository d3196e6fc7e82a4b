-- ===== src/Usage/Instants.antt =====
-- The instants that lie in an interval, and how many of them a period has
-- (backend/app/services/usage_service.py).
use nebula_grid.Base.{
  ℕ, zero, suc, ◌+◌, ◌≡◌, refl, Bool, false, ◌||◌, ◌&&◌, List, ltb, leb, any, arith, if◌then◌else◌,
}
use nebula_grid.Usage.{Interval, overlap}

-- The interval holds its start and not its stop.
abbrev pub is_within : ℕ → Interval → Bool
is_within t i = leb i.start t && ltb t i.stop

abbrev pub is_occupied : List Interval → ℕ → Bool
is_occupied intervals t = any (is_within t) intervals

-- How many of the `n` instants from `t` on pass the test.
unfoldable pub instants : (ℕ → Bool) → ℕ → ℕ → ℕ
instants p t zero = 0
instants p t (suc n) = (if p t then 1 else 0) + instants p (suc t) n

pub instants-interval :
    (i : Interval) (t n : ℕ) → instants (λ u. is_within u i) t n ≡ overlap i t (t + n)
unfolding instants
instants-interval i t zero = ground arith
instants-interval i t (suc n) = ground (arith, instants-interval i (suc t) n)

pub instants-none : (p : ℕ → Bool) (t n : ℕ) → ((u : ℕ) → p u ≡ false) → instants p t n ≡ 0
unfolding instants
instants-none p t zero h = refl
instants-none p t (suc n) h = ground (arith, h t, instants-none p (suc t) n h)

pub instants-cong :
    (p q : ℕ → Bool) (t n : ℕ) → ((u : ℕ) → p u ≡ q u) → instants p t n ≡ instants q t n
unfolding instants
instants-cong p q t zero h = refl
instants-cong p q t (suc n) h = ground (arith, h t, instants-cong p q (suc t) n h)

-- Tests that exclude each other.
pub instants-or :
    (p q : ℕ → Bool) (t n : ℕ)
    → ((u : ℕ) → (p u && q u) ≡ false)
    → instants (λ u. p u || q u) t n ≡ instants p t n + instants q t n
unfolding instants
instants-or p q t zero h = refl
instants-or p q t (suc n) h = ground (arith, h t, instants-or p q (suc t) n h)
