-- ===== src/Usage.antt =====
-- The use of the nodes over time (backend/app/services/usage_service.py): the intervals in which a
-- node was occupied, merged and cut to days. Times and durations are microseconds.
pub mod Instants
pub mod Merged
use nebula_grid.Base.{
  ℕ, zero, suc, ◌+◌, ◌-◌, ◌*◌, max, min, Bool, true, false, ◌||◌, ◌&&◌, List, [], ◌∷◌, ◌==◌, ltb,
  leb, if◌then◌else◌,
}
use nebula_grid.Base.Table.{sort_by}

pub record Interval : Type 0 where
  pub start : ℕ
  pub stop : ℕ

-- The order of Python's tuples.
abbrev pub tuple_before : Interval → Interval → Bool
tuple_before a b = ltb a.start b.start || (a.start == b.start) && ltb a.stop b.stop

-- The loop: `last` is `merged[-1]`, and what stands before it does not change any more.
unfoldable pub merge_from : Interval → List Interval → List Interval
merge_from last [] = last ∷ []
merge_from last (x ∷ xs) = elim (leb x.start last.stop) [
  | true ↦ merge_from (record { start = last.start; stop = max x.stop last.stop }) xs
  | false ↦ last ∷ merge_from x xs
]

unfoldable pub merge_sorted : List Interval → List Interval
unfolding merge_from
merge_sorted [] = []
merge_sorted (x ∷ xs) = merge_from x xs

unfoldable pub merged_intervals : List Interval → List Interval
unfolding merge_sorted
merged_intervals intervals = merge_sorted (sort_by tuple_before intervals)

-- The subtraction stops at 0, as the maximum with 0 does.
abbrev pub overlap : Interval → ℕ → ℕ → ℕ
overlap i start stop = min i.stop stop - max i.start start

unfoldable pub occupied_seconds : List Interval → ℕ → ℕ → ℕ
occupied_seconds [] start stop = 0
occupied_seconds (i ∷ is) start stop = overlap i start stop + occupied_seconds is start stop

abbrev pub day : ℕ
day = 24 * 60 * 60 * 1000000

-- The figures of the days from the given one on, the last of which ends now (`build_node_usage`).
unfoldable pub daily_seconds : List Interval → ℕ → ℕ → ℕ → List ℕ
unfolding occupied_seconds
daily_seconds merged begin now zero = []
daily_seconds merged begin now (suc days) =
    occupied_seconds merged begin (min (begin + day) now)
    ∷ daily_seconds merged (begin + day) now days

unfoldable pub sum : List ℕ → ℕ
sum [] = 0
sum (n ∷ ns) = n + sum ns
