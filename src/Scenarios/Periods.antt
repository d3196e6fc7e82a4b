-- ===== src/Scenarios/Periods.antt =====
-- The use of one node by overlapping allocations (backend/app/services/usage_service.py).
use nebula_grid.Base.{ℕ, ◌+◌, ◌-◌, ◌≡◌, refl, List, [], ◌∷◌, arith}
use nebula_grid.Base.Table.{sort_by}
use nebula_grid.Usage.{Interval, merged_intervals, occupied_seconds, daily_seconds, sum}
use nebula_grid.Usage.Instants.{is_occupied, instants}
use nebula_grid.Usage.Merged.{merged_intervals-instants, daily_seconds-instants}

abbrev interval : ℕ → ℕ → Interval
interval start stop = record { start = start; stop = stop }

abbrev intervals : List Interval
intervals = interval 40 90 ∷ interval 10 30 ∷ interval 20 50 ∷ interval 120 130 ∷ []

merged : merged_intervals intervals ≡ interval 10 90 ∷ interval 120 130 ∷ []
unfolding merged_intervals sort_by
merged = refl

merged_intervals-instants_example :
    occupied_seconds (merged_intervals intervals) 25 (25 + 100)
    ≡ instants (is_occupied intervals) 25 100
merged_intervals-instants_example = merged_intervals-instants intervals 25 100

daily_seconds-instants_example :
    sum (daily_seconds (merged_intervals intervals) 15 125 2)
    ≡ instants (is_occupied intervals) 15 (125 - 15)
daily_seconds-instants_example =
    daily_seconds-instants intervals 15 125 2 (omega arith) (omega arith)
