-- ===== src/Scheduler/Occupancy.antt =====
-- The occupancy of GPUs by open allocations (`load_gpu_occupancy` of
-- backend/app/workers/scheduler.py), a dictionary from GPU to count and exclusive mark.
use nebula_grid.Base.{
  ℕ, ◌+◌, Bool, true, false, Option, none, some, List, [], ◌∷◌, ◌==◌, or_else, if◌then◌else◌,
}
use nebula_grid.Base.Table.{select}
use nebula_grid.Model.{AllocationMode, exclusive, TaskAllocation, Db, is_open}

pub record Occupancy : Type 0 where
  pub count : ℕ
  pub exclusive : Bool

abbrev pub free_record : Occupancy
free_record = record { count = 0; exclusive = false }

abbrev pub OccupancyMap : Type 0
OccupancyMap = List (ℕ × Occupancy)

unfoldable pub lookup : ℕ → OccupancyMap → Option Occupancy
lookup gpu [] = none
lookup gpu ((g, r) ∷ m) = let rest = lookup gpu m in if g == gpu then some r else rest

abbrev pub is_exclusive : AllocationMode → Bool
is_exclusive exclusive = true
is_exclusive _ = false

abbrev pub occupy_record : AllocationMode → Occupancy → Occupancy
occupy_record mode r = record {
  count = r.count + 1;
  exclusive = if is_exclusive mode then true else r.exclusive;
}

-- The body of the inner loop: `setdefault`, the count, and the exclusive mark.
unfoldable pub occupy : AllocationMode → ℕ → OccupancyMap → OccupancyMap
occupy mode gpu [] = (gpu, occupy_record mode free_record) ∷ []
occupy mode gpu ((g, r) ∷ m) =
    let rest = occupy mode gpu m in
    if g == gpu then (g, occupy_record mode r) ∷ m else (g, r) ∷ rest

unfoldable pub occupy_all : AllocationMode → List ℕ → OccupancyMap → OccupancyMap
unfolding occupy
occupy_all mode [] m = m
occupy_all mode (gpu ∷ gpus) m = occupy_all mode gpus (occupy mode gpu m)

unfoldable pub occupy_allocations : List TaskAllocation → OccupancyMap → OccupancyMap
unfolding occupy_all
occupy_allocations [] m = m
occupy_allocations (a ∷ rest) m = occupy_allocations rest (occupy_all a.allocation_mode a.gpu_ids m)

unfoldable pub load_gpu_occupancy : Db → OccupancyMap
unfolding occupy_allocations
load_gpu_occupancy db = occupy_allocations (select is_open db.task_allocations) []

-- `occupancy.get(gpu_id, {"count": 0, "exclusive": False})`
unfoldable pub occupancy_of : ℕ → OccupancyMap → Occupancy
unfolding lookup
occupancy_of gpu m = or_else (lookup gpu m) free_record
