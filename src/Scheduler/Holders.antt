-- ===== src/Scheduler/Holders.antt =====
-- Who holds a GPU: a count over the open allocations, and `load_gpu_occupancy`
-- (backend/app/workers/scheduler.py) computes it.
use nebula_grid.Base.{
  ℕ, ◌+◌, ◌<◌, ◌≡◌, Bool, true, false, ◌&&◌, ◌||◌, List, [], ◌∷◌, ◌==◌, member, count,
  if◌then◌else◌, arith,
}
use nebula_grid.Base.Table.{select}
use nebula_grid.Base.Table.Laws.{count-pos_of_member}
use nebula_grid.Model.{AllocationMode, TaskAllocation, Db, is_open}
use nebula_grid.Scheduler.Occupancy.{
  Occupancy, OccupancyMap, is_exclusive, occupy_record, occupy, occupy_all, occupy_allocations,
  load_gpu_occupancy, occupancy_of,
}

-- How often the open allocations name a GPU.
unfoldable pub holders : ℕ → List TaskAllocation → ℕ
holders gpu [] = 0
holders gpu (a ∷ rest) = (if is_open a then count gpu a.gpu_ids else 0) + holders gpu rest

-- Some open exclusive allocation names the GPU.
unfoldable pub held_exclusively : ℕ → List TaskAllocation → Bool
held_exclusively gpu [] = false
held_exclusively gpu (a ∷ rest) =
    (is_open a && (is_exclusive a.allocation_mode && member gpu a.gpu_ids))
    || held_exclusively gpu rest

pub holders_of_held :
    (gpu : ℕ) (xs : List TaskAllocation) → held_exclusively gpu xs ≡ true → 0 < holders gpu xs
unfolding holders held_exclusively
holders_of_held gpu [] h = ground arith
holders_of_held gpu (a ∷ xs) h =
    ground (arith, count-pos_of_member gpu a.gpu_ids, holders_of_held gpu xs)

-- The record of a GPU after one allocation and after several.
abbrev add_to : ℕ → Bool → Occupancy → Occupancy
add_to n x r = record { count = n + r.count; exclusive = x || r.exclusive }

occupancy_of-occupy :
    (mode : AllocationMode) (gpu g : ℕ) (m : OccupancyMap)
    → occupancy_of g (occupy mode gpu m)
      ≡ (if gpu == g then occupy_record mode (occupancy_of g m) else occupancy_of g m)
unfolding occupancy_of occupy
occupancy_of-occupy mode gpu g [] = ground arith
occupancy_of-occupy mode gpu g ((k, r) ∷ m) = ground (arith, occupancy_of-occupy mode gpu g m)

occupancy_of-occupy_all :
    (mode : AllocationMode) (gpus : List ℕ) (g : ℕ) (m : OccupancyMap)
    → occupancy_of g (occupy_all mode gpus m)
      ≡ add_to (count g gpus) (is_exclusive mode && member g gpus) (occupancy_of g m)
unfolding occupy_all
occupancy_of-occupy_all mode [] g m = ground arith
occupancy_of-occupy_all mode (x ∷ xs) g m =
    ground
      (arith, occupancy_of-occupy_all mode xs g (occupy mode x m), occupancy_of-occupy mode x g m)

occupancy_of-occupy_allocations :
    (xs : List TaskAllocation) (g : ℕ) (m : OccupancyMap)
    → occupancy_of g (occupy_allocations (select is_open xs) m)
      ≡ add_to (holders g xs) (held_exclusively g xs) (occupancy_of g m)
unfolding occupy_allocations select holders held_exclusively
occupancy_of-occupy_allocations [] g m = ground arith
occupancy_of-occupy_allocations (a ∷ xs) g m = ground (
  arith,
  occupancy_of-occupy_allocations xs g m,
  occupancy_of-occupy_allocations xs g (occupy_all a.allocation_mode a.gpu_ids m),
  occupancy_of-occupy_all a.allocation_mode a.gpu_ids g m,
)

-- The occupancy of a GPU, as the scheduler loads it, counts how often the open allocations name the
-- GPU, and its exclusive mark says whether one of them is exclusive.
pub load_gpu_occupancy_lem :
    (db : Db) (gpu : ℕ)
    → ((occupancy_of gpu (load_gpu_occupancy db)).count ≡ holders gpu db.task_allocations)
      × ((occupancy_of gpu (load_gpu_occupancy db)).exclusive
          ≡ held_exclusively gpu db.task_allocations)
unfolding load_gpu_occupancy occupancy_of
load_gpu_occupancy_lem db gpu =
    ground (arith, occupancy_of-occupy_allocations db.task_allocations gpu [])
