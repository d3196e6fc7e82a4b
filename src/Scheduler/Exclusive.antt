-- ===== src/Scheduler/Exclusive.antt =====
-- No GPU that an exclusive allocation holds is held by anything else
-- (backend/app/workers/scheduler.py).
use nebula_grid.Base.{
  ℕ, ◌≤◌, ◌≡◌, subst, Bool, true, false, not, Option, some, List, [], ◌∷◌, ltb, member, count, take,
  length, max, All, Bool-cases, inl, inr, if◌then◌else◌, arith,
}
use native.Mathlib.Nat.{le_trans}
use nebula_grid.Base.Table.{select, sort_by}
use nebula_grid.Base.Table.Laws.{
  All-take, All-select_holds, occurrences-select-le, occurrences-take-le, occurrences-sort_by,
  count-pos_of_member, count-zero_of_not_member,
}
use nebula_grid.Model.{AllocationMode, Node, Gpu, Env, TaskRequirement, TaskAllocation, Db}
use nebula_grid.Scheduler.Occupancy.{is_exclusive, load_gpu_occupancy}
use nebula_grid.Scheduler.Select.{
  Metrics, gpu_is_available, is_usable, by_index, reuse_mode, Selection, select_node,
}
use nebula_grid.Scheduler.Allocate.{gpu_ids_of, new_allocation}
use nebula_grid.Scheduler.Holders.{holders, held_exclusively, load_gpu_occupancy_lem}

-- An exclusively held GPU is named once.
abbrev pub IsExclusive : List TaskAllocation → Type 0
IsExclusive xs = (gpu : ℕ) → held_exclusively gpu xs ≡ true → holders gpu xs ≡ 1

-- The GPUs of a node are different.
abbrev pub IsDistinct : List Gpu → Type 0
IsDistinct gpus = (k : ℕ) → count k (gpu_ids_of gpus) ≤ 1

-- A GPU may join the holders: it has none, or it is shared and the newcomer shares it too.
abbrev pub MayJoin : List TaskAllocation → AllocationMode → Gpu → Type 0
MayJoin xs mode gpu =
    (held_exclusively gpu.id xs ≡ false) × ((is_exclusive mode ≡ true) → holders gpu.id xs ≡ 0)

third_test :
    (a b c d : Bool)
    → (if a then false else if b then false else if not c then false else d) ≡ true
    → c ≡ true
third_test a b c d h = ground arith

available-MayJoin :
    (db : Db) (requirement : TaskRequirement) (metrics : Metrics) (gpu : Gpu)
    → gpu_is_available gpu requirement (load_gpu_occupancy db) metrics ≡ true
    → MayJoin db.task_allocations (reuse_mode requirement.allow_gpu_reuse) gpu
unfolding gpu_is_available
available-MayJoin db requirement metrics gpu h = ground (arith, load_gpu_occupancy_lem db gpu.id)

usable-MayJoin :
    (db : Db) (requirement : TaskRequirement) (env : Option Env) (metrics : Metrics) (node : Node)
    (gpu : Gpu)
    → is_usable requirement env (load_gpu_occupancy db) metrics node gpu ≡ true
    → MayJoin db.task_allocations (reuse_mode requirement.allow_gpu_reuse) gpu
unfolding is_usable
usable-MayJoin db requirement env metrics node gpu h =
    available-MayJoin db requirement metrics gpu (third_test _ _ _ _ h)

-- What `select_node` returns.
pub record IsSound (xs : List TaskAllocation) (s : Selection) : Type 0 where
  pub join : All (MayJoin xs s.mode) s.gpus
  pub distinct : IsDistinct s.gpus

pub select_node-IsSound :
    (db : Db) (requirement : TaskRequirement) (env : Option Env) (metrics : Metrics)
    (nodes : List Node) {s : Selection}
    → All (λ (n : Node). IsDistinct n.gpus) nodes
    → select_node requirement env (load_gpu_occupancy db) metrics nodes ≡ some s
    → IsSound db.task_allocations s
unfolding select_node
select_node-IsSound db requirement env metrics [] d e = cc
select_node-IsSound db requirement env metrics (node ∷ nodes) {s} d e =
    elim (Bool-cases (ltb (length usable) (max 1 requirement.need_gpus))) [
      | inl few ↦ select_node-IsSound db requirement env metrics nodes d.1 (rw few at e)
      | inr enough ↦
          let e' : some chosen ≡ some s = rw enough at e in
          let q : chosen ≡ s = cc in subst (IsSound db.task_allocations) q chosen-IsSound
    ]
  where
    usable : List Gpu
    usable =
        select (is_usable requirement env (load_gpu_occupancy db) metrics node)
          (sort_by by_index node.gpus)

    chosen : Selection
    chosen = record {
      node = node;
      gpus = take (max 1 requirement.need_gpus) usable;
      mode = reuse_mode requirement.allow_gpu_reuse;
    }

    chosen-IsSound : IsSound db.task_allocations chosen
    chosen-IsSound = record {
      join =
          All-take (MayJoin db.task_allocations chosen.mode) (max 1 requirement.need_gpus) usable (
            All-select_holds (MayJoin db.task_allocations chosen.mode)
              (is_usable requirement env (load_gpu_occupancy db) metrics node)
              (sort_by by_index node.gpus) (usable-MayJoin db requirement env metrics node));
      distinct = λ k. le_trans (occurrences-take-le (λ (g : Gpu). g.id) k _ usable) (
          le_trans (occurrences-select-le (λ (g : Gpu). g.id) k _ (sort_by by_index node.gpus))
            (rw (occurrences-sort_by (λ (g : Gpu). g.id) k by_index node.gpus) (d.0 k)));
    }

member-false :
    (xs : List TaskAllocation) (mode : AllocationMode) (gpus : List Gpu) (k : ℕ)
    → All (MayJoin xs mode) gpus
    → member k (gpu_ids_of gpus) ≡ true
    → (held_exclusively k xs ≡ false) × ((is_exclusive mode ≡ true) → holders k xs ≡ 0)
member-false xs mode [] k h m = ground arith
member-false xs mode (g ∷ gpus) k h m = ground (arith, member-false xs mode gpus k)

pub add-IsExclusive :
    (id pk node_id : ℕ) (gpus : List Gpu) (mode : AllocationMode) (xs : List TaskAllocation)
    → IsExclusive xs
    → All (MayJoin xs mode) gpus
    → IsDistinct gpus
    → IsExclusive (new_allocation id pk node_id gpus mode ∷ xs)
unfolding holders held_exclusively
add-IsExclusive id pk node_id gpus mode xs inv join distinct k held =
    elim (Bool-cases (member k (gpu_ids_of gpus))) [
      | inl m ↦ ground (
        arith,
        member-false xs mode gpus k join m,
        distinct k,
        inv k,
        count-pos_of_member k (gpu_ids_of gpus),
      )
      | inr n ↦ ground (arith, inv k, count-zero_of_not_member k (gpu_ids_of gpus))
    ]
