-- ===== src/Scheduler/Invariant.antt =====
-- The scheduler keeps its invariant: no GPU of an exclusive allocation is held twice
-- (backend/app/workers/scheduler.py).
use nebula_grid.Base.{
  ℕ, ◌≤◌, ◌≡◌, refl, subst, sym, Bool, true, not, Option, none, some, List, [], ◌∷◌, ◌==◌, any, All,
  Bool-cases, Option-cases, inl, inr, if_ind, arith,
}
use nebula_grid.Base.Text.{Text, text_eq}
use nebula_grid.Base.Table.{select, update_where, sort_by}
use nebula_grid.Base.Table.Laws.{All-select, All-sort_by}
use nebula_grid.Model.{
  AllocationMode, cpu, Node, Gpu, User, Task, TaskRequirement, TaskAllocation, TaskDependency, Db,
  is_succeeded, is_terminal, is_open_for, set_task, bulk_set_task, set_guard, find_guard,
  add_task_event, get_node, get_task, get_user,
}
use nebula_grid.Scheduler.Select.{
  Metrics, Selection, select_gpu_allocation, env_of, visible_schedulable_nodes, is_candidate, by_id,
  by_priority,
}
use nebula_grid.Scheduler.Allocate.{
  allocate_task, node_accepts, is_claimable, reset_guard, claim_for_dispatch, add_allocation,
  release_terminal_allocations, is_releasable, mark_blocked,
}
use nebula_grid.Scheduler.Tick.{
  check_predecessor, check_dependency, schedule_required, schedule_owned, allocate_selected,
  schedule_on, dependency_satisfied, find_dependency, schedule_resources, schedule_ready,
  schedule_for_owner, try_schedule_task, schedule_first, waiting_tasks, scheduler_enabled,
  scheduler_tick, is_enabled,
}
use nebula_grid.Scheduler.Holders.{holders, held_exclusively, holders_of_held}
use nebula_grid.Scheduler.Exclusive.{
  IsExclusive, IsDistinct, MayJoin, select_node-IsSound, add-IsExclusive,
}

-- The invariant: exclusive GPUs have one holder, and the GPUs of each node are different rows.
pub record IsGood (db : Db) : Type 0 where
  pub one_holder : IsExclusive db.task_allocations
  pub distinct : All (λ (n : Node). IsDistinct n.gpus) db.nodes

-- A write that touches neither the allocations nor the nodes.
keep :
    (db db' : Db)
    → db'.task_allocations ≡ db.task_allocations
    → db'.nodes ≡ db.nodes
    → IsGood db
    → IsGood db'
keep db db' e f g = record {
  one_holder = subst IsExclusive (sym e) g.one_holder;
  distinct = subst (All (λ (n : Node). IsDistinct n.gpus)) (sym f) g.distinct;
}

mark_blocked-IsGood :
    (task : Task) (message : Text) (db : Db) → IsGood db → IsGood (mark_blocked task message db)
unfolding mark_blocked add_task_event set_task
mark_blocked-IsGood task message db g =
    if_ind IsGood (text_eq task.last_block_reason message) (λ _. g) (λ _. keep db _ refl refl g)

module _ (p : TaskAllocation → Bool) (time : ℕ) where
  abbrev released : TaskAllocation → TaskAllocation
  released a = record a { released_at = some time }

  holders-release :
      (gpu : ℕ) (xs : List TaskAllocation)
      → holders gpu (update_where p released xs) ≤ holders gpu xs
  unfolding holders update_where
  holders-release gpu [] = omega arith
  holders-release gpu (x ∷ xs) = elim (Bool-cases (p x)) [
    | inl t ↦ rw (t, holders) (ground (arith, holders-release gpu xs))
    | inr f ↦ rw (f, holders) (ground (arith, holders-release gpu xs))
  ]

  held-release :
      (gpu : ℕ) (xs : List TaskAllocation)
      → held_exclusively gpu (update_where p released xs) ≡ true
      → held_exclusively gpu xs ≡ true
  unfolding held_exclusively update_where
  held-release gpu [] h = h
  held-release gpu (x ∷ xs) h = ground (arith, held-release gpu xs)

  pub release-IsExclusive :
      (xs : List TaskAllocation) → IsExclusive xs → IsExclusive (update_where p released xs)
  release-IsExclusive xs inv gpu held = omega (
    arith,
    inv gpu (held-release gpu xs held),
    holders-release gpu xs,
    holders_of_held gpu (update_where p released xs) held,
  )

-- Releasing the allocations of ended tasks keeps the invariant.
pub release_terminal_allocations-IsGood :
    (db : Db) → IsGood db → IsGood (release_terminal_allocations db).1
unfolding release_terminal_allocations
release_terminal_allocations-IsGood db g = record {
  one_holder = release-IsExclusive (is_releasable db) db.now db.task_allocations g.one_holder;
  distinct = g.distinct;
}

reset_guard-IsGood :
    (pk node_id : ℕ) (gpus : List Gpu) (db : Db)
    → IsGood db
    → IsGood (reset_guard pk node_id gpus db)
unfolding reset_guard set_guard
reset_guard-IsGood pk node_id gpus db g = elim (Option-cases (find_guard pk db)) [
  | inl e ↦ rw (e, reset_guard) (keep db _ refl refl g)
  | inr (_, e) ↦ rw (e, reset_guard) (keep db _ refl refl g)
]

-- A selection that fits the holders may be allocated.
pub allocate_task-IsGood :
    (pk node_id : ℕ) (gpus : List Gpu) (mode : AllocationMode) (db : Db)
    → IsGood db
    → All (MayJoin db.task_allocations mode) gpus
    → IsDistinct gpus
    → IsGood (allocate_task pk node_id gpus mode db).1
unfolding allocate_task claim_for_dispatch add_allocation add_task_event bulk_set_task
allocate_task-IsGood pk node_id gpus mode db g join d =
    if_ind (λ (r : Bool × Db). IsGood r.1) (not (node_accepts (get_node node_id db))) (λ _. g)
      (λ _.
        if_ind (λ (r : Bool × Db). IsGood r.1) (not (is_claimable (get_task pk db))) (λ _. g)
          (λ _.
            let added : IsGood (add_allocation pk node_id gpus mode (claim_for_dispatch pk db)) =
              record {
                one_holder =
                    add-IsExclusive db.next_id pk node_id gpus mode db.task_allocations g.one_holder
                      join d;
                distinct = g.distinct;
              } in
            keep
              (reset_guard pk node_id gpus
                (add_allocation pk node_id gpus mode (claim_for_dispatch pk db)))
              _ refl refl
              (reset_guard-IsGood pk node_id gpus
                (add_allocation pk node_id gpus mode (claim_for_dispatch pk db)) added)))

visible_schedulable_nodes-IsDistinct :
    (db : Db) (user : User) (requested : Option ℕ)
    → IsGood db
    → All (λ (n : Node). IsDistinct n.gpus) (visible_schedulable_nodes db user requested)
unfolding visible_schedulable_nodes
visible_schedulable_nodes-IsDistinct db user requested g =
    All-sort_by (λ (n : Node). IsDistinct n.gpus) (by_priority db user)
      (select (is_candidate db user requested) (sort_by by_id db.nodes))
      (All-select (λ (n : Node). IsDistinct n.gpus) (is_candidate db user requested)
        (sort_by by_id db.nodes)
        (All-sort_by (λ (n : Node). IsDistinct n.gpus) by_id db.nodes g.distinct))

selected-IsGood :
    (metrics : Metrics) (task : Task) (requirement : TaskRequirement) (nodes : List Node) (db : Db)
    → IsGood db
    → All (λ (n : Node). IsDistinct n.gpus) nodes
    → (s : Selection) → select_gpu_allocation db nodes task requirement metrics ≡ some s
    → IsGood (allocate_task task.id s.node.id s.gpus s.mode db).1
unfolding select_gpu_allocation
selected-IsGood metrics task requirement nodes db g d s e =
    let sound = select_node-IsSound db requirement (env_of task requirement db) metrics nodes d e in
    allocate_task-IsGood task.id s.node.id s.gpus s.mode db g sound.join sound.distinct

schedule_on-IsGood :
    (metrics : Metrics) (requirement : TaskRequirement) (task : Task) (nodes : List Node) (db : Db)
    → IsGood db
    → All (λ (n : Node). IsDistinct n.gpus) nodes
    → IsGood (schedule_on metrics requirement task nodes db).1
unfolding schedule_on allocate_selected
schedule_on-IsGood metrics requirement task [] db g d = mark_blocked-IsGood task _ db g
schedule_on-IsGood metrics requirement task (node ∷ nodes) db g d =
    if_ind (λ (r : Bool × Db). IsGood r.1) (requirement.need_gpus == 0)
      (λ _. allocate_task-IsGood task.id node.id [] cpu db g tt (λ k. omega arith))
      (λ _.
        go (select_gpu_allocation db (node ∷ nodes) task requirement metrics)
          (selected-IsGood metrics task requirement (node ∷ nodes) db g d))
  where
    go :
        (s : Option Selection)
        → ((x : Selection)
            → s ≡ some x
            → IsGood (allocate_task task.id x.node.id x.gpus x.mode db).1)
        → IsGood (allocate_selected task s db).1
    go none h = mark_blocked-IsGood task _ db g
    go (some x) h = h x refl

schedule_ready-IsGood :
    (metrics : Metrics) (owner : User) (task : Task) (db : Db)
    → IsGood db
    → IsGood (schedule_ready metrics owner task db).1
unfolding schedule_ready schedule_required schedule_resources
schedule_ready-IsGood metrics owner task db g = go task.requirement
  where
    go : (r : Option TaskRequirement) → IsGood (schedule_required metrics owner task r db).1
    go none = mark_blocked-IsGood task _ db g
    go (some requirement) =
        schedule_on-IsGood metrics requirement task
          (visible_schedulable_nodes db owner requirement.node_id) db g
          (visible_schedulable_nodes-IsDistinct db owner requirement.node_id g)

check_predecessor-IsGood :
    (task : Task) (predecessor : Option Task) (db : Db)
    → IsGood db
    → IsGood (check_predecessor task predecessor db).1
unfolding check_predecessor add_task_event set_task
check_predecessor-IsGood task none db g = mark_blocked-IsGood task _ db g
check_predecessor-IsGood task (some p) db g =
    if_ind (λ (r : Bool × Db). IsGood r.1) (is_succeeded p.state) (λ _. g)
      (λ _.
        if_ind (λ (r : Bool × Db). IsGood r.1) (is_terminal p.state) (λ _. keep db _ refl refl g)
          (λ _. mark_blocked-IsGood task _ db g))

dependency_satisfied-IsGood :
    (task : Task) (db : Db) → IsGood db → IsGood (dependency_satisfied task db).1
unfolding dependency_satisfied check_dependency
dependency_satisfied-IsGood task db g = go (find_dependency task.id db)
  where
    go : (d : Option TaskDependency) → IsGood (check_dependency task d db).1
    go none = g
    go (some d) = check_predecessor-IsGood task (get_task d.prev_task_id db) db g

schedule_for_owner-IsGood :
    (metrics : Metrics) (owner : User) (task : Task) (db : Db)
    → IsGood db
    → IsGood (schedule_for_owner metrics owner task db).1
unfolding schedule_for_owner
schedule_for_owner-IsGood metrics owner task db g =
    if_ind (λ (r : Bool × Db). IsGood r.1) (dependency_satisfied task db).0
      (λ _.
        schedule_ready-IsGood metrics owner task (dependency_satisfied task db).1
          (dependency_satisfied-IsGood task db g))
      (λ _. dependency_satisfied-IsGood task db g)

try_schedule_task-IsGood :
    (metrics : Metrics) (task : Task) (db : Db)
    → IsGood db
    → IsGood (try_schedule_task metrics task db).1
unfolding try_schedule_task schedule_owned
try_schedule_task-IsGood metrics task db g =
    if_ind (λ (r : Bool × Db). IsGood r.1) (any (is_open_for task.id) db.task_allocations)
      (λ _. mark_blocked-IsGood task _ db g) (λ _. owned (get_user task.user_id db))
  where
    owned : (user : Option User) → IsGood (schedule_owned metrics task user db).1
    owned none = mark_blocked-IsGood task _ db g
    owned (some owner) =
        if_ind (λ (r : Bool × Db). IsGood r.1) (is_enabled owner.state)
          (λ _. schedule_for_owner-IsGood metrics owner task db g)
          (λ _. mark_blocked-IsGood task _ db g)

schedule_first-IsGood :
    (metrics : Metrics) (tasks : List Task) (db : Db)
    → IsGood db
    → IsGood (schedule_first metrics tasks db).1
unfolding schedule_first
schedule_first-IsGood metrics [] db g = g
schedule_first-IsGood metrics (task ∷ tasks) db g =
    let tried = try_schedule_task-IsGood metrics task db g in
    if_ind (λ (r : ℕ × Db). IsGood r.1) (try_schedule_task metrics task db).0 (λ _. tried)
      (λ _. schedule_first-IsGood metrics tasks (try_schedule_task metrics task db).1 tried)

-- A tick of the scheduler keeps the invariant, whatever the metrics and whether or not it gets its
-- lock: if before the tick each GPU that an open exclusive allocation names is named once in all
-- open allocations, and the GPUs of each node are different rows, then so it is after the tick.
pub scheduler_tick-IsGood :
    (locked : Bool) (metrics : Metrics) (db : Db)
    → IsGood db
    → IsGood (scheduler_tick locked metrics db).1
unfolding scheduler_tick
scheduler_tick-IsGood locked metrics db g =
    if_ind (λ (r : ℕ × Db). IsGood r.1) (not (scheduler_enabled db)) (λ _. g)
      (λ _.
        if_ind (λ (r : ℕ × Db). IsGood r.1) (not locked) (λ _. g)
          (λ _.
            schedule_first-IsGood metrics (waiting_tasks (release_terminal_allocations db).1)
              (release_terminal_allocations db).1 (release_terminal_allocations-IsGood db g)))
