-- ===== src/Scheduler/Select.antt =====
-- The choice of a node and of its GPUs (backend/app/workers/scheduler.py). A ratio of integers is
-- compared with 0.40 or 0.20 by cross multiplication.
use nebula_grid.Base.{
  ℕ, ◌*◌, Bool, true, false, ◌&&◌, ◌||◌, not, Option, none, some, List, [], ◌∷◌, ◌==◌, ltb, leb,
  length, take, any, is_empty, member, max, map, if◌then◌else◌,
}
use nebula_grid.Base.Text.{Text, lower, text_eq, is_space}
use nebula_grid.Base.Table.{select, sort_by}
use nebula_grid.Model.{
  User, Node, NodeState, online, Gpu, Env, Task, TaskRequirement, AllocationMode, reuse, exclusive,
  private_access, public_sharing, group_sharing, SharingScope, AccessScope, Db, get_env,
}
use nebula_grid.Access.{
  is_admin, is_control_plane_node, normalize_owner_ids, sharing_scope_of, access_scope_of,
  load_group_shared_user_ids, can_user_access_node,
}
use nebula_grid.GpuCompatibility.{pytorch_gpu_compatibility, is_unsupported}
use nebula_grid.Scheduler.Occupancy.{OccupancyMap, load_gpu_occupancy, occupancy_of}

-- The free video memory of each GPU that the monitor measured: `none`, if it gave no value.
abbrev pub Metrics : Type 0
Metrics = List (ℕ × Option ℕ)

unfoldable pub metric_of : ℕ → Metrics → Option (Option ℕ)
metric_of gpu [] = none
metric_of gpu ((g, m) ∷ rest) = let later = metric_of gpu rest in if g == gpu then some m else later

-- `"".join(value.lower().split())`
unfoldable pub normalize_gpu_model : Text → Text
normalize_gpu_model value = select (λ c. not (is_space c)) (lower value)

-- With `total > 0`: `free / total >= 0.40`, and `1 - free / total <= 0.20`.
abbrev pub enough_free : Option ℕ → ℕ → Bool
enough_free none total = false
enough_free (some free) total = leb (2 * total) (5 * free)

abbrev pub little_used : Option ℕ → ℕ → Bool
little_used none total = true
little_used (some free) total = leb (4 * total) (5 * free)

-- The metric of a GPU, where the code looks at it.
abbrev pub measured : Option (Option ℕ) → ℕ → (Option ℕ → ℕ → Bool) → Bool
measured none total test = true
measured (some free) total test = if ltb 0 total then test free total else true

unfoldable pub gpu_is_available : Gpu → TaskRequirement → OccupancyMap → Metrics → Bool
gpu_is_available gpu requirement occupancy metrics =
    let item = occupancy_of gpu.id occupancy in
    let metric = metric_of gpu.id metrics in
    if requirement.allow_gpu_reuse
    then if item.exclusive || leb requirement.max_reuse_count item.count
      then false
      else measured metric gpu.total_vram_mb enough_free
    else if ltb 0 item.count || item.exclusive
    then false
    else measured metric gpu.total_vram_mb little_used

-- The tests of the inner loop on one GPU of a node.
unfoldable pub is_usable : TaskRequirement → Option Env → OccupancyMap → Metrics → Node → Gpu → Bool
unfolding gpu_is_available normalize_gpu_model
is_usable requirement env occupancy metrics node gpu =
    let allowed = map normalize_gpu_model requirement.gpu_types in
    if not gpu.schedulable
    then false
    else if not (is_empty allowed) && not (any (text_eq (normalize_gpu_model gpu.model)) allowed)
    then false
    else if not (gpu_is_available gpu requirement occupancy metrics)
    then false
    else not (is_empty allowed && is_unsupported (pytorch_gpu_compatibility env node gpu))

abbrev pub by_index : Gpu → Gpu → Bool
by_index a b = ltb a.gpu_index b.gpu_index

abbrev pub reuse_mode : Bool → AllocationMode
reuse_mode true = reuse
reuse_mode false = exclusive

pub record Selection : Type 0 where
  pub node : Node
  pub gpus : List Gpu
  pub mode : AllocationMode

-- The outer loop: the first node with enough usable GPUs.
unfoldable pub select_node :
    TaskRequirement → Option Env → OccupancyMap → Metrics → List Node → Option Selection
unfolding is_usable
select_node requirement env occupancy metrics [] = none
select_node requirement env occupancy metrics (node ∷ nodes) =
    let later = select_node requirement env occupancy metrics nodes in
    let required = max 1 requirement.need_gpus in
    let usable =
      select (is_usable requirement env occupancy metrics node) (sort_by by_index node.gpus) in
    if ltb (length usable) required
    then later
    else some (record {
      node = node;
      gpus = take required usable;
      mode = reuse_mode requirement.allow_gpu_reuse;
    })

-- The environment is looked at only without explicit models.
abbrev pub env_of : Task → TaskRequirement → Db → Option Env
env_of task requirement db =
    if is_empty requirement.gpu_types
    then elim task.env_id [ none ↦ none | some env_id ↦ get_env env_id db ]
    else none

unfoldable pub select_gpu_allocation :
    Db → List Node → Task → TaskRequirement → Metrics → Option Selection
unfolding select_node
select_gpu_allocation db nodes task requirement metrics =
    select_node requirement (env_of task requirement db) (load_gpu_occupancy db) metrics nodes

abbrev pub is_online : NodeState → Bool
is_online online = true
is_online _ = false

abbrev pub matches_node : Option ℕ → ℕ → Bool
matches_node none node_id = true
matches_node (some requested) node_id = node_id == requested

unfoldable pub is_candidate : Db → User → Option ℕ → Node → Bool
is_candidate db user requested node =
    if is_control_plane_node node
    then false
    else if not (matches_node requested node.id)
    then false
    else if not (is_online node.state) || not node.scheduling_enabled
    then false
    else is_admin user.role || can_user_access_node user node db

abbrev is_group : SharingScope → Bool
is_group group_sharing = true
is_group _ = false

abbrev is_public_sharing : SharingScope → Bool
is_public_sharing public_sharing = true
is_public_sharing _ = false

abbrev is_private : AccessScope → Bool
is_private private_access = true
is_private _ = false

unfoldable pub node_schedule_priority : Db → User → Node → ℕ
node_schedule_priority db user node =
    let owner_ids = normalize_owner_ids node in
    let group_visible =
      not (is_empty owner_ids) && member user.id (load_group_shared_user_ids owner_ids db) in
    if member user.id owner_ids
    then 0
    else if is_group (sharing_scope_of node) && group_visible
    then 1
    else if is_private (access_scope_of node)
        && is_public_sharing (sharing_scope_of node)
        && group_visible
    then 2
    else 3

abbrev pub by_id : Node → Node → Bool
by_id a b = ltb a.id b.id

abbrev pub by_priority : Db → User → Node → Node → Bool
by_priority db user a b =
    let p = node_schedule_priority db user a in
    let q = node_schedule_priority db user b in ltb p q || (p == q && by_id a b)

unfoldable pub visible_schedulable_nodes : Db → User → Option ℕ → List Node
unfolding is_candidate node_schedule_priority
visible_schedulable_nodes db user requested =
    sort_by (by_priority db user) (select (is_candidate db user requested) (sort_by by_id db.nodes))
