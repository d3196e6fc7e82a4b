-- ===== src/Scheduler/Allocate.antt =====
-- The write of an allocation, the release of the allocations of ended tasks, and the block reason
-- (backend/app/workers/scheduler.py).
use nebula_grid.Base.{
  ℕ, ◌+◌, Bool, true, false, ◌&&◌, not, Option, none, some, List, [], ◌∷◌, map, if◌then◌else◌,
}
use nebula_grid.Base.Text.{Text, text_eq}
use nebula_grid.Model.{
  dispatching, is_wait, is_terminal, is_legacy_terminal, allocated, Node, Gpu, Task, AllocationMode,
  cpu, TaskAllocation, blocked, allocated_event, Db, get_task, get_node, set_task, bulk_set_task,
  find_guard, set_guard, add_task_event, is_open,
}
use nebula_grid.Base.Table.{update_where, select}
use nebula_grid.Base.{length}
use nebula_grid.Scheduler.Select.{is_online}

abbrev pub gpu_ids_of : List Gpu → List ℕ
gpu_ids_of gpus = map (λ g. g.id) gpus

abbrev pub is_cpu : AllocationMode → Bool
is_cpu cpu = true
is_cpu _ = false

-- `locked_node` may take an allocation.
abbrev pub node_accepts : Option Node → Bool
node_accepts none = false
node_accepts (some node) = is_online node.state && node.scheduling_enabled

-- The row that the conditional update claims.
abbrev pub is_claimable : Option Task → Bool
is_claimable none = false
is_claimable (some task) = is_wait task.state

abbrev pub new_allocation : ℕ → ℕ → ℕ → List Gpu → AllocationMode → TaskAllocation
new_allocation id pk node_id gpus mode = record {
  id = id;
  task_id = pk;
  node_id = node_id;
  gpu_ids = gpu_ids_of gpus;
  cpu_allocated = if is_cpu mode then 1 else 0;
  allocation_mode = mode;
  released_at = none;
}

-- The guard of the new launch: a new row, or the old one with nothing of its last run.
unfoldable pub reset_guard : ℕ → ℕ → List Gpu → Db → Db
reset_guard pk node_id gpus db = elim (find_guard pk db) [
  | none ↦ record db {
    task_runtime_guards =
        record {
          id = db.next_id;
          task_id = pk;
          node_id = node_id;
          root_pid = none;
          process_group_id = none;
          allocated_gpu_ids = gpu_ids_of gpus;
          observed_gpu_uuids = [];
          violation_count = 0;
          state = allocated;
          last_check_at = none;
        }
        ∷ db.task_runtime_guards;
    next_id = db.next_id + 1;
  }
  | some _ ↦
      set_guard pk
        (λ g. record g {
          node_id = node_id;
          allocated_gpu_ids = gpu_ids_of gpus;
          root_pid = none;
          process_group_id = none;
          observed_gpu_uuids = [];
          violation_count = 0;
          last_check_at = none;
          state = allocated;
        })
        db
]

unfoldable pub claim_for_dispatch : ℕ → Db → Db
claim_for_dispatch pk db =
    bulk_set_task pk
      (λ t. record t { state = dispatching; last_block_reason = []; generated_command = [] }) db

unfoldable pub add_allocation : ℕ → ℕ → List Gpu → AllocationMode → Db → Db
add_allocation pk node_id gpus mode db = record db {
  task_allocations = new_allocation db.next_id pk node_id gpus mode ∷ db.task_allocations;
  next_id = db.next_id + 1;
}

unfoldable pub allocate_task : ℕ → ℕ → List Gpu → AllocationMode → Db → Bool × Db
unfolding reset_guard claim_for_dispatch add_allocation
allocate_task pk node_id gpus mode db =
    if not (node_accepts (get_node node_id db))
    then (false, db)
    else if not (is_claimable (get_task pk db))
    then (false, db)
    else (
      true,
      add_task_event pk allocated_event none (
          reset_guard pk node_id gpus
            (add_allocation pk node_id gpus mode (claim_for_dispatch pk db))),
    )

-- Ended, by `TERMINAL_STATES`, and not one of the states that an older version wrote too early.
abbrev pub is_releasable : Db → TaskAllocation → Bool
is_releasable db a = elim (get_task a.task_id db) [
  | none ↦ false
  | some task ↦ is_open a && (is_terminal task.state && not (is_legacy_terminal task.state))
]

unfoldable pub release_terminal_allocations : Db → ℕ × Db
release_terminal_allocations db = (
  length (select (is_releasable db) db.task_allocations),
  record db {
    task_allocations =
        update_where (is_releasable db) (λ a. record a { released_at = some db.now })
          db.task_allocations;
  },
)

unfoldable pub mark_blocked : Task → Text → Db → Db
mark_blocked task message db =
    if text_eq task.last_block_reason message
    then db
    else add_task_event task.id blocked none
        (set_task task.id (λ t. record t { last_block_reason = message }) db)
