-- ===== src/RuntimeGuard.antt =====
-- The runtime guard (backend/app/workers/runtime_guard.py): one inspection of one guard. The runtime
-- file before and after the sampling, and the sample itself, are arguments; `during` is what other
-- sessions do to the database while the guard samples the node.
pub mod Safety
pub mod Processes
use nebula_grid.Base.{
  ℕ, ◌+◌, Bool, true, false, ◌&&◌, ◌||◌, not, Option, none, some, List, [], ◌∷◌, ◌++◌, map, ◌==◌,
  ltb, any, is_empty, or_else, member, if◌then◌else◌,
}
use nebula_grid.Base.Text.{Text, codes, strip, text_eq}
use nebula_grid.Base.Table.{select, first, update_where, sort_by}
use nebula_grid.Model.{
  TaskState, running, cancelling, is_launched, GuardState, violation_pending, check_failed,
  uuid_pending, as_task, Task, TaskAllocation, TaskRuntimeGuard, Gpu, Node, guard_warning,
  alloc_error_cancelling, alloc_error_stop_reason_prefix, Db, get_task, get_node, set_task,
  load_open_allocations, add_task_event,
}
use nebula_grid.Executor.Payload.{
  Payload, Json, str, Key, get, strict_positive_int, error_text, is_visible_text,
}

-- What a check gives: a value, or a RuntimeError.
abbrev pub Checked : Type 0 → Type 0
Checked A = Option A

unfoldable pub load_single_open_allocation : ℕ → Db → Checked TaskAllocation
load_single_open_allocation pk db = elim (load_open_allocations pk db) [
  | [] ↦ none
  | a ∷ rest ↦ if is_empty rest then some a else none
]

pub record Identity : Type 0 where
  pub root_pid : ℕ
  pub process_group_id : ℕ
  pub process_start_time : ℕ
  pub boot_id : Text

abbrev pub text_of : Option Json → Text
text_of (some (str s)) = s
text_of _ = []

abbrev pub identity_of : Payload → Identity
identity_of payload = record {
  root_pid = strict_positive_int (get Key.pid payload);
  process_group_id = strict_positive_int (get Key.pgid payload);
  process_start_time = strict_positive_int (get Key.process_start_time payload);
  boot_id = strip (text_of (get Key.boot_id payload));
}

-- The runtime file is `none` where it cannot be read or holds no JSON object.
unfoldable pub load_runtime_identity :
    Task → TaskAllocation → TaskRuntimeGuard → Option Payload → Checked Identity
load_runtime_identity task allocation guard none = none
load_runtime_identity task allocation guard (some payload) =
    let found = identity_of payload in
    if not (text_eq (error_text (get Key.task_id payload) []) task.task_id)
      || not (strict_positive_int (get Key.launch_id payload) == allocation.id)
    then none
    else if not (ltb 0 found.root_pid)
        || not (ltb 0 found.process_group_id)
        || not (ltb 0 found.process_start_time)
        || not (is_visible_text (get Key.boot_id payload))
    then none
    else if not (found.root_pid == or_else guard.root_pid 0)
        || not (found.process_group_id == or_else guard.process_group_id 0)
    then none
    else some found

unfoldable pub get_guard : ℕ → Db → Option TaskRuntimeGuard
get_guard pk db = first (λ g. g.id == pk) db.task_runtime_guards

unfoldable pub put_guard : ℕ → (TaskRuntimeGuard → TaskRuntimeGuard) → Db → Db
put_guard pk f db = record db {
  task_runtime_guards = update_where (λ g. g.id == pk) f db.task_runtime_guards;
}

unfoldable pub fail_check : ℕ → Db → Db
unfolding put_guard
fail_check guard_pk db =
    put_guard guard_pk (λ g. record g { last_check_at = some db.now; state = check_failed }) db

-- A task that has been stopped keeps the guard state of its stop.
unfoldable pub mark_guard_check_failed : ℕ → ℕ → Db → Db
unfolding fail_check
mark_guard_check_failed task_pk guard_pk db = elim (get_task task_pk db) [
  | none ↦ db
  | some task ↦ if is_launched task.state then fail_check guard_pk db else db
]

abbrev gpus_of : List Node → List Gpu
gpus_of [] = []
gpus_of (node ∷ nodes) = node.gpus ++ gpus_of nodes

unfoldable pub load_allowed_gpu_uuids : TaskRuntimeGuard → Db → List Text
load_allowed_gpu_uuids guard db =
    select (λ uuid. not (is_empty uuid))
      (map (λ g. g.gpu_uuid) (select (λ g. member g.id guard.allocated_gpu_ids) (gpus_of db.nodes)))

unfoldable pub text_before : Text → Text → Bool
text_before [] [] = false
text_before [] (b ∷ t) = true
text_before (a ∷ s) [] = false
text_before (a ∷ s) (b ∷ t) = ltb a b || (a == b && text_before s t)

unfoldable pub begin_alloc_error_cleanup : Task → TaskRuntimeGuard → Db → Db
unfolding put_guard
begin_alloc_error_cleanup task guard db = add_task_event task.id alloc_error_cancelling none (
    set_task task.id
      (λ t. record t {
        state = cancelling;
        finished_at = none;
        return_code = none;
        last_block_reason = alloc_error_stop_reason_prefix ++ codes "；正在确认远端进程退出";
      })
      (put_guard guard.id (λ g. record g { state = as_task cancelling }) db))

unfoldable pub unexpected_uuids : List Text → List Text → List Text
unexpected_uuids allowed observed = select (λ uuid. not (any (text_eq uuid) allowed)) observed

-- The verdict on a sample, once the launch and the process are known to be the sampled ones.
unfoldable pub judge_sample : Task → TaskRuntimeGuard → List Text → List Text → Db → Db
unfolding text_before begin_alloc_error_cleanup unexpected_uuids put_guard
judge_sample task guard allowed observed db =
    let settle = λ (s : GuardState) (violations : ℕ).
      put_guard guard.id
        (λ g. record g {
          observed_gpu_uuids = sort_by text_before observed;
          last_check_at = some db.now;
          violation_count = violations;
          state = s;
        })
        db in
    if is_empty observed
    then settle (as_task running) 0
    else if is_empty allowed && any (ltb 0) guard.allocated_gpu_ids
    then settle uuid_pending 0
    else if is_empty (unexpected_uuids allowed observed)
    then settle (as_task running) 0
    else if ltb (guard.violation_count + 1) 2
    then add_task_event task.id guard_warning none
        (settle violation_pending (guard.violation_count + 1))
    else begin_alloc_error_cleanup task guard (settle guard.state (guard.violation_count + 1))

abbrev pub same_identity : Identity → Identity → Bool
same_identity a b =
    (a.root_pid == b.root_pid)
    && (a.process_group_id == b.process_group_id)
    && (a.process_start_time == b.process_start_time)
    && text_eq a.boot_id b.boot_id

-- The guard still names the sampled process.
abbrev pub same_process : TaskRuntimeGuard → Identity → Bool
same_process guard sampled =
    (or_else guard.root_pid 0 == sampled.root_pid)
    && (or_else guard.process_group_id 0 == sampled.process_group_id)

unfoldable pub check_identity :
    Task → TaskRuntimeGuard → Identity → Checked Identity → List Text → List Text → Db → ℕ × Db
unfolding fail_check judge_sample
check_identity task guard sampled none allowed observed db = (0, fail_check guard.id db)
check_identity task guard sampled (some found) allowed observed db =
    if same_identity found sampled
    then (1, judge_sample task guard allowed observed db)
    else (0, fail_check guard.id db)

-- With the rows as they are now: the guard, and the one open allocation.
unfoldable pub recheck_launch :
    Task
    → ℕ
    → TaskAllocation
    → Identity
    → Option Payload
    → List Text
    → List Text
    → Option TaskRuntimeGuard
    → Checked TaskAllocation
    → Db
    → ℕ × Db
unfolding check_identity load_runtime_identity
recheck_launch task guard_pk allocation sampled file allowed observed guard none db =
    (0, fail_check guard_pk db)
recheck_launch task guard_pk allocation sampled file allowed observed none (some current) db =
    (0, db)
recheck_launch task guard_pk allocation sampled file allowed observed (some guard) (some current)
      db =
    if not (current.id == allocation.id) || not (same_process guard sampled)
    then (0, db)
    else check_identity task guard sampled (load_runtime_identity task current guard file) allowed
        observed db

unfoldable pub recheck_task :
    Option Task
    → ℕ
    → TaskAllocation
    → Identity
    → Option Payload
    → List Text
    → List Text
    → Db
    → ℕ × Db
unfolding recheck_launch get_guard load_single_open_allocation
recheck_task none guard_pk allocation sampled file allowed observed db = (0, db)
recheck_task (some task) guard_pk allocation sampled file allowed observed db =
    if not (is_launched task.state)
    then (0, db)
    else recheck_launch task guard_pk allocation sampled file allowed observed
        (get_guard guard_pk db) (load_single_open_allocation task.id db) db

-- The sample is `none` where SSH or the sampling script fails.
unfoldable pub use_sample :
    Task
    → TaskRuntimeGuard
    → TaskAllocation
    → Identity
    → Option Payload
    → List Text
    → Option (List Text)
    → Db
    → ℕ × Db
unfolding recheck_task mark_guard_check_failed
use_sample task guard allocation sampled file allowed none db =
    (0, mark_guard_check_failed task.id guard.id db)
use_sample task guard allocation sampled file allowed (some observed) db =
    recheck_task (get_task task.id db) guard.id allocation sampled file allowed observed db

-- The launch that the first part of the inspection binds the sample to.
abbrev pub sampled_launch :
    Task → TaskRuntimeGuard → Option Payload → Db → Checked (TaskAllocation × Identity)
sampled_launch task guard file db = elim (load_single_open_allocation task.id db) [
  | none ↦ none
  | some allocation ↦ elim (load_runtime_identity task allocation guard file) [
    | none ↦ none
    | some found ↦ some (allocation, found)
  ]
]

-- What the node and the control file show before and after the sampling.
pub record Sampling : Type 0 where
  pub file_before : Option Payload
  pub sample : Option (List Text)
  pub file_after : Option Payload

unfoldable pub inspect_launch :
    (Db → Db)
    → Sampling
    → Task
    → TaskRuntimeGuard
    → Checked (TaskAllocation × Identity)
    → Db
    → ℕ × Db
unfolding use_sample load_allowed_gpu_uuids
inspect_launch during s task guard none db = (0, mark_guard_check_failed task.id guard.id db)
inspect_launch during s task guard (some (allocation, found)) db =
    use_sample task guard allocation found s.file_after (load_allowed_gpu_uuids guard db) s.sample
      (during db)

unfoldable pub inspect_rows :
    (Db → Db) → Sampling → TaskRuntimeGuard → Option Task → Option Node → Db → ℕ × Db
unfolding inspect_launch
inspect_rows during s guard (some task) (some node) db =
    if not (is_launched task.state)
    then (0, db)
    else inspect_launch during s task guard (sampled_launch task guard s.file_before db) db
inspect_rows during s guard _ _ db = (0, db)

unfoldable pub inspect_guard : (Db → Db) → Sampling → TaskRuntimeGuard → Db → ℕ × Db
unfolding inspect_rows
inspect_guard during s guard db =
    inspect_rows during s guard (get_task guard.task_id db) (get_node guard.node_id db) db
