-- ===== src/Executor/Finish.antt =====
-- The writes of the executor that end a task, move it to `cancelling` or record that a stop is
-- not confirmed yet (backend/app/workers/task_executor.py). A `task` argument is the row that the
-- session holds; `raise` is a ValueError that leaves the function, and the session is rolled back.
use nebula_grid.Base.{
  ℕ, ◌+◌, Bool, true, false, not, Option, none, some, List, [], ◌∷◌, ◌++◌, ◌==◌, take,
  if◌then◌else◌,
}
use nebula_grid.Base.Int.{ℤ, is_zero}
use nebula_grid.Base.Text.{Text, codes, text_eq}
use nebula_grid.Model.{
  TaskState, starting, cancelling, succeeded, failed, cancelled, alloc_error, offline_error,
  is_cancelling, cancel_failed, as_task, is_cancel_failed, alloc_error_stop_reason_prefix,
  auto_stop_reason_prefix, is_alloc_error_reason, is_auto_stop_reason, Task, TaskAllocation,
  TaskRuntimeGuard, cancel_failed_event, of_state, Db, set_task, find_guard, set_guard,
  set_guard_state, load_open_allocations, release_task_allocations, add_task_event,
}
use nebula_grid.Executor.Payload.{
  Payload, Key, get, Reading, value, missing, raised, strict_positive_int, explicit_return_code,
  control_payload_matches_launch, is_infrastructure_failure, control_payload_confirms_stopped,
}

pub data Outcome {ℓ} (A : Type ℓ) : Type ℓ where
  return : A → Outcome A
  raise : Outcome A

infixl 5 ◌>>=◌
abbrev pub ◌>>=◌ {ℓ κ} : {A : Type ℓ} {B : Type κ} → Outcome A → (A → Outcome B) → Outcome B
return a >>= f = f a
raise >>= f = raise

unfoldable pub finish_task : Task → TaskState → Option ℤ → Db → Db
finish_task task final code db = set_guard_state task.id (as_task final) (
    add_task_event task.id (of_state final) none (
      set_task task.id
        (λ t. record t {
          state = final;
          finished_at = some db.now;
          return_code = code;
          last_block_reason = [];
        })
        db))

-- The state in which a return code archives the task.
unfoldable pub final_state : Task → ℤ → TaskState
final_state task code =
    if is_alloc_error_reason task.last_block_reason
    then alloc_error
    else if is_zero code
    then succeeded
    else failed

unfoldable pub finish_from_explicit_return_code : Task → Payload → Db → Outcome (Bool × Db)
unfolding finish_task final_state
finish_from_explicit_return_code task payload db = elim (explicit_return_code payload) [
  | value code ↦ return (true, finish_task task (final_state task code) (some code) db)
  | missing ↦ return (false, db)
  | raised ↦ raise
]

abbrev pub reading_option : Reading ℤ → Outcome (Option ℤ)
reading_option (value code) = return (some code)
reading_option missing = return none
reading_option raised = raise

unfoldable pub finish_remote_execution_failure : Task → Option ℤ → Db → Db
unfolding finish_task
finish_remote_execution_failure task code db =
    release_task_allocations task.id (finish_task task failed code db)

unfoldable pub finish_from_confirmed_remote_failure :
    Task → TaskAllocation → Payload → Db → Outcome (Bool × Db)
unfolding finish_remote_execution_failure
finish_from_confirmed_remote_failure task allocation payload db =
    if not (is_infrastructure_failure payload)
    then return (false, db)
    else if not (control_payload_confirms_stopped payload allocation.id)
    then return (false, db)
    else do
      code ← reading_option (explicit_return_code payload)
      return (true, finish_remote_execution_failure task code db)

unfoldable pub ensure_guard : Task → TaskAllocation → Db → Db
ensure_guard task allocation db = elim (find_guard task.id db) [
  | some guard ↦ db
  | none ↦ record db {
    task_runtime_guards =
        record {
          id = db.next_id;
          task_id = task.id;
          node_id = allocation.node_id;
          root_pid = none;
          process_group_id = none;
          allocated_gpu_ids = allocation.gpu_ids;
          observed_gpu_uuids = [];
          violation_count = 0;
          state = as_task starting;
          last_check_at = none;
        }
        ∷ db.task_runtime_guards;
    next_id = db.next_id + 1;
  }
]

-- `n or None`
abbrev pub nonzero : ℕ → Option ℕ
nonzero n = if n == 0 then none else some n

abbrev pub or_option : Option ℕ → Option ℕ → Option ℕ
or_option (some a) _ = some a
or_option none b = b

unfoldable pub put_identity : Payload → TaskAllocation → TaskRuntimeGuard → TaskRuntimeGuard
put_identity metadata allocation guard =
    if not (control_payload_matches_launch metadata allocation.id)
    then guard
    else let root = nonzero (strict_positive_int (get Key.pid metadata)) in
      let group = or_option (nonzero (strict_positive_int (get Key.pgid metadata))) root in
      record guard {
        root_pid = or_option root guard.root_pid;
        process_group_id = or_option group guard.process_group_id;
      }

abbrev pub mark_cancelling : TaskRuntimeGuard → TaskRuntimeGuard
mark_cancelling guard =
    if is_cancel_failed guard.state then guard else record guard { state = as_task cancelling }

unfoldable pub update_guard_from_metadata : Task → TaskAllocation → Payload → Db → Db
unfolding ensure_guard put_identity
update_guard_from_metadata task allocation metadata db =
    set_guard task.id
      (λ g.
        let g' = put_identity metadata allocation g in
        if is_cancelling task.state then mark_cancelling g' else g')
      (ensure_guard task allocation db)

unfoldable pub start_failure_reason : Text → Text
start_failure_reason error =
    take 512 (auto_stop_reason_prefix ++ (codes "：" ++ (take 320 error ++ codes "；正在确认远端进程退出")))

unfoldable pub begin_start_failure_cleanup : Task → TaskAllocation → Text → Db → Db
unfolding ensure_guard start_failure_reason
begin_start_failure_cleanup task allocation error db =
    add_task_event task.id (of_state cancelling) none (
      set_guard_state task.id (as_task cancelling) (
        ensure_guard task allocation (
          set_task task.id
            (λ t. record t {
              state = cancelling;
              finished_at = none;
              return_code = none;
              last_block_reason = start_failure_reason error;
            })
            db)))

-- `guard.state != "cancel_failed"` of the guard that is there.
unfoldable pub guard_not_failed : Task → Db → Bool
guard_not_failed task db = elim (find_guard task.id db) [
  | some guard ↦ not (is_cancel_failed guard.state)
  | none ↦ false
]

unfoldable pub mark_stop_retry : Task → TaskAllocation → Db → Db
unfolding ensure_guard guard_not_failed
mark_stop_retry task allocation db =
    let db1 = ensure_guard task allocation db in
    let db2 =
      set_task task.id (λ t. record t { state = cancelling; finished_at = none })
        (set_guard_state task.id cancel_failed db1) in
    if guard_not_failed task db1 then add_task_event task.id cancel_failed_event none db2 else db2

unfoldable pub stop_retry_reason : Text → Text → Text
stop_retry_reason old error =
    if is_alloc_error_reason old
    then alloc_error_stop_reason_prefix ++ (codes "；停止尚未确认：" ++ error)
    else if is_auto_stop_reason old
    then auto_stop_reason_prefix ++ (codes "；停止尚未确认：" ++ error)
    else codes "停止尚未确认：" ++ error

unfoldable pub mark_untracked_stop_retry : Task → Text → Db → Db
unfolding stop_retry_reason
mark_untracked_stop_retry task error db =
    let reason = stop_retry_reason task.last_block_reason error in
    let db1 = set_guard_state task.id cancel_failed (
      set_task task.id
        (λ t. record t { state = cancelling; finished_at = none; last_block_reason = reason })
        db) in
    if text_eq task.last_block_reason reason
    then db1
    else add_task_event task.id cancel_failed_event none db1

-- `[item.id for item in open_allocations] == expected_ids`
unfoldable pub same_allocations : List TaskAllocation → Option TaskAllocation → Bool
same_allocations [] none = true
same_allocations (a ∷ []) (some b) = a.id == b.id
same_allocations _ _ = false

-- The terminal state and the block reason of a confirmed stop, by the reason for the stop.
unfoldable pub stop_state : Text → TaskState
stop_state reason =
    if is_alloc_error_reason reason
    then alloc_error
    else if is_auto_stop_reason reason
    then offline_error
    else cancelled

unfoldable pub stop_reason : Text → Text
stop_reason reason =
    if is_alloc_error_reason reason
    then alloc_error_stop_reason_prefix ++ codes "，已确认远端进程停止"
    else if is_auto_stop_reason reason
    then auto_stop_reason_prefix ++ codes "，已确认远端进程停止"
    else []

unfoldable pub finalize_stopping_task : Task → Option TaskAllocation → Db → Db
unfolding mark_untracked_stop_retry same_allocations stop_state stop_reason
finalize_stopping_task task allocation db =
    let final = stop_state task.last_block_reason in
    if same_allocations (load_open_allocations task.id db) allocation
    then add_task_event task.id (of_state final) none (
        release_task_allocations task.id (
          set_guard_state task.id (as_task final) (
            set_task task.id
              (λ t. record t {
                state = final;
                finished_at = some db.now;
                return_code = none;
                last_block_reason = stop_reason task.last_block_reason;
              })
              db)))
    else mark_untracked_stop_retry task (codes "allocation 集合在停止确认期间发生变化，拒绝归档") db
