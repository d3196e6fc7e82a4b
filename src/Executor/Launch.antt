-- ===== src/Executor/Launch.antt =====
-- The start of a claimed task (`start_remote_task` of backend/app/workers/task_executor.py): what is
-- made of the remote runner's answer. The answer and the local control files are arguments, and so is `during`, what other sessions do to the database
-- between the first read of the task and the lock of its row.
pub mod Receipts
pub mod Safe
use nebula_grid.Base.{
  ℕ, Bool, true, false, ◌&&◌, ◌||◌, not, Option, none, some, List, [], ◌∷◌, ◌++◌, ◌==◌, ltb, member,
  map, is_empty, if◌then◌else◌,
}
use nebula_grid.Base.Int.{ℤ, pos, positive_part}
use nebula_grid.Base.Text.{Text, codes}
use nebula_grid.Base.Table.{select, sort_by}
use nebula_grid.Model.{
  TaskState, wait, on_hold, dispatching, preparing, starting, running, cancelling, succeeded,
  failed, cancelled, alloc_error, offline_error, unknown, offline, node_lost, dependency_failed,
  other, is_terminal, is_starting, is_cancelling, as_task, auto_stop_reason_prefix, Task,
  TaskAllocation, User, Node, Env, Gpu, Db, started, get_task, get_node, get_user, get_env,
  set_task, set_guard_state, load_open_allocations, release_task_allocations, add_task_event,
}
use nebula_grid.Response.{Response, ok, error}
use nebula_grid.Executor.Prepare.{
  Settings, RunnerCall, prepare_call, Answer, printed, failure, check_answer,
}
use nebula_grid.Executor.Payload.{
  Payload, Key, get, error_text, has_state, parse_control_payload, control_payload_matches_launch,
  is_infrastructure_failure, control_payload_confirms_stopped, metadata_has_process_identity,
}
use nebula_grid.Executor.Finish.{
  Outcome, return, ◌>>=◌, finish_task, finish_from_explicit_return_code,
  finish_remote_execution_failure, finish_from_confirmed_remote_failure, update_guard_from_metadata,
  begin_start_failure_cleanup, mark_untracked_stop_retry, finalize_stopping_task,
}
use nebula_grid.Executor.Collect.{finalize_current, collect_wrapper_failure}

-- The surroundings of one start.
pub record Launching : Type 0 where
  pub during : Db → Db
  pub answer : RunnerCall → Answer
  pub status_file : Payload
  pub runtime_file : Payload

-- A payload may show that the launch failed with no process left, or carry a return code; else the
-- rest runs.
unfoldable pub settle_or : Task → TaskAllocation → Payload → (Db → Outcome Db) → Db → Outcome Db
settle_or task allocation payload rest db =
    finish_from_confirmed_remote_failure task allocation payload db >>= λ r.
    if r.0
    then return r.1
    else finish_from_explicit_return_code task payload r.1 >>= λ s.
        if s.0 then return (release_task_allocations task.id s.1) else rest s.1

-- `0 < exc.returncode < 255 and not metadata`
unfoldable pub remote_runner_exited_before_metadata : Option ℤ → Payload → Bool
remote_runner_exited_before_metadata none metadata = false
remote_runner_exited_before_metadata (some code) metadata =
    let n = positive_part code in ltb 0 n && (ltb n 255 && is_empty metadata)

abbrev pub or_payload : Payload → Payload → Payload
or_payload a b = if is_empty a then b else a

-- What remains to do after an exception that no payload explains.
unfoldable pub clean_up_failure :
    Launching → Task → TaskAllocation → Text → Option ℤ → Payload → Db → Db
unfolding remote_runner_exited_before_metadata
clean_up_failure l task allocation message returncode candidate db =
    let db1 =
      if is_cancelling task.state
      then db
      else begin_start_failure_cleanup task allocation message db in
    let metadata = or_payload (parse_control_payload l.runtime_file allocation.id) candidate in
    if remote_runner_exited_before_metadata returncode metadata
    then finish_remote_execution_failure task returncode db1
    else update_guard_from_metadata (record task { state = cancelling }) allocation metadata db1

abbrev pub state_text : TaskState → Text
state_text wait = codes "wait"
state_text on_hold = codes "on_hold"
state_text dispatching = codes "dispatching"
state_text preparing = codes "preparing"
state_text starting = codes "starting"
state_text running = codes "running"
state_text cancelling = codes "cancelling"
state_text succeeded = codes "succeeded"
state_text failed = codes "failed"
state_text cancelled = codes "cancelled"
state_text alloc_error = codes "alloc_error"
state_text offline_error = codes "offline_error"
state_text unknown = codes "unknown"
state_text offline = codes "offline"
state_text node_lost = codes "node_lost"
state_text dependency_failed = codes "dependency_failed"
state_text (other s) = s

-- `begin_start_failure_cleanup` where the task is not being stopped already.
unfoldable pub clean_up_unless_stopping : Task → TaskAllocation → Text → Db → Db
clean_up_unless_stopping task allocation message db =
    if is_cancelling task.state then db else begin_start_failure_cleanup task allocation message db

unfoldable pub note_cancelled : Task → Db → Db
note_cancelled task db = set_guard_state task.id (as_task cancelling) (
    if is_cancelling task.state
    then db
    else set_task task.id
        (λ t. record t {
          state = cancelling;
          finished_at = none;
          last_block_reason = codes "停止标记已由远端 runner 确认，正在完成进程退出核查";
        })
        db)

unfoldable pub note_started : Task → Text → Db → Db
note_started task command db = add_task_event task.id started none (
    set_task task.id
      (λ t. record t {
        generated_command = command;
        state = running;
        started_at = some db.now;
        last_block_reason = [];
      })
      (set_guard_state task.id (as_task running) db))

-- What the metadata of the launch tell, once no return code was found.
unfoldable pub record_launch : Task → TaskAllocation → Text → Payload → Db → Db
unfolding clean_up_unless_stopping note_cancelled note_started
record_launch task allocation command metadata db =
    let db1 = update_guard_from_metadata task allocation metadata db in
    if control_payload_confirms_stopped metadata allocation.id
    then finalize_current task.id allocation
        (clean_up_unless_stopping task allocation (codes "远端 runner 已确认启动阶段未留下进程") db1)
    else if has_state (codes "launch_failed") (get Key.state metadata)
    then clean_up_unless_stopping task allocation
        (error_text (get Key.error metadata) (codes "remote runner launch failed")) db1
    else if is_cancelling task.state || has_state (codes "cancelled") (get Key.state metadata)
    then note_cancelled task db1
    else if not (is_starting task.state)
    then begin_start_failure_cleanup task allocation
        (codes "unexpected task state after launch: " ++ state_text task.state) db1
    else if not (has_state (codes "running") (get Key.state metadata))
    then begin_start_failure_cleanup task allocation
        (codes "unexpected runner state: " ++ error_text (get Key.state metadata) (codes "missing"))
        db1
    else if not (metadata_has_process_identity metadata allocation.id)
    then begin_start_failure_cleanup task allocation
        (codes "remote runner metadata did not contain a safe process identity") db1
    else note_started task command db1

unfoldable pub fail_launch :
    Launching → Task → TaskAllocation → Text → Option ℤ → Payload → Db → Outcome Db
unfolding settle_or clean_up_failure
fail_launch l task allocation message returncode output db =
    let candidate = parse_control_payload output allocation.id in
    settle_or task allocation (parse_control_payload l.status_file allocation.id)
      (settle_or task allocation candidate
        (λ d. return (clean_up_failure l task allocation message returncode candidate d)))
      db

unfoldable pub accept_launch : Launching → Task → TaskAllocation → Text → Payload → Db → Outcome Db
unfolding settle_or record_launch
accept_launch l task allocation command metadata db =
    let status = parse_control_payload l.status_file allocation.id in
    settle_or task allocation status
      (λ d.
        if is_infrastructure_failure status
        then return (collect_wrapper_failure task allocation status d)
        else settle_or task allocation metadata
            (λ c. return (record_launch task allocation command metadata c)) d)
      db

-- With the row that was locked after the call.
unfoldable pub use_answer : Launching → Task → TaskAllocation → Text → Answer → Db → Outcome Db
unfolding fail_launch accept_launch
use_answer l task allocation command (printed metadata) db =
    accept_launch l task allocation command metadata db
use_answer l task allocation command (failure message returncode output) db =
    fail_launch l task allocation message returncode output db

unfoldable pub finish_launch :
    Launching → Option Task → TaskAllocation → Text → Answer → Db → Outcome Db
unfolding use_answer
finish_launch l none allocation command answer db = return db
finish_launch l (some task) allocation command answer db =
    if is_terminal task.state then return db else use_answer l task allocation command answer db

-- The end of a start that never called the runner.
unfoldable pub abandon_launch : Option Task → Option TaskAllocation → TaskState → Db → Db
abandon_launch none allocation final db = db
abandon_launch (some task) allocation final db =
    if is_starting task.state
    then release_task_allocations task.id (finish_task task final none db)
    else if is_cancelling task.state
    then finalize_stopping_task task allocation db
    else db

-- The task lacks an allocation: nothing is released.
unfoldable pub abandon_unallocated : Option Task → Db → Db
abandon_unallocated none db = db
abandon_unallocated (some task) db =
    if is_starting task.state
    then finish_task task failed none db
    else if is_cancelling task.state
    then finalize_stopping_task task none db
    else db

unfoldable pub mark_overlapping_launch : Option Task → Db → Db
mark_overlapping_launch none db = db
mark_overlapping_launch (some task) db =
    if is_terminal task.state
    then db
    else mark_untracked_stop_retry
        (record task {
          last_block_reason =
              if is_cancelling task.state
              then task.last_block_reason
              else auto_stop_reason_prefix ++ codes "：检测到重叠 allocation";
        })
        (codes "检测到 2 条未释放 allocation，无法安全确定需要停止的 launch") db

unfoldable pub call_runner : Launching → ℕ → TaskAllocation → Response RunnerCall → Db → Outcome Db
unfolding finish_launch abandon_launch check_answer
call_runner l pk allocation (error e) db =
    return (abandon_launch (get_task pk db) (some allocation) failed db)
call_runner l pk allocation (ok call) db =
    finish_launch l (get_task pk db) allocation call.command
      (check_answer allocation.id (l.answer call)) db

-- With the node and the owner that were found.
unfoldable pub launch_on :
    Settings → Launching → Task → TaskAllocation → Option Node → Option User → Db → Outcome Db
unfolding call_runner
launch_on settings l task allocation (some node) (some owner) db =
    call_runner l task.id allocation (prepare_call settings task owner allocation db) (l.during db)
launch_on settings l task allocation _ _ db =
    return (
      abandon_launch (get_task task.id (l.during db)) (some allocation) offline_error (l.during db))

unfoldable pub launch_by_allocations :
    Settings → Launching → Task → List TaskAllocation → Db → Outcome Db
unfolding launch_on abandon_unallocated mark_overlapping_launch
launch_by_allocations settings l task [] db =
    return (abandon_unallocated (get_task task.id (l.during db)) (l.during db))
launch_by_allocations settings l task (allocation ∷ []) db =
    launch_on settings l task allocation (get_node allocation.node_id db) (get_user task.user_id db)
      db
launch_by_allocations settings l task (a ∷ b ∷ rest) db =
    return (mark_overlapping_launch (get_task task.id (l.during db)) (l.during db))

unfoldable pub start_remote_task : Settings → Launching → Task → Db → Outcome Db
unfolding launch_by_allocations
start_remote_task settings l task db =
    if not (is_starting task.state)
    then return db
    else launch_by_allocations settings l task (load_open_allocations task.id db) db
