-- ===== src/Executor/Collect.antt =====
-- The collection of remote results and the confirmation of stops
-- (backend/app/workers/task_executor.py). What the node, the shared file system and SSH answer is
-- an `Observation`, an argument of each operation.
use nebula_grid.Base.{
  ℕ, ◌-◌, ◌*◌, Bool, true, false, ◌&&◌, ◌||◌, not, Option, none, some, List, [], ◌∷◌, ◌++◌, ◌==◌,
  leb, is_some, or_else, take, last?, if◌then◌else◌,
}
use nebula_grid.Base.Text.{Text, codes, to_decimal}
use nebula_grid.Base.Table.{select}
use nebula_grid.Model.{
  cancelling, cancelled, unknown, is_terminal, is_cancelling, is_launched, as_task, cancel_failed,
  auto_stop_reason_prefix, Task, TaskAllocation, TaskRuntimeGuard, Node, online, NodeState,
  EventType, of_state, alloc_error_cancelling, stop_confirmed, cancel_failed_event, TaskEvent, Db,
  get_task, get_node, set_task, find_guard, set_guard_state, load_open_allocations,
  release_task_allocations, add_task_event,
}
use nebula_grid.Executor.Payload.{
  Payload, error, get, error_text, control_payload_matches_launch, parse_control_payload,
  is_infrastructure_failure, control_payload_confirms_stopped, metadata_has_process_identity,
}
use nebula_grid.Executor.Finish.{
  Outcome, return, ◌>>=◌, finish_from_explicit_return_code, update_guard_from_metadata,
  begin_start_failure_cleanup, mark_stop_retry, mark_untracked_stop_retry, guard_not_failed,
  finalize_stopping_task,
}

-- What reading a file over SSH gives: an exception with its text, or the JSON object found in the text.
pub data Read : Type 0 where
  unreachable : Text → Read
  contents : Payload → Read

-- `status_file` and `runtime_file` are the local views; `final_status` is the read after a stop,
-- and `stops` tells whether the termination command exits with 0.
pub record Observation : Type 0 where
  pub status_file : Payload
  pub runtime_file : Payload
  pub remote_status : Read
  pub remote_runtime : Read
  pub stops : Bool
  pub final_status : Read

abbrev is_stopping_kind : EventType → Bool
is_stopping_kind (of_state cancelling) = true
is_stopping_kind alloc_error_cancelling = true
is_stopping_kind _ = false

abbrev is_stopping_event : ℕ → TaskEvent → Bool
is_stopping_event pk e = (e.task_id == pk) && is_stopping_kind e.event_type

-- The anchor of the timeout: the oldest stopping event of the task, else its start, else its
-- creation. The table keeps the newest event first.
unfoldable pub stopping_since : Task → Db → ℕ
stopping_since task db = elim (last? (select (is_stopping_event task.id) db.task_events)) [
  | some e ↦ e.created_at
  | none ↦ or_else task.started_at task.created_at
]

-- Microseconds since the anchor; 0 when the anchor lies in the future.
unfoldable pub stopping_timed_out : ℕ → Task → Db → Bool
unfolding stopping_since
stopping_timed_out timeout_seconds task db =
    leb (timeout_seconds * 1000000) (db.now - stopping_since task db)

unfoldable pub unknown_reason : ℕ → Text
unknown_reason timeout_seconds =
    take 512 (
      codes "停止确认超过 "
      ++ (to_decimal timeout_seconds ++ codes " 秒仍未获得远端结果；状态未知，已释放调度资源，请人工核查节点残留进程"))

unfoldable pub archive_unknown : ℕ → Task → Db → Db
unfolding unknown_reason
archive_unknown timeout_seconds task db = add_task_event task.id (of_state unknown) none (
    release_task_allocations task.id (
      set_guard_state task.id (as_task unknown) (
        set_task task.id
          (λ t. record t {
            state = unknown;
            finished_at = some db.now;
            return_code = none;
            last_block_reason = unknown_reason timeout_seconds;
          })
          db)))

unfoldable pub finalize_cancelling_timeout : ℕ → Task → Db → Bool × Db
unfolding archive_unknown stopping_timed_out
finalize_cancelling_timeout timeout_seconds task db =
    if stopping_timed_out timeout_seconds task db
    then (true, archive_unknown timeout_seconds task db)
    else (false, db)

abbrev pub has_target : Option TaskRuntimeGuard → Bool
has_target none = false
has_target (some g) = is_some g.process_group_id || is_some g.root_pid

unfoldable pub stop_remote_process : Observation → Task → TaskAllocation → Payload → Db → Bool × Db
unfolding guard_not_failed
stop_remote_process o task allocation metadata db =
    if not (has_target (find_guard task.id db))
    then (false, db)
    else if not (metadata_has_process_identity metadata allocation.id)
    then (false, mark_stop_retry task allocation db)
    else if o.stops
    then (
      true,
      add_task_event task.id stop_confirmed none (set_guard_state task.id (as_task cancelled) db),
    )
    else (
      false,
      (if guard_not_failed task db
          then add_task_event task.id cancel_failed_event none
              (set_guard_state task.id cancel_failed db)
          else set_guard_state task.id cancel_failed db),
    )

-- The argument is what reading the status file gives after the process group is gone.
unfoldable pub finish_after_confirmed_remote_stop : Read → Task → TaskAllocation → Db → Outcome Db
finish_after_confirmed_remote_stop (unreachable _) task allocation db =
    return (mark_stop_retry task allocation db)
finish_after_confirmed_remote_stop (contents payload) task allocation db = do
  (finished, db1) ←
      finish_from_explicit_return_code task (parse_control_payload payload allocation.id) db
  if finished
      then return (release_task_allocations task.id db1)
      else return (finalize_stopping_task task (some allocation) db1)

-- Stops the process that the metadata identify, and archives the task if that is confirmed.
unfoldable pub stop_and_finish : Observation → Task → TaskAllocation → Payload → Db → Outcome Db
unfolding stop_remote_process finish_after_confirmed_remote_stop
stop_and_finish o task allocation metadata db =
    let (stopped, db1) = stop_remote_process o task allocation metadata db in
    if stopped
    then finish_after_confirmed_remote_stop o.final_status task allocation db1
    else return db1

-- The second half of `collect_stopping_status`: the files as the node itself sees them.
unfoldable pub collect_stopping_remote :
    Observation → Task → TaskAllocation → Payload → Payload → Db → Outcome Db
unfolding stop_and_finish
collect_stopping_remote o task allocation remote_status remote_runtime db = do
  (finished, db1) ← finish_from_explicit_return_code task remote_status db
  if finished
      then return (release_task_allocations task.id db1)
      else if control_payload_confirms_stopped remote_status allocation.id
      then return (finalize_stopping_task task (some allocation) db1)
      else let db2 = update_guard_from_metadata task allocation remote_runtime db1 in
        if control_payload_confirms_stopped remote_runtime allocation.id
        then return (finalize_stopping_task task (some allocation) db2)
        else if metadata_has_process_identity remote_runtime allocation.id
        then stop_and_finish o task allocation remote_runtime db2
        else return (mark_stop_retry task allocation db2)

abbrev pub read_both : Read → Read → Option (Payload × Payload)
read_both (contents a) (contents b) = some (a, b)
read_both _ _ = none

unfoldable pub collect_stopping_reads : Observation → Task → TaskAllocation → Db → Outcome Db
unfolding collect_stopping_remote
collect_stopping_reads o task allocation db = elim (read_both o.remote_status o.remote_runtime) [
  | none ↦ return (mark_stop_retry task allocation db)
  | some (status, runtime) ↦
      collect_stopping_remote o task allocation (parse_control_payload status allocation.id)
        (parse_control_payload runtime allocation.id) db
]

unfoldable pub collect_stopping_status : Observation → Task → TaskAllocation → Db → Outcome Db
unfolding stop_and_finish collect_stopping_reads
collect_stopping_status o task allocation db = do
  let status = parse_control_payload o.status_file allocation.id
  let metadata = parse_control_payload o.runtime_file allocation.id
  (finished, db1) ← finish_from_explicit_return_code task status db
  if finished
      then return (release_task_allocations task.id db1)
      else if control_payload_confirms_stopped status allocation.id
      then return (finalize_stopping_task task (some allocation) db1)
      else let db2 = update_guard_from_metadata task allocation metadata db1 in
        if control_payload_confirms_stopped metadata allocation.id
        then return (finalize_stopping_task task (some allocation) db2)
        else if metadata_has_process_identity metadata allocation.id
        then stop_and_finish o task allocation metadata db2
        else collect_stopping_reads o task allocation db2

abbrev pub is_online : NodeState → Bool
is_online online = true
is_online _ = false

-- `finalize_stopping_task` of the row as it now stands.
unfoldable pub finalize_current : ℕ → TaskAllocation → Db → Db
finalize_current pk allocation db = elim (get_task pk db) [
  | none ↦ db
  | some task ↦ finalize_stopping_task task (some allocation) db
]

-- A failure of the runner or its wrapper: the task is stopped, and archived at once if the payload
-- shows that no process is left.
unfoldable pub collect_wrapper_failure : Task → TaskAllocation → Payload → Db → Db
unfolding finalize_current
collect_wrapper_failure task allocation status db =
    let message = error_text (get error status) (codes "remote execution wrapper failed") in
    let db1 = begin_start_failure_cleanup task allocation message db in
    if control_payload_confirms_stopped status allocation.id
    then finalize_current task.id allocation db1
    else db1

-- The part of `collect_remote_status` for a launched task whose status was read.
unfoldable pub collect_running_status : Task → TaskAllocation → Payload → Db → Outcome Db
unfolding collect_wrapper_failure
collect_running_status task allocation status db =
    if not (control_payload_matches_launch status allocation.id) then return db else do
      (finished, db1) ← finish_from_explicit_return_code task status db
      if finished
          then return (release_task_allocations task.id db1)
          else if is_infrastructure_failure status
          then return (collect_wrapper_failure task allocation status db1)
          else return db1

unfoldable pub collect_with_node : Observation → Task → TaskAllocation → Node → Db → Outcome Db
unfolding collect_running_status collect_stopping_status
collect_with_node o task allocation node db =
    if is_cancelling task.state
    then collect_stopping_status o task allocation db
    else elim o.remote_status [
      | unreachable message ↦
          if is_online node.state
          then return db
          else return
              (begin_start_failure_cleanup task allocation (codes "运行中节点掉线: " ++ message) db)
      | contents status ↦ collect_running_status task allocation status db
    ]

unfoldable pub collect_with_allocation : Observation → Task → TaskAllocation → Db → Outcome Db
unfolding collect_with_node
collect_with_allocation o task allocation db = elim (get_node allocation.node_id db) [
  | some node ↦ collect_with_node o task allocation node db
  | none ↦
      if is_cancelling task.state
      then return (mark_stop_retry task allocation db)
      else return (
          mark_stop_retry task allocation
            (begin_start_failure_cleanup task allocation (codes "节点记录不存在") db))
]

-- More than one launch may be alive: nothing is released.
unfoldable pub mark_overlapping : Task → Db → Db
mark_overlapping task db =
    let reason =
      if is_cancelling task.state
      then task.last_block_reason
      else auto_stop_reason_prefix ++ codes "：检测到重叠 allocation" in
    mark_untracked_stop_retry (record task { last_block_reason = reason })
      (codes "检测到 2 条未释放 allocation，无法安全确认全部远端进程退出") db

unfoldable pub collect_by_allocations : Observation → Task → List TaskAllocation → Db → Outcome Db
unfolding collect_with_allocation mark_overlapping
collect_by_allocations o task [] db =
    if is_cancelling task.state
    then return (mark_untracked_stop_retry task (codes "任务缺少未释放的 allocation，无法确认远端进程状态") db)
    else return db
collect_by_allocations o task (allocation ∷ []) db = collect_with_allocation o task allocation db
collect_by_allocations o task (a ∷ b ∷ rest) db = return (mark_overlapping task db)

unfoldable pub collect_task : ℕ → Observation → Task → Db → Outcome Db
unfolding finalize_cancelling_timeout collect_by_allocations
collect_task timeout_seconds o task db =
    if is_terminal task.state
    then return db
    else if not (is_launched task.state || is_cancelling task.state)
    then return db
    else let (archived, db1) =
        if is_cancelling task.state
        then finalize_cancelling_timeout timeout_seconds task db
        else (false, db) in
      if archived
      then return db1
      else collect_by_allocations o task (load_open_allocations task.id db1) db1

unfoldable pub collect_remote_status : ℕ → Observation → ℕ → Db → Outcome Db
unfolding collect_task
collect_remote_status timeout_seconds o pk db = elim (get_task pk db) [
  | none ↦ return db
  | some task ↦ collect_task timeout_seconds o task db
]
