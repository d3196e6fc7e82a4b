-- ===== src/Executor/Launch/Receipts.antt =====
-- What the executor may take as evidence that a start left no process, and the effect of the writes of
-- a start (`start_remote_task` of backend/app/workers/task_executor.py).
use nebula_grid.Base.{
  ℕ, ◌≡◌, refl, inl, inr, Bool, true, ◌||◌, not, Option, none, some, [], Bool-cases, if_ind,
  if◌then◌else◌,
}
use nebula_grid.Base.Int.{ℤ}
use nebula_grid.Base.Text.{Text, codes}
use nebula_grid.Model.{
  is_terminal, is_starting, is_cancelling, cancelling, running, failed, as_task, started, Task,
  TaskAllocation, Db, release_task_allocations,
}
use nebula_grid.Executor.Payload.{
  Payload, Key, get, Reading, value, missing, raised, explicit_return_code, has_state,
  parse_control_payload, control_payload_matches_launch, is_infrastructure_failure,
  control_payload_confirms_stopped, metadata_has_process_identity,
}
use nebula_grid.Executor.Finish.{
  Outcome, return, ◌>>=◌, finish_task, finish_from_explicit_return_code,
  finish_from_confirmed_remote_failure, finish_remote_execution_failure, reading_option,
  update_guard_from_metadata, begin_start_failure_cleanup,
}
use nebula_grid.Executor.Effects.{
  IsPresent, Grounds, Quiet, Step, Returns, returns, raises, Quiet-refl, Quiet-trans, Quiet-then,
  if-Quiet, set_task-Quiet, set_guard_state-Quiet, add_task_event-Quiet, begin_start_failure-Quiet,
  update_guard-Quiet, finish-Archives,
}
use nebula_grid.Executor.Settle.{archive_or, finalize_current-Step}
use nebula_grid.Executor.Prepare.{Answer, printed, failure}
use nebula_grid.Executor.Launch.{
  Launching, settle_or, remote_runner_exited_before_metadata, or_payload, clean_up_unless_stopping,
  note_cancelled, note_started, record_launch,
}

-- The payloads that a start could read.
pub data IsReceipt (l : Launching) (answer : Answer) : Payload → Type 0 where
  local_status : IsReceipt l answer l.status_file
  stdout : {p : Payload} → answer ≡ printed p → IsReceipt l answer p
  output :
      {message : Text} {code : Option ℤ} {p : Payload}
      → answer ≡ failure message code p
      → IsReceipt l answer p

-- What shows that a launch left no process: a return code or a confirmed stop of that very launch, or
-- an exit of the runner itself, which is none of SSH, with no metadata anywhere.
pub data LaunchEnded (l : Launching) (answer : Answer) (launch : ℕ) : Type 0 where
  returned :
      {p : Payload} (code : ℤ)
      → IsReceipt l answer p
      → control_payload_matches_launch p launch ≡ true
      → explicit_return_code p ≡ value code
      → LaunchEnded l answer launch
  confirmed :
      {p : Payload}
      → IsReceipt l answer p
      → control_payload_confirms_stopped p launch ≡ true
      → LaunchEnded l answer launch
  exited :
      {message : Text} {code : Option ℤ} {p : Payload}
      → answer ≡ failure message code p
      → remote_runner_exited_before_metadata code (
          or_payload (parse_control_payload l.runtime_file launch) (parse_control_payload p launch))
        ≡ true
      → LaunchEnded l answer launch

pub data IsBadReceipt (l : Launching) (answer : Answer) : Type 0 where
  bad_receipt :
      {p : Payload} → IsReceipt l answer p → explicit_return_code p ≡ raised → IsBadReceipt l answer

-- A payload may end the task; the rest runs where it does not.
pub settle_or-Returns :
    (E : Grounds) (task : Task) (db : Db)
    → IsPresent task.id db
    → (allocation : TaskAllocation) (payload : Payload) (rest : Db → Outcome Db)
    → (control_payload_confirms_stopped payload allocation.id ≡ true → E.ended)
    → ((code : ℤ) → explicit_return_code payload ≡ value code → E.ended)
    → (explicit_return_code payload ≡ raised → E.malformed)
    → Returns E task.id db (rest db)
    → Returns E task.id db (settle_or task allocation payload rest db)
unfolding settle_or finish_from_confirmed_remote_failure finish_remote_execution_failure is_terminal
settle_or-Returns E task db h allocation payload rest stopped coded broken other =
    elim (Bool-cases (is_infrastructure_failure payload)) [
      | inr n ↦ rw n ended_or
      | inl y ↦ elim (Bool-cases (control_payload_confirms_stopped payload allocation.id)) [
        | inr n ↦ rw (y, n) ended_or
        | inl c ↦ rw (y, c) (go (explicit_return_code payload) refl (stopped c))
      ]
    ]
  where
    ended_or : Returns E task.id db (
        finish_from_explicit_return_code task payload db >>= λ r.
        if r.0 then return (release_task_allocations task.id r.1) else rest r.1)
    ended_or = archive_or E task db h payload rest coded broken other

    after : Bool × Db → Outcome Db
    after r =
        if r.0
        then return r.1
        else finish_from_explicit_return_code task payload r.1 >>= λ s.
            if s.0 then return (release_task_allocations task.id s.1) else rest s.1

    go :
        (r : Reading ℤ)
        → explicit_return_code payload ≡ r
        → E.ended
        → Returns E task.id db (
            (reading_option r >>= λ code.
            return (true, release_task_allocations task.id (finish_task task failed code db)))
            >>= after)
    go (value code) e ends =
        returns E task.id db _ (inr (finish-Archives task db h failed (some code) refl, ends))
    go missing e ends =
        returns E task.id db _ (inr (finish-Archives task db h failed none refl, ends))
    go raised e ends = raises E task.id db (broken e)

pub clean_up-Quiet :
    (task : Task) (db : Db)
    → IsPresent task.id db
    → (allocation : TaskAllocation) (message : Text)
    → Quiet task.id db (clean_up_unless_stopping task allocation message db)
unfolding clean_up_unless_stopping
clean_up-Quiet task db h allocation message =
    if-Quiet task.id db _ _ (is_cancelling task.state) (Quiet-refl task.id db h)
      (begin_start_failure-Quiet task db h allocation message)

note_cancelled-Quiet :
    (task : Task) (db : Db) → IsPresent task.id db → Quiet task.id db (note_cancelled task db)
unfolding note_cancelled
note_cancelled-Quiet task db h =
    let q =
      if-Quiet task.id db _ _ (is_cancelling task.state) (Quiet-refl task.id db h)
        (set_task-Quiet task.id db h _ (λ t. refl)) in
    Quiet-trans task.id db _ _ q
      (set_guard_state-Quiet task.id _ q.present task.id (as_task cancelling))

note_started-Quiet :
    (task : Task) (command : Text) (db : Db)
    → IsPresent task.id db
    → Quiet task.id db (note_started task command db)
unfolding note_started
note_started-Quiet task command db h =
    let a = set_guard_state-Quiet task.id db h task.id (as_task running) in
    let b =
      set_task-Quiet task.id _ a.present
        (λ t. record t {
          generated_command = command;
          state = running;
          started_at = some db.now;
          last_block_reason = [];
        })
        (λ t. refl) in
    let c = add_task_event-Quiet task.id _ b.present task.id started none in
    Quiet-trans task.id db _ _ a (Quiet-trans task.id _ _ _ b c)

module _ (E : Grounds) (task : Task) (allocation : TaskAllocation) (db : Db)
    (h : IsPresent task.id db) where
  pub record_launch-Step :
      (command : Text) (metadata : Payload)
      → (control_payload_confirms_stopped metadata allocation.id ≡ true → E.ended)
      → Step E task.id db (record_launch task allocation command metadata db)
  unfolding record_launch
  record_launch-Step command metadata stopped = Quiet-then E task.id db db1 _ q (
      if_ind (Step E task.id db1) (control_payload_confirms_stopped metadata allocation.id)
        (λ c.
          let k = clean_up-Quiet task db1 q.present allocation _ in
          Quiet-then E task.id db1 _ _ k
            (finalize_current-Step E task.id allocation _ k.present (stopped c)))
        (λ _. inl (
          if-Quiet task.id db1 _ _ (has_state (codes "launch_failed") (get Key.state metadata))
            (clean_up-Quiet task db1 q.present allocation _)
            (if-Quiet task.id db1 _ _
              (is_cancelling task.state || has_state (codes "cancelled") (get Key.state metadata))
              (note_cancelled-Quiet task db1 q.present)
              (if-Quiet task.id db1 _ _ (not (is_starting task.state)) (failing _) (
                if-Quiet task.id db1 _ _
                  (not (has_state (codes "running") (get Key.state metadata))) (failing _)
                  (if-Quiet task.id db1 _ _
                    (not (metadata_has_process_identity metadata allocation.id)) (failing _)
                    (note_started-Quiet task command db1 q.present))))))))
    where
      db1 : Db
      db1 = update_guard_from_metadata task allocation metadata db

      q : Quiet task.id db db1
      q = update_guard-Quiet task db h allocation metadata

      failing :
          (message : Text)
          → Quiet task.id db1 (begin_start_failure_cleanup task allocation message db1)
      failing message = begin_start_failure-Quiet task db1 q.present allocation message
