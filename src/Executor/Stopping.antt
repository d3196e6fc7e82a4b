-- ===== src/Executor/Stopping.antt =====
-- The confirmation of a stop releases resources on evidence only
-- (`collect_stopping_status` in backend/app/workers/task_executor.py).
use nebula_grid.Base.{ℕ, ◌≡◌, refl, inl, Bool, true, false, none, some, not, if_ind}
use mathlib.Core.Bool.{false≢true}
use mathlib.Core.Path.{ap₂}
use nebula_grid.Model.{
  Task, TaskAllocation, Db, as_task, cancelled, cancel_failed, cancel_failed_event, stop_confirmed,
  find_guard, set_guard_state, add_task_event,
}
use nebula_grid.Executor.Payload.{Payload, parse_control_payload, metadata_has_process_identity}
use nebula_grid.Executor.Finish.{
  return, finalize_stopping_task, update_guard_from_metadata, guard_not_failed,
}
use nebula_grid.Executor.Collect.{
  Read, has_target, unreachable, contents, Observation, stop_remote_process,
  finish_after_confirmed_remote_stop, stop_and_finish, collect_stopping_remote,
  collect_stopping_reads, read_both, collect_stopping_status,
}
use nebula_grid.Executor.Effects.{
  IsPresent, Grounds, Quiet, Returns, returns, Returns-then, if-Step, Quiet-refl, Quiet-trans,
  update_guard-Quiet, mark_stop_retry-Quiet, set_guard_state-Quiet, add_task_event-Quiet, if-Quiet,
}
use nebula_grid.Executor.Evidence.{
  IsSource, local_status, local_runtime, node_status, node_runtime, node_final, killed,
  parsed-returned, parsed-IsMalformed, parsed-confirmed, Ended,
}
use nebula_grid.Executor.Settle.{archive_or, finalize-Step}

-- The termination of a launch releases nothing, and reports success only if the command did.
record IsStop (o : Observation) (pk : ℕ) (db : Db) (r : Bool × Db) : Type 0 where
  quiet : Quiet pk db r.1
  stopped : r.0 ≡ true → o.stops ≡ true

never : {A : Type 0} → false ≡ true → A
never e = absurd (false≢true e)

module _ (o : Observation) (task : Task) (allocation : TaskAllocation) where
  abbrev E : Grounds
  E = Ended o allocation.id

  stop_remote_process-IsStop :
      (metadata : Payload) (db : Db)
      → IsPresent task.id db
      → IsStop o task.id db (stop_remote_process o task allocation metadata db)
  unfolding stop_remote_process
  stop_remote_process-IsStop metadata db h =
      if_ind (IsStop o task.id db) (not (has_target (find_guard task.id db)))
        (λ _. failing db (Quiet-refl task.id db h))
        (λ _.
          if_ind (IsStop o task.id db) (not (metadata_has_process_identity metadata allocation.id))
            (λ _. failing _ (mark_stop_retry-Quiet task db h allocation))
            (λ _.
              if_ind (IsStop o task.id db) o.stops
                (λ e. record {
                  quiet =
                      Quiet-trans task.id db _ _ cancels (
                        add_task_event-Quiet task.id _ cancels.present task.id stop_confirmed none);
                  stopped = λ _. e;
                })
                (λ _. failing _ (
                  if-Quiet task.id db (add_task_event task.id cancel_failed_event none fail_db)
                    fail_db (guard_not_failed task db)
                    (Quiet-trans task.id db fail_db _ fails (
                      add_task_event-Quiet task.id fail_db fails.present task.id cancel_failed_event
                        none))
                    fails))))
    where
      cancels : Quiet task.id db (set_guard_state task.id (as_task cancelled) db)
      cancels = set_guard_state-Quiet task.id db h task.id (as_task cancelled)

      fail_db : Db
      fail_db = set_guard_state task.id cancel_failed db

      fails : Quiet task.id db fail_db
      fails = set_guard_state-Quiet task.id db h task.id cancel_failed

      failing : (d : Db) → Quiet task.id db d → IsStop o task.id db (false, d)
      failing d q = record { quiet = q; stopped = never }

  finish_after_stop-Step :
      (r : Read) (db : Db)
      → o.final_status ≡ r
      → IsPresent task.id db
      → o.stops ≡ true
      → Returns E task.id db (finish_after_confirmed_remote_stop r task allocation db)
  unfolding finish_after_confirmed_remote_stop
  finish_after_stop-Step (unreachable message) db e h s =
      returns E task.id db _ (inl (mark_stop_retry-Quiet task db h allocation))
  finish_after_stop-Step (contents payload) db e h s =
      archive_or E task db h (parse_control_payload payload allocation.id)
        (λ d. return (finalize_stopping_task task (some allocation) d)) (λ code _. killed s)
        (parsed-IsMalformed o allocation.id payload (node_final e))
        (returns E task.id db _ (finalize-Step E task db h (some allocation) (killed s)))

  stop_and_finish-Step :
      (metadata : Payload) (db : Db)
      → IsPresent task.id db
      → Returns E task.id db (stop_and_finish o task allocation metadata db)
  unfolding stop_and_finish
  stop_and_finish-Step metadata db h =
      let s = stop_remote_process-IsStop metadata db h in
      let db1 = (stop_remote_process o task allocation metadata db).1 in
      Returns-then E task.id db db1 _ s.quiet (
        if-Step E task.id db1 _ _ _
          (λ e. finish_after_stop-Step o.final_status db1 refl s.quiet.present (s.stopped e))
          (λ _. returns E task.id db1 _ (inl (Quiet-refl task.id db1 s.quiet.present))))

  -- What the code does with one pair of control files, the rest being the last resort.
  module _ (status metadata : Payload) (from_status : IsSource o status)
      (from_metadata : IsSource o metadata) where
    collect_remote-Step :
        (db : Db)
        → IsPresent task.id db
        → Returns E task.id db (
            collect_stopping_remote o task allocation
              (parse_control_payload status allocation.id)
              (parse_control_payload metadata allocation.id)
              db)
    unfolding collect_stopping_remote
    collect_remote-Step db h =
        archive_or E task db h _ _ (parsed-returned o allocation.id status from_status)
          (parsed-IsMalformed o allocation.id status from_status)
          (if-Step E task.id db _ _ _
            (λ c. returns E task.id db _ (
              finalize-Step E task db h (some allocation)
                (parsed-confirmed o allocation.id status from_status c)))
            (λ _. Returns-then E task.id db db2 _ quiet (
              if-Step E task.id db2 _ _ _
                (λ c. returns E task.id db2 _ (
                  finalize-Step E task db2 quiet.present (some allocation)
                    (parsed-confirmed o allocation.id metadata from_metadata c)))
                (λ _.
                  if-Step E task.id db2 _ _ _
                    (λ _.
                      stop_and_finish-Step (parse_control_payload metadata allocation.id) db2
                        quiet.present)
                    (λ _.
                      returns E task.id db2 _
                        (inl (mark_stop_retry-Quiet task db2 quiet.present allocation)))))))
      where
        db2 : Db
        db2 =
            update_guard_from_metadata task allocation
              (parse_control_payload metadata allocation.id) db

        quiet : Quiet task.id db db2
        quiet = update_guard-Quiet task db h allocation _

  collect_reads-Step :
      (db : Db)
      → IsPresent task.id db
      → Returns E task.id db (collect_stopping_reads o task allocation db)
  unfolding collect_stopping_reads
  collect_reads-Step db h = go o.remote_status o.remote_runtime refl refl
    where
      retry :
          read_both o.remote_status o.remote_runtime ≡ none
          → Returns E task.id db (collect_stopping_reads o task allocation db)
      retry e =
          rw (e, collect_stopping_reads)
            (returns E task.id db _ (inl (mark_stop_retry-Quiet task db h allocation)))

      go :
          (a b : Read)
          → o.remote_status ≡ a
          → o.remote_runtime ≡ b
          → Returns E task.id db (collect_stopping_reads o task allocation db)
      go (unreachable m) b p q = retry (ap₂ read_both p q)
      go (contents s) (unreachable m) p q = retry (ap₂ read_both p q)
      go (contents s) (contents r) p q =
          rw (ap₂ read_both p q, collect_stopping_reads)
            (collect_remote-Step s r (node_status p) (node_runtime q) db h)

  pub collect_stopping-Step :
      (db : Db)
      → IsPresent task.id db
      → Returns E task.id db (collect_stopping_status o task allocation db)
  unfolding collect_stopping_status
  collect_stopping-Step db h =
      archive_or E task db h _ _ (parsed-returned o allocation.id o.status_file local_status)
        (parsed-IsMalformed o allocation.id o.status_file local_status)
        (if-Step E task.id db _ _ _
          (λ c. returns E task.id db _ (
            finalize-Step E task db h (some allocation)
              (parsed-confirmed o allocation.id o.status_file local_status c)))
          (λ _. Returns-then E task.id db db2 _ quiet (
            if-Step E task.id db2 _ _ _
              (λ c. returns E task.id db2 _ (
                finalize-Step E task db2 quiet.present (some allocation)
                  (parsed-confirmed o allocation.id o.runtime_file local_runtime c)))
              (λ _.
                if-Step E task.id db2 _ _ _ (λ _. stop_and_finish-Step metadata db2 quiet.present)
                  (λ _. collect_reads-Step db2 quiet.present)))))
    where
      metadata : Payload
      metadata = parse_control_payload o.runtime_file allocation.id

      db2 : Db
      db2 = update_guard_from_metadata task allocation metadata db

      quiet : Quiet task.id db db2
      quiet = update_guard-Quiet task db h allocation metadata
