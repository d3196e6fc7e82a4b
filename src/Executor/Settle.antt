-- ===== src/Executor/Settle.antt =====
-- When the executor archives a task: the effect of the writes that end one
-- (backend/app/workers/task_executor.py).
use nebula_grid.Base.{
  ℕ, ◌≡◌, refl, subst, inl, inr, true, Option, none, some, arith, Bool-cases, Option-cases, if_ind,
  if◌then◌else◌,
}
use nebula_grid.Base.Int.{ℤ}
use nebula_grid.Base.Text.{Text, codes}
use nebula_grid.Model.{
  get_task-id, is_terminal, as_task, of_state, Task, TaskAllocation, Db, get_task, set_task,
  set_guard_state, load_open_allocations, release_task_allocations, add_task_event,
}
use nebula_grid.Executor.Payload.{
  Payload, Key, get, error_text, control_payload_confirms_stopped, Reading, value, missing, raised,
  explicit_return_code,
}
use nebula_grid.Executor.Finish.{
  Outcome, return, ◌>>=◌, final_state, finish_from_explicit_return_code, finalize_stopping_task,
  stop_state, stop_reason, same_allocations, begin_start_failure_cleanup,
}
use nebula_grid.Executor.Collect.{finalize_current, collect_wrapper_failure}
use nebula_grid.Executor.Effects.{
  IsPresent, Archives, Grounds, Step, Returns, returns, raises, set-Archives, finish-Archives,
  mark_untracked-Quiet, begin_start_failure-Quiet, Quiet-then,
}

final_state-terminal : (task : Task) (code : ℤ) → is_terminal (final_state task code) ≡ true
unfolding final_state is_terminal
final_state-terminal task code = ground arith

stop_state-terminal : (reason : Text) → is_terminal (stop_state reason) ≡ true
unfolding stop_state is_terminal
stop_state-terminal reason = ground arith

finalize-Archives :
    (task : Task) (db : Db)
    → IsPresent task.id db
    → let final = stop_state task.last_block_reason in
      Archives task.id db (
        add_task_event task.id (of_state final) none (
          release_task_allocations task.id (
            set_guard_state task.id (as_task final) (
              set_task task.id
                (λ t. record t {
                  state = final;
                  finished_at = some db.now;
                  return_code = none;
                  last_block_reason = stop_reason task.last_block_reason;
                })
                db))))
unfolding set_guard_state add_task_event release_task_allocations get_task set_task
finalize-Archives task db h =
    set-Archives task.id
      (λ t. record t {
        state = stop_state task.last_block_reason;
        finished_at = some db.now;
        return_code = none;
        last_block_reason = stop_reason task.last_block_reason;
      })
      db _ (λ t. refl) h refl refl (λ t. stop_state-terminal task.last_block_reason)

module _ (E : Grounds) (task : Task) (db : Db) (h : IsPresent task.id db) where
  -- A payload with a return code ends the task; the rest runs where it has none.
  pub archive_or :
      (payload : Payload) (rest : Db → Outcome Db)
      → ((code : ℤ) → explicit_return_code payload ≡ value code → E.ended)
      → (explicit_return_code payload ≡ raised → E.malformed)
      → Returns E task.id db (rest db)
      → Returns E task.id db (
          finish_from_explicit_return_code task payload db >>= λ r.
          if r.0 then return (release_task_allocations task.id r.1) else rest r.1)
  unfolding finish_from_explicit_return_code
  archive_or payload rest coded broken other = go (explicit_return_code payload) refl
    where
      go :
          (r : Reading ℤ)
          → explicit_return_code payload ≡ r
          → Returns E task.id db (
              finish_from_explicit_return_code task payload db >>= λ r.
              if r.0 then return (release_task_allocations task.id r.1) else rest r.1)
      go (value code) e =
          rw (e, finish_from_explicit_return_code)
            (returns E task.id db _
              (inr (finish-Archives task db h _ _ (final_state-terminal task code), coded code e)))
      go missing e = rw (e, finish_from_explicit_return_code) other
      go raised e = rw (e, finish_from_explicit_return_code) (raises E task.id db (broken e))

  -- A confirmed stop archives the task, unless its open allocations are not the expected ones.
  pub finalize-Step :
      (allocation : Option TaskAllocation)
      → E.ended
      → Step E task.id db (finalize_stopping_task task allocation db)
  unfolding finalize_stopping_task
  finalize-Step allocation e =
      elim (Bool-cases (same_allocations (load_open_allocations task.id db) allocation)) [
        | inl same ↦ rw same (inr (finalize-Archives task db h, e))
        | inr differs ↦ rw differs (inl (mark_untracked-Quiet task db h _))
      ]

pub finalize_current-Step :
    (E : Grounds) (pk : ℕ) (allocation : TaskAllocation) (db : Db)
    → IsPresent pk db
    → E.ended
    → Step E pk db (finalize_current pk allocation db)
finalize_current-Step E pk allocation db h e = elim (Option-cases (get_task pk db)) [
  | inl n ↦ cc
  | inr (t, found) ↦
      let same = get_task-id pk db t found in
      let h' : IsPresent t.id db = rw same h in
      unfold finalize_current in
      rw (found, finalize_current)
        (subst (λ k. Step E k db (finalize_stopping_task t (some allocation) db)) same
          (finalize-Step E t db h' (some allocation) e))
]

-- A failure of the runner or its wrapper.
pub wrapper_failure-Step :
    (E : Grounds) (task : Task) (db : Db)
    → IsPresent task.id db
    → (allocation : TaskAllocation) (status : Payload)
    → (control_payload_confirms_stopped status allocation.id ≡ true → E.ended)
    → Step E task.id db (collect_wrapper_failure task allocation status db)
unfolding collect_wrapper_failure
wrapper_failure-Step E task db h allocation status confirms =
    let message = error_text (get Key.error status) (codes "remote execution wrapper failed") in
    let db1 = begin_start_failure_cleanup task allocation message db in
    let q = begin_start_failure-Quiet task db h allocation message in
    if_ind (Step E task.id db) (control_payload_confirms_stopped status allocation.id)
      (λ c.
        Quiet-then E task.id db db1 _ q
          (finalize_current-Step E task.id allocation db1 q.present (confirms c)))
      (λ _. inl q)
