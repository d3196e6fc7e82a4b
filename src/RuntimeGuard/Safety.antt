-- ===== src/RuntimeGuard/Safety.antt =====
-- What the runtime guard may do to the tasks (backend/app/workers/runtime_guard.py).
use nebula_grid.Base.{
  ℕ, ◌+◌, ◌≡◌, ◌≤◌, refl, ◌⊎◌, inl, inr, false, ◌&&◌, ◌||◌, not, Option, none, some, List, ltb, any,
  is_empty, arith, if◌then◌else◌, if_ind, ◌==◌,
}
use nebula_grid.Base.Text.{Text}
use nebula_grid.Model.{
  Task, TaskAllocation, TaskRuntimeGuard, Node, Db, get_task, get_node, set_task, add_task_event,
  is_launched,
}
use nebula_grid.Executor.Payload.{Payload}
use nebula_grid.RuntimeGuard.{
  Checked, Identity, Sampling, load_single_open_allocation, load_runtime_identity, get_guard,
  put_guard, fail_check, mark_guard_check_failed, load_allowed_gpu_uuids, unexpected_uuids,
  begin_alloc_error_cleanup, judge_sample, same_identity, same_process, check_identity,
  recheck_launch, recheck_task, use_sample, sampled_launch, inspect_launch, inspect_rows,
  inspect_guard,
}

-- Neither the tasks nor the allocations change.
pub record Untouched (db db' : Db) : Type 0 where
  pub same_tasks : db'.tasks ≡ db.tasks
  pub same_allocations : db'.task_allocations ≡ db.task_allocations

-- The guard row had seen a violation before, and the sample shows a GPU that is not allowed.
pub record Suspicion (guard_pk : ℕ) (allowed : List Text) (sample : Option (List Text))
    (db db' : Db) : Type 0 where
  pub guard : TaskRuntimeGuard
  pub found : get_guard guard_pk db ≡ some guard
  pub repeated : 1 ≤ guard.violation_count
  pub observed : List Text
  pub sampled : sample ≡ some observed
  pub unexpected : is_empty (unexpected_uuids allowed observed) ≡ false
  pub same_allocations : db'.task_allocations ≡ db.task_allocations

untouched : (db : Db) → Untouched db db
untouched db = record { same_tasks = refl; same_allocations = refl }

fail_check-Untouched : (pk : ℕ) (db : Db) → Untouched db (fail_check pk db)
unfolding fail_check put_guard
fail_check-Untouched pk db = record { same_tasks = refl; same_allocations = refl }

mark_failed-Untouched :
    (pk guard_pk : ℕ) (db : Db) → Untouched db (mark_guard_check_failed pk guard_pk db)
unfolding mark_guard_check_failed
mark_failed-Untouched pk guard_pk db = go (get_task pk db)
  where
    go :
        (t : Option Task)
        → Untouched db (elim t as (λ _. Db) [
          | none ↦ db
          | some task ↦ if is_launched task.state then fail_check guard_pk db else db
        ])
    go none = untouched db
    go (some t) =
        if_ind (Untouched db) (is_launched t.state) (λ _. fail_check-Untouched guard_pk db)
          (λ _. untouched db)

-- The verdict on a sample stops a task only at the second violation.
judge_sample-cases :
    (task : Task) (guard : TaskRuntimeGuard) (allowed observed : List Text) (db : Db)
    → Untouched db (judge_sample task guard allowed observed db)
      ⊎ ((1 ≤ guard.violation_count)
          × (is_empty (unexpected_uuids allowed observed) ≡ false)
          × ((judge_sample task guard allowed observed db).task_allocations ≡ db.task_allocations))
unfolding judge_sample begin_alloc_error_cleanup put_guard add_task_event set_task
judge_sample-cases task guard allowed observed db =
    let P = λ (d : Db).
      Untouched db d
      ⊎ ((1 ≤ guard.violation_count)
          × (is_empty (unexpected_uuids allowed observed) ≡ false)
          × (d.task_allocations ≡ db.task_allocations)) in
    if_ind P (is_empty observed) (λ _. inl (record { same_tasks = refl; same_allocations = refl }))
      (λ _.
        if_ind P (is_empty allowed && any (ltb 0) guard.allocated_gpu_ids)
          (λ _. inl (record { same_tasks = refl; same_allocations = refl }))
          (λ _.
            if_ind P (is_empty (unexpected_uuids allowed observed))
              (λ _. inl (record { same_tasks = refl; same_allocations = refl }))
              (λ u.
                if_ind P (ltb (guard.violation_count + 1) 2)
                  (λ _. inl (record { same_tasks = refl; same_allocations = refl }))
                  (λ n. inr (ground (arith, n), u, refl)))))

module _ (task : Task) (guard_pk : ℕ) (allocation : TaskAllocation) (sampled : Identity)
    (file : Option Payload) (allowed observed : List Text) (db : Db) where
  abbrev Result : ℕ × Db → Type 0
  Result r = Untouched db r.1 ⊎ Suspicion guard_pk allowed (some observed) db r.1

  check_identity-Result :
      (guard : TaskRuntimeGuard) (found : Checked Identity)
      → get_guard guard_pk db ≡ some guard
      → Result (check_identity task guard sampled found allowed observed db)
  unfolding check_identity
  check_identity-Result guard none e = inl (fail_check-Untouched guard.id db)
  check_identity-Result guard (some found) e =
      if_ind Result (same_identity found sampled)
        (λ _. elim (judge_sample-cases task guard allowed observed db) [
          | inl q ↦ inl q
          | inr (v, u, a) ↦ inr (record {
            guard = guard;
            found = e;
            repeated = v;
            observed = observed;
            sampled = refl;
            unexpected = u;
            same_allocations = a;
          })
        ])
        (λ _. inl (fail_check-Untouched guard.id db))

  recheck_launch-Result :
      (guard : Option TaskRuntimeGuard) (current : Checked TaskAllocation)
      → get_guard guard_pk db ≡ guard
      → Result
          (recheck_launch task guard_pk allocation sampled file allowed observed guard current db)
  unfolding recheck_launch
  recheck_launch-Result guard none e = inl (fail_check-Untouched guard_pk db)
  recheck_launch-Result none (some current) e = inl (untouched db)
  recheck_launch-Result (some guard) (some current) e =
      if_ind Result (not (current.id == allocation.id) || not (same_process guard sampled))
        (λ _. inl (untouched db))
        (λ _. check_identity-Result guard (load_runtime_identity task current guard file) e)

recheck_task-Result :
    (task : Option Task) (guard_pk : ℕ) (allocation : TaskAllocation) (sampled : Identity)
    (file : Option Payload) (allowed observed : List Text) (db : Db)
    → Untouched db (recheck_task task guard_pk allocation sampled file allowed observed db).1
      ⊎ Suspicion guard_pk allowed
          (some observed)
          db
          (recheck_task task guard_pk allocation sampled file allowed observed db).1
unfolding recheck_task
recheck_task-Result none guard_pk allocation sampled file allowed observed db = inl (untouched db)
recheck_task-Result (some task) guard_pk allocation sampled file allowed observed db =
    if_ind (λ (r : ℕ × Db). Untouched db r.1 ⊎ Suspicion guard_pk allowed (some observed) db r.1)
      (not (is_launched task.state)) (λ _. inl (untouched db))
      (λ _.
        recheck_launch-Result task guard_pk allocation sampled file allowed observed db
          (get_guard guard_pk db) (load_single_open_allocation task.id db) refl)

-- What one inspection may do: nothing to the tasks and the allocations, as they are before or after
-- the sampling, or a stop on a suspicion.
abbrev pub Inspected : (Db → Db) → Sampling → TaskRuntimeGuard → Db → Db → Type 0
Inspected during s guard db db' =
    Untouched db db'
    ⊎ Untouched (during db) db'
    ⊎ Suspicion guard.id (load_allowed_gpu_uuids guard db) s.sample (during db) db'

module _ (during : Db → Db) (s : Sampling) (guard : TaskRuntimeGuard) (db : Db) where
  use_sample-Result :
      (task : Task) (allocation : TaskAllocation) (found : Identity) (sample : Option (List Text))
      → Untouched
          (during db)
          (use_sample task guard allocation found s.file_after
            (load_allowed_gpu_uuids guard db)
            sample
            (during db)).1
        ⊎ Suspicion guard.id
            (load_allowed_gpu_uuids guard db)
            sample
            (during db)
            (use_sample task guard allocation found s.file_after
              (load_allowed_gpu_uuids guard db)
              sample
              (during db)).1
  unfolding use_sample
  use_sample-Result task allocation found none =
      inl (mark_failed-Untouched task.id guard.id (during db))
  use_sample-Result task allocation found (some observed) =
      recheck_task-Result (get_task task.id (during db)) guard.id allocation found s.file_after
        (load_allowed_gpu_uuids guard db) observed (during db)

  inspect_launch-Result :
      (task : Task) (launch : Checked (TaskAllocation × Identity))
      → Inspected during s guard db (inspect_launch during s task guard launch db).1
  unfolding inspect_launch
  inspect_launch-Result task none = inl (mark_failed-Untouched task.id guard.id db)
  inspect_launch-Result task (some (allocation, found)) =
      inr (use_sample-Result task allocation found s.sample)

  inspect_rows-Result :
      (task : Option Task) (node : Option Node)
      → Inspected during s guard db (inspect_rows during s guard task node db).1
  unfolding inspect_rows
  inspect_rows-Result none _ = inl (untouched db)
  inspect_rows-Result (some task) none = inl (untouched db)
  inspect_rows-Result (some task) (some node) =
      if_ind (λ (r : ℕ × Db). Inspected during s guard db r.1) (not (is_launched task.state))
        (λ _. inl (untouched db))
        (λ _. inspect_launch-Result task (sampled_launch task guard s.file_before db))

-- An inspection leaves the tasks and the allocations as they were before or after the sampling,
-- whatever other sessions did meanwhile; or the guard row had counted a violation before, and the
-- sample shows a GPU that the guard does not allow, and still no allocation changes.
pub inspect_guard-safe :
    (during : Db → Db) (s : Sampling) (guard : TaskRuntimeGuard) (db : Db)
    → Inspected during s guard db (inspect_guard during s guard db).1
unfolding inspect_guard
inspect_guard-safe during s guard db =
    inspect_rows-Result during s guard db (get_task guard.task_id db) (get_node guard.node_id db)
