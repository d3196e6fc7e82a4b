-- ===== src/Runner/Outcomes.antt =====
-- What the answer and the files of the runner let the executor conclude (backend/app/remote/runner.py,
-- backend/app/workers/task_executor.py).
use nebula_grid.Base.{
  ℕ, Bool, true, false, not, Option, none, some, [], ◌∷◌, ==-refl, is_empty, ◌≡◌, refl, sym, subst,
  Any, ◌⊎◌, inl, inr, arith, if_ind,
}
use nebula_grid.Base.Text.{Text, text_eq}
use nebula_grid.Executor.Payload.{
  Payload, get, strict_positive_int, control_payload_matches_launch,
  control_payload_confirms_stopped, is_infrastructure_failure,
}
use nebula_grid.Executor.Prepare.{printed, check_answer}
use nebula_grid.Runner.Group.{IsEmptied, terminate_process_group, terminate_process_group-IsEmptied}
use nebula_grid.Runner.{
  Launch, Sight, Progress, Attempt, ends, throws, load_explicit_completion, cancellation_requested,
  nothing_done, prints, unless_fails, cancelled_launch, cancelled_answer,
  acknowledge_cancelled_launch, acknowledge_runtime, acknowledge_status, identity_of, metadata_of,
  cancelled_metadata, stop_launched, follow_started, follow_process, launching_payload, try_launch,
  failure_payload, is_stopped, write_failure, report_failure, handle_attempt, run,
  cancelled_receipt, running_receipt, folders, wrapper, launching, spawning, failed_runtime,
  failed_status,
}

-- A status file that the run read, of the launch and with a return code.
abbrev pub IsCompletion : Launch → Sight → Payload → Type 0
IsCompletion l s p =
    (is_empty p ≡ false)
    × Any (λ file. load_explicit_completion l file ≡ p)
        (s.status_first ∷ s.status_second ∷ s.status_failed ∷ s.status_last ∷ [])

module _ (l : Launch) (s : Sight) where
  -- Nothing of the launch runs: no process was created, or its group was seen empty in one of the two
  -- attempts to end it.
  abbrev pub IsOver : Option ℕ → Type 0
  IsOver process =
      (process ≡ none) ⊎ (IsEmptied s.pid s.signals_first ⊎ IsEmptied s.pid s.signals_last)

  -- The executor may believe the payload.
  abbrev pub IsHonest : Option ℕ → Payload → Type 0
  IsHonest process p = control_payload_confirms_stopped p l.launch_id ≡ true → IsOver process

  -- The executor finds the launch in the payload.
  abbrev pub IsOwn : Payload → Type 0
  IsOwn p = control_payload_matches_launch p l.launch_id ≡ true

  pub record IsSound (p : Progress) : Type 0 where
    known : (p.process ≡ none) ⊎ (p.process ≡ some s.pid)
    runtime : (f : Payload) → p.runtime_file ≡ some f → IsHonest p.process f
    status : (f : Payload) → p.status_file ≡ some f → p.process ≡ none

  abbrev IsFine : Attempt → Type 0
  IsFine (ends e) =
      IsSound e.progress
      × (IsHonest e.progress.process e.printed × IsOwn e.printed ⊎ IsCompletion l s e.printed)
  IsFine (throws message p) = IsSound p

  unless_fails-IsFine :
      (o : Option Text) (p : Progress) (rest : Attempt)
      → IsSound p
      → IsFine rest
      → IsFine (unless_fails o p rest)
  unless_fails-IsFine none p rest h k = k
  unless_fails-IsFine (some message) p rest h k = h

  -- Without a process every file is honest.
  unstarted-IsSound :
      (runtime status : Option Payload)
      → IsSound (record {
        process = none;
        process_identity = [];
        runtime_file = runtime;
        status_file = status;
      })
  unstarted-IsSound runtime status = record {
    known = inl refl;
    runtime = λ f e c. inl refl;
    status = λ f e. refl;
  }

  -- With one, the runtime file is.
  started-IsSound :
      (identity f : Payload)
      → IsHonest (some s.pid) f
      → IsSound (record {
        process = some s.pid;
        process_identity = identity;
        runtime_file = some f;
        status_file = none;
      })
  started-IsSound identity f honest = record {
    known = inr refl;
    runtime = λ g e. subst (IsHonest (some s.pid)) (let same : f ≡ g = cc in same) honest;
    status = λ g e. let bad : none ≡ some g = e in cc;
  }

  metadata-matches : IsOwn (metadata_of l s)
  unfolding control_payload_matches_launch strict_positive_int get
  metadata-matches = ==-refl l.launch_id

  cancelled-matches : (stopped : Bool) → IsOwn (cancelled_metadata l s stopped)
  unfolding control_payload_matches_launch strict_positive_int get
  cancelled-matches stopped = ==-refl l.launch_id

  failure-matches :
      (identity : Payload) (stopped : Bool) (message : Text)
      → IsOwn (failure_payload l identity stopped message)
  unfolding control_payload_matches_launch strict_positive_int get
  failure-matches identity stopped message = ==-refl l.launch_id

  answer-matches : IsOwn (cancelled_answer l)
  unfolding control_payload_matches_launch strict_positive_int get
  answer-matches = ==-refl l.launch_id

  rewritten :
      (p : Progress) (f : Payload)
      → IsHonest p.process f
      → IsSound p
      → IsSound (record p { runtime_file = some f })
  rewritten p f honest sound = record {
    known = sound.known;
    runtime = λ g e. subst (IsHonest p.process) (let same : f ≡ g = cc in same) honest;
    status = sound.status;
  }

  over :
      (process : Option ℕ)
      → (process ≡ none) ⊎ (process ≡ some s.pid)
      → is_stopped process s.signals_last ≡ true
      → IsOver process
  over none known e = inl refl
  over (some pid) known e = elim known [
    | inl none_of ↦ cc
    | inr same ↦
        let here : pid ≡ s.pid = cc in
        inr (
          inr (
            (terminate_process_group-IsEmptied s.pid s.signals_last).0
              (subst (λ k. terminate_process_group k s.signals_last ≡ true) here e)))
  ]

  launching-IsHonest : (process : Option ℕ) → IsHonest process (launching_payload l)
  unfolding control_payload_confirms_stopped is_infrastructure_failure get text_eq
  launching-IsHonest process e = let bad : false ≡ true = ground (arith, e) in cc

  metadata-IsHonest : (process : Option ℕ) → IsHonest process (metadata_of l s)
  unfolding control_payload_confirms_stopped is_infrastructure_failure get text_eq
  metadata-IsHonest process e = let bad : false ≡ true = ground (arith, e) in cc

  cancelled-IsHonest :
      (stopped : Bool)
      → (stopped ≡ true → IsEmptied s.pid s.signals_first)
      → IsHonest (some s.pid) (cancelled_metadata l s stopped)
  unfolding control_payload_confirms_stopped is_infrastructure_failure get text_eq
  cancelled-IsHonest stopped h e = inr (inl (h (ground (arith, e))))

  failure-IsHonest :
      (process : Option ℕ) (identity : Payload) (stopped : Bool) (message : Text)
      → (stopped ≡ true → IsOver process)
      → IsHonest process (failure_payload l identity stopped message)
  unfolding control_payload_confirms_stopped is_infrastructure_failure get text_eq
  failure-IsHonest process identity stopped message h e = h (ground (arith, e))

  abbrev launched : Payload → Progress
  launched f = record {
    process = some s.pid;
    process_identity = identity_of s;
    runtime_file = some f;
    status_file = none;
  }

  stop_launched-IsFine : IsFine (stop_launched l s (launched (metadata_of l s)))
  unfolding stop_launched
  stop_launched-IsFine =
      let first = load_explicit_completion l s.status_first in
      let second = load_explicit_completion l s.status_second in
      let stopped = terminate_process_group s.pid s.signals_first in
      let payload = cancelled_metadata l s stopped in
      let sound =
        started-IsSound (identity_of s) (metadata_of l s) (metadata-IsHonest (some s.pid)) in
      let honest =
        cancelled-IsHonest stopped (terminate_process_group-IsEmptied s.pid s.signals_first).0 in
      if_ind IsFine (not (is_empty first)) (λ y. (sound, inr (ground (arith, y), inl refl)))
        (λ _.
          if_ind IsFine (not (is_empty second))
            (λ y. (sound, inr (ground (arith, y), inr (inl refl))))
            (λ _.
              unless_fails-IsFine (s.fails cancelled_receipt) (launched (metadata_of l s))
                (prints (launched payload) payload) sound
                (
                  started-IsSound (identity_of s) payload honest,
                  inl (honest, cancelled-matches stopped),
                )))

  follow_started-IsFine :
      (time : Option ℕ) → IsFine (follow_started l s time (launched (launching_payload l)))
  unfolding follow_started
  follow_started-IsFine none =
      started-IsSound (identity_of s) (launching_payload l) (launching-IsHonest (some s.pid))
  follow_started-IsFine (some time) =
      let sound =
        started-IsSound (identity_of s) (metadata_of l s) (metadata-IsHonest (some s.pid)) in
      unless_fails-IsFine (s.fails running_receipt) _ _
        (started-IsSound (identity_of s) (launching_payload l) (launching-IsHonest (some s.pid)))
        (if_ind IsFine (cancellation_requested s.cancel_launched l.launch_id)
          (λ _. stop_launched-IsFine)
          (λ _. (sound, inl (metadata-IsHonest (some s.pid), metadata-matches))))

  write_failure-process :
      (a b : Option Text) (process : Option ℕ) (payload : Payload) (p : Progress)
      → (write_failure a b process payload p).process ≡ p.process
  write_failure-process (some m) b process payload p = refl
  write_failure-process none b (some pid) payload p = refl
  write_failure-process none (some m) none payload p = refl
  write_failure-process none none none payload p = refl

  write_failure-IsSound :
      (a b : Option Text) (process : Option ℕ) (payload : Payload) (p : Progress)
      → p.process ≡ process
      → IsHonest p.process payload
      → IsSound p
      → IsSound (write_failure a b process payload p)
  write_failure-IsSound (some m) b process payload p same honest sound = sound
  write_failure-IsSound none b (some pid) payload p same honest sound =
      rewritten p payload honest sound
  write_failure-IsSound none (some m) none payload p same honest sound =
      rewritten p payload honest sound
  write_failure-IsSound none none none payload p same honest sound = record {
    known = inl same;
    runtime = λ f e c. inl same;
    status = λ f e. same;
  }

  report_failure-IsFine :
      (message : Text) (p : Progress) → IsSound p → IsFine (ends (report_failure l s message p))
  unfolding report_failure
  report_failure-IsFine message p sound =
      let first = load_explicit_completion l s.status_failed in
      let second = load_explicit_completion l s.status_last in
      let stopped = is_stopped p.process s.signals_last in
      let payload = failure_payload l p.process_identity stopped message in
      let honest : IsHonest p.process payload =
        failure-IsHonest p.process p.process_identity stopped message
          (over p.process sound.known) in
      if_ind (λ e. IsFine (ends e)) (not (is_empty first))
        (λ y. (sound, inr (ground (arith, y), inr (inr (inl refl)))))
        (λ _.
          if_ind (λ e. IsFine (ends e)) (not (is_empty second))
            (λ y. (sound, inr (ground (arith, y), inr (inr (inr (inl refl))))))
            (λ _. (
              write_failure-IsSound (s.fails failed_runtime) (s.fails failed_status) p.process
                  payload p refl honest sound,
              inl (
                subst (λ q. IsHonest q payload)
                    (sym (
                      write_failure-process (s.fails failed_runtime) (s.fails failed_status)
                        p.process payload p))
                    honest,
                failure-matches p.process_identity stopped message,
              ),
            )))

  handle_attempt-IsFine : (a : Attempt) → IsFine a → IsFine (ends (handle_attempt l s a))
  handle_attempt-IsFine (ends e) h = h
  handle_attempt-IsFine (throws message p) h = report_failure-IsFine message p h

  acknowledge-IsFine :
      (f : Option Payload)
      → IsFine (acknowledge_cancelled_launch l s (record nothing_done { runtime_file = f }))
  unfolding acknowledge_cancelled_launch
  acknowledge-IsFine f =
      unless_fails-IsFine (s.fails acknowledge_runtime) _ _ (unstarted-IsSound f none) (
        unless_fails-IsFine (s.fails acknowledge_status) _ _
          (unstarted-IsSound (some (cancelled_launch l)) none)
          (
            unstarted-IsSound (some (cancelled_launch l)) (some (cancelled_launch l)),
            inl ((λ c. inl refl), answer-matches),
          ))

  try_launch-IsFine : IsFine (try_launch l s)
  unfolding try_launch follow_process
  try_launch-IsFine =
      let empty_handed = unstarted-IsSound none none in
      let prepared = unstarted-IsSound (some (launching_payload l)) none in
      unless_fails-IsFine (s.fails folders) _ _ empty_handed (
        if_ind IsFine (cancellation_requested s.cancel_before l.launch_id)
          (λ _. acknowledge-IsFine none)
          (λ _. unless_fails-IsFine (s.fails wrapper) _ _ empty_handed (
            unless_fails-IsFine (s.fails launching) _ _ empty_handed (
              if_ind IsFine (cancellation_requested s.cancel_prepared l.launch_id)
                (λ _. acknowledge-IsFine (some (launching_payload l)))
                (λ _.
                  if_ind IsFine (is_empty s.boot_id) (λ _. prepared)
                    (λ _.
                      unless_fails-IsFine (s.fails spawning) _ _ prepared
                        (follow_started-IsFine s.process_start_time)))))))

  run-IsFine : IsFine (ends (run l s))
  unfolding run
  run-IsFine = handle_attempt-IsFine (try_launch l s) try_launch-IsFine

check_answer-own :
    (launch : ℕ) (p : Payload)
    → control_payload_matches_launch p launch ≡ true
    → check_answer launch (printed p) ≡ printed p
unfolding check_answer control_payload_matches_launch
check_answer-own launch [] e = cc
check_answer-own launch (x ∷ p) e = rw e refl

-- What the executor may read of a run: its answer, and the two files as it left them.
pub data IsReport (l : Launch) (s : Sight) : Payload → Type 0 where
  answer : IsReport l s (run l s).printed
  runtime : {p : Payload} → (run l s).progress.runtime_file ≡ some p → IsReport l s p
  status : {p : Payload} → (run l s).progress.status_file ≡ some p → IsReport l s p

-- A report of a run that the executor takes as the confirmation that the launch left no process is
-- true: no process was created, or one of the two attempts to end its group met a scan that was read to
-- its end and has no live member of the group, or the report is a status file that the run read, of the
-- launch and with a return code.
pub run-IsOver :
    (l : Launch) (s : Sight) (p : Payload)
    → IsReport l s p
    → control_payload_confirms_stopped p l.launch_id ≡ true
    → IsOver l s (run l s).progress.process ⊎ IsCompletion l s p
run-IsOver l s p answer e = elim (run-IsFine l s).1 [
  | inl own ↦ inl (own.0 e)
  | inr completion ↦ inr completion
]
run-IsOver l s p (runtime f) e = inl ((run-IsFine l s).0.runtime p f e)
run-IsOver l s p (status f) e = inl (inl ((run-IsFine l s).0.status p f))

-- The executor does not refuse the answer of a run as invalid or as that of another launch, unless
-- it is a status file that the run read, of the launch and with a return code.
pub run-accepted :
    (l : Launch) (s : Sight)
    → (check_answer l.launch_id (printed (run l s).printed) ≡ printed (run l s).printed)
      ⊎ IsCompletion l s (run l s).printed
run-accepted l s = elim (run-IsFine l s).1 [
  | inl own ↦ inl (check_answer-own l.launch_id (run l s).printed own.1)
  | inr completion ↦ inr completion
]
