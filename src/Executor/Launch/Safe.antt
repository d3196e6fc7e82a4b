-- ===== src/Executor/Launch/Safe.antt =====
-- A start releases resources only where no process is left
-- (`start_remote_task` of backend/app/workers/task_executor.py).
use nebula_grid.Base.{
  ℕ, ◌≡◌, refl, sym, subst, ◌⊎◌, inl, inr, true, Option, none, some, List, [], ◌∷◌, is_empty,
  Bool-cases, if_ind, if◌then◌else◌,
}
use nebula_grid.Base.Int.{ℤ}
use nebula_grid.Base.Text.{Text}
use nebula_grid.Model.{
  TaskState, is_terminal, is_starting, is_cancelling, cancelling, failed, offline_error, Task,
  TaskAllocation, Node, User, Db, get_task, get_task-id, get_node, get_user, load_open_allocations,
}
use nebula_grid.Response.{Response, ok, error, ServiceError}
use nebula_grid.Executor.Payload.{
  Payload, parse_control_payload, control_payload_matches_launch, is_infrastructure_failure,
}
use nebula_grid.Executor.Finish.{
  Outcome, return, raise, finish_remote_execution_failure, begin_start_failure_cleanup,
}
use nebula_grid.Executor.Effects.{
  IsPresent, Grounds, Quiet, Archives, Step, Returns, returns, Returns-cases, Returns-weaken,
  if-Step, Quiet-refl, Quiet-then, if-Quiet, begin_start_failure-Quiet, mark_untracked-Quiet,
  update_guard-Quiet, finish-Archives, finish_task-Quiet,
}
use nebula_grid.Executor.Evidence.{parsed-code, parsed-raised, parsed-stopped}
use nebula_grid.Executor.Settle.{finalize-Step, wrapper_failure-Step}
use nebula_grid.Executor.Prepare.{
  Settings, RunnerCall, prepare_call, Answer, printed, failure, check_answer,
}
use nebula_grid.Executor.Launch.{
  Launching, settle_or, remote_runner_exited_before_metadata, or_payload, clean_up_failure,
  record_launch, fail_launch, accept_launch, use_answer, finish_launch, abandon_launch,
  abandon_unallocated, mark_overlapping_launch, call_runner, launch_on, launch_by_allocations,
  start_remote_task,
}
use nebula_grid.Executor.Launch.Receipts.{
  IsReceipt, local_status, stdout, output, LaunchEnded, returned, confirmed, exited, IsBadReceipt,
  bad_receipt, settle_or-Returns, record_launch-Step,
}

-- The grounds of an archive, once the runner has answered.
abbrev Ended : Launching → Answer → ℕ → Grounds
Ended l answer launch = record {
  ended = LaunchEnded l answer launch;
  malformed = IsBadReceipt l answer;
}

module _ (l : Launching) (answer : Answer) (task : Task) (allocation : TaskAllocation) (db : Db)
    (h : IsPresent task.id db) where
  abbrev E : Grounds
  E = Ended l answer allocation.id

  -- A control file, or the output of an exception: it counts if it is of this launch.
  settle_parsed-Returns :
      (p : Payload) (rest : Db → Outcome Db)
      → IsReceipt l answer p
      → Returns E task.id db (rest db)
      → Returns E task.id db
          (settle_or task allocation (parse_control_payload p allocation.id) rest db)
  settle_parsed-Returns p rest source other =
      settle_or-Returns E task db h allocation _ rest
        (λ c. confirmed source (parsed-stopped allocation.id p c))
        (λ code e. let (m, v) = parsed-code allocation.id p code e in returned code source m v)
        (λ e. bad_receipt source (parsed-raised allocation.id p e)) other

  clean_up_failure-Step :
      (message : Text) (code : Option ℤ) (p : Payload)
      → answer ≡ failure message code p
      → Step E task.id db (
          clean_up_failure l task allocation message code
            (parse_control_payload p allocation.id)
            db)
  unfolding clean_up_failure finish_remote_execution_failure is_terminal
  clean_up_failure-Step message code p e = Quiet-then E task.id db _ _ q (
      if_ind (Step E task.id _)
        (remote_runner_exited_before_metadata code (
          or_payload (parse_control_payload l.runtime_file allocation.id)
            (parse_control_payload p allocation.id)))
        (λ x. inr (finish-Archives task _ q.present failed code refl, exited e x))
        (λ _.
          inl (update_guard-Quiet (record task { state = cancelling }) _ q.present allocation _)))
    where
      q : Quiet task.id db (
          if is_cancelling task.state
          then db
          else begin_start_failure_cleanup task allocation message db)
      q =
          if-Quiet task.id db _ _ (is_cancelling task.state) (Quiet-refl task.id db h)
            (begin_start_failure-Quiet task db h allocation message)

  fail_launch-Returns :
      (message : Text) (code : Option ℤ) (p : Payload)
      → answer ≡ failure message code p
      → Returns E task.id db (fail_launch l task allocation message code p db)
  unfolding fail_launch
  fail_launch-Returns message code p e = settle_parsed-Returns l.status_file _ local_status (
      settle_parsed-Returns p _ (output e)
        (returns E task.id db _ (clean_up_failure-Step message code p e)))

  accept_launch-Returns :
      (command : Text) (metadata : Payload)
      → answer ≡ printed metadata
      → control_payload_matches_launch metadata allocation.id ≡ true
      → Returns E task.id db (accept_launch l task allocation command metadata db)
  unfolding accept_launch
  accept_launch-Returns command metadata e matches =
      settle_parsed-Returns l.status_file _ local_status (
        if-Step E task.id db
          (is_infrastructure_failure (parse_control_payload l.status_file allocation.id)) _
          (settle_or task allocation metadata record_it db)
          (λ _. returns E task.id db _ (
            wrapper_failure-Step E task db h allocation _
              (λ c. confirmed local_status (parsed-stopped allocation.id l.status_file c))))
          (λ _.
            settle_or-Returns E task db h allocation metadata record_it (confirmed (stdout e))
              (λ code v. returned code (stdout e) matches v) (bad_receipt (stdout e))
              (returns E task.id db _ (
                record_launch-Step E task allocation db h command metadata
                  (confirmed (stdout e))))))
    where
      record_it : Db → Outcome Db
      record_it d = return (record_launch task allocation command metadata d)

-- A checked answer is of the launch.
check_answer-matches :
    (launch : ℕ) (answer : Answer) (metadata : Payload)
    → check_answer launch answer ≡ printed metadata
    → control_payload_matches_launch metadata launch ≡ true
unfolding check_answer
check_answer-matches launch (printed p) metadata e = elim (Bool-cases (is_empty p)) [
  | inl y ↦ let bad : ◌≡◌ {A = Answer} (failure _ none []) (printed metadata) = rw y at e in cc
  | inr n ↦ elim (Bool-cases (control_payload_matches_launch p launch)) [
    | inl m ↦
        let e' : printed p ≡ printed metadata = rw (n, m) at e in
        let same : p ≡ metadata = cc in rw (← same) m
    | inr x ↦
        let bad : ◌≡◌ {A = Answer} (failure _ none []) (printed metadata) = rw (n, x) at e in cc
  ]
]
check_answer-matches launch (failure m c p) metadata e = cc

module _ (l : Launching) (answer : Answer) (allocation : TaskAllocation) (pk : ℕ) (db : Db)
    (matches : (p : Payload)
      → answer ≡ printed p
      → control_payload_matches_launch p allocation.id ≡ true) where
  use_answer-Returns :
      (command : Text) (task : Task)
      → IsPresent task.id db
      → Returns
          (Ended l answer allocation.id)
          task.id
          db
          (use_answer l task allocation command answer db)
  use_answer-Returns command task h = go answer refl
    where
      go :
          (a : Answer)
          → answer ≡ a
          → Returns
              (Ended l answer allocation.id)
              task.id
              db
              (use_answer l task allocation command a db)
      go (printed p) e =
          unfold use_answer in
          accept_launch-Returns l answer task allocation db h command p e (matches p e)
      go (failure m c p) e =
          unfold use_answer in fail_launch-Returns l answer task allocation db h m c p e

  finish_launch-Returns :
      (command : Text) (task : Task)
      → get_task pk db ≡ some task
      → Returns
          (Ended l answer allocation.id)
          pk
          db
          (finish_launch l (some task) allocation command answer db)
  unfolding finish_launch
  finish_launch-Returns command task found =
      let same = get_task-id pk db task found in
      let h : IsPresent task.id db = rw (same, found) refl in
      subst
        (λ k. Returns (Ended l answer allocation.id) k db (
          if is_terminal task.state
          then return db
          else use_answer l task allocation command answer db))
        same
        (if-Step (Ended l answer allocation.id) task.id db (is_terminal task.state) _ _
          (λ _.
            returns (Ended l answer allocation.id) task.id db db (inl (Quiet-refl task.id db h)))
          (λ _. use_answer-Returns command task h))

-- Why a task that starts may be archived: it lacks its allocation, its node, its owner or a directory
-- that its owner may use, so that the runner was not called; or its one launch left no process.
pub data NoProcess (settings : Settings) (l : Launching) (task : Task) (db : Db) : Type 0 where
  unallocated : load_open_allocations task.id db ≡ [] → NoProcess settings l task db
  without_node :
      {a : TaskAllocation}
      → load_open_allocations task.id db ≡ a ∷ []
      → get_node a.node_id db ≡ none
      → NoProcess settings l task db
  without_owner : get_user task.user_id db ≡ none → NoProcess settings l task db
  unprepared :
      {a : TaskAllocation} {owner : User} {e : ServiceError}
      → load_open_allocations task.id db ≡ a ∷ []
      → get_user task.user_id db ≡ some owner
      → prepare_call settings task owner a db ≡ error e
      → NoProcess settings l task db
  ended :
      {a : TaskAllocation} {owner : User} {call : RunnerCall}
      → load_open_allocations task.id db ≡ a ∷ []
      → get_user task.user_id db ≡ some owner
      → prepare_call settings task owner a db ≡ ok call
      → LaunchEnded l (check_answer a.id (l.answer call)) a.id
      → NoProcess settings l task db

-- A payload that was read carries a return code with several signs.
abbrev pub IsBadLaunch : Launching → Type 0
IsBadLaunch l =
    (launch : ℕ) × (call : RunnerCall) × IsBadReceipt l (check_answer launch (l.answer call))

module _ (settings : Settings) (l : Launching) (task : Task) (db : Db) where
  abbrev J : Grounds
  J = record { ended = NoProcess settings l task db; malformed = IsBadLaunch l }

  module _ (d : Db) (row : Task) (found : get_task task.id d ≡ some row) where
    same : row.id ≡ task.id
    same = get_task-id task.id d row found

    h : IsPresent row.id d
    h = rw (same, found) refl

    abandon-Step :
        (allocation : Option TaskAllocation) (final : TaskState)
        → is_terminal final ≡ true
        → NoProcess settings l task db
        → Step J task.id d (abandon_launch (some row) allocation final d)
    unfolding abandon_launch
    abandon-Step allocation final ends why =
        subst (λ k. Step J k d (abandon_launch (some row) allocation final d)) same
          (if_ind (Step J row.id d) (is_starting row.state)
            (λ _. inr (finish-Archives row d h final none ends, why))
            (λ _.
              if_ind (Step J row.id d) (is_cancelling row.state)
                (λ _. finalize-Step J row d h allocation why) (λ _. inl (Quiet-refl row.id d h))))

    abandon_unallocated-Step :
        NoProcess settings l task db → Step J task.id d (abandon_unallocated (some row) d)
    unfolding abandon_unallocated
    abandon_unallocated-Step why =
        subst (λ k. Step J k d (abandon_unallocated (some row) d)) same
          (if_ind (Step J row.id d) (is_starting row.state)
            (λ _. inl (finish_task-Quiet row d h failed none))
            (λ _.
              if_ind (Step J row.id d) (is_cancelling row.state)
                (λ _. finalize-Step J row d h none why) (λ _. inl (Quiet-refl row.id d h))))

    mark_overlapping-Quiet : Quiet task.id d (mark_overlapping_launch (some row) d)
    unfolding mark_overlapping_launch
    mark_overlapping-Quiet =
        subst (λ k. Quiet k d (mark_overlapping_launch (some row) d)) same
          (if-Quiet row.id d _ _ (is_terminal row.state) (Quiet-refl row.id d h)
            (mark_untracked-Quiet _ d h _))

    call_runner-Returns :
        (a : TaskAllocation) (owner : User)
        → load_open_allocations task.id db ≡ a ∷ []
        → get_user task.user_id db ≡ some owner
        → (call : Response RunnerCall) → prepare_call settings task owner a db ≡ call
        → Returns J task.id d (call_runner l task.id a call d)
    unfolding call_runner
    call_runner-Returns a owner one owned (error e) prepared =
        subst (λ o. Returns J task.id d (return (abandon_launch o (some a) failed d))) (sym found)
          (returns J task.id d _ (
            abandon-Step (some a) failed (unfold is_terminal in refl)
              (unprepared one owned prepared)))
    call_runner-Returns a owner one owned (ok call) prepared =
        subst
          (λ o.
            Returns J task.id d
              (finish_launch l o a call.command (check_answer a.id (l.answer call)) d))
          (sym found)
          (Returns-weaken (Ended l (check_answer a.id (l.answer call)) a.id) J task.id d _
            (ended one owned prepared) (λ bad. (a.id, call, bad))
            (finish_launch-Returns l (check_answer a.id (l.answer call)) a task.id d
              (check_answer-matches a.id (l.answer call)) call.command row found))

    abandoned :
        (a : TaskAllocation)
        → l.during db ≡ d
        → NoProcess settings l task db
        → Returns J task.id d (
            return (
              abandon_launch (get_task task.id (l.during db)) (some a) offline_error (l.during db)))
    abandoned a later why =
        subst
          (λ x.
            Returns J task.id d
              (return (abandon_launch (get_task task.id x) (some a) offline_error x)))
          (sym later)
          (subst (λ o. Returns J task.id d (return (abandon_launch o (some a) offline_error d)))
            (sym found)
            (returns J task.id d _
              (abandon-Step (some a) offline_error (unfold is_terminal in refl) why)))

    launch_on-Returns :
        (a : TaskAllocation) (node : Option Node) (owner : Option User)
        → load_open_allocations task.id db ≡ a ∷ []
        → l.during db ≡ d
        → get_node a.node_id db ≡ node
        → get_user task.user_id db ≡ owner
        → Returns J task.id d (launch_on settings l task a node owner db)
    unfolding launch_on
    launch_on-Returns a (some node) (some owner) one later on_node owned =
        subst
          (λ x.
            Returns J task.id d (call_runner l task.id a (prepare_call settings task owner a db) x))
          (sym later) (call_runner-Returns a owner one owned _ refl)
    launch_on-Returns a none owner one later on_node owned =
        abandoned a later (without_node one on_node)
    launch_on-Returns a (some node) none one later on_node owned =
        abandoned a later (without_owner owned)

    launch_by-Returns :
        (allocations : List TaskAllocation)
        → load_open_allocations task.id db ≡ allocations
        → l.during db ≡ d
        → Returns J task.id d (launch_by_allocations settings l task allocations db)
    unfolding launch_by_allocations
    launch_by-Returns [] e later =
        subst (λ x. Returns J task.id d (return (abandon_unallocated (get_task task.id x) x)))
          (sym later)
          (subst (λ o. Returns J task.id d (return (abandon_unallocated o d))) (sym found)
            (returns J task.id d _ (abandon_unallocated-Step (unallocated e))))
    launch_by-Returns (a ∷ []) e later = launch_on-Returns a _ _ e later refl refl
    launch_by-Returns (a ∷ b ∷ rest) e later =
        subst (λ x. Returns J task.id d (return (mark_overlapping_launch (get_task task.id x) x)))
          (sym later)
          (subst (λ o. Returns J task.id d (return (mark_overlapping_launch o d))) (sym found)
            (returns J task.id d _ (inl mark_overlapping-Quiet)))

-- The start of a task in the state `starting`, whose row is still there when it is locked, has one of
-- three outcomes, all against the database that the other sessions left meanwhile. Either it returns
-- a database with the same allocations; or the task has a terminal state, exactly its open
-- allocations were released, and the runner was not called or its one launch left no process; or it
-- raised, and some payload carries a return code with several signs.
pub start_remote_task-safe :
    (settings : Settings) (l : Launching) (task row : Task) (db : Db)
    → is_starting task.state ≡ true
    → get_task task.id (l.during db) ≡ some row
    → ((db' : Db) × (start_remote_task settings l task db ≡ return db')
        × (Quiet task.id (l.during db) db'
            ⊎ Archives task.id (l.during db) db' × NoProcess settings l task db))
      ⊎ ((start_remote_task settings l task db ≡ raise) × IsBadLaunch l)
start_remote_task-safe settings l task row db starts found =
    Returns-cases _ task.id (l.during db) _ (
      subst (Returns (J settings l task db) task.id (l.during db)) (sym eq)
        (launch_by-Returns settings l task db (l.during db) row found _ refl refl))
  where
    eq :
        start_remote_task settings l task db
        ≡ launch_by_allocations settings l task (load_open_allocations task.id db) db
    eq = unfold start_remote_task in rw starts
