-- ===== src/Executor/Effects.antt =====
-- What a step of the executor may do to a task and to the allocations: a vocabulary for the proofs
-- about backend/app/workers/task_executor.py, and the effect of each write of `Finish`.
use nebula_grid.Base.{
  ℕ, ◌≡◌, refl, ap, ◌∙◌, ◌⊎◌, inl, inr, Bool, true, false, Option, none, some, [], is_some,
  Option-cases, if◌then◌else◌,
}
use mathlib.Core.Option
use mathlib.Core.Path.{ap₂}
use nebula_grid.Base.Table.{update_where}
use nebula_grid.Base.Int.{ℤ}
use nebula_grid.Base.Text.{Text}
use nebula_grid.Model.{
  TaskState, is_terminal, cancelling, GuardState, as_task, cancel_failed, EventType, of_state,
  cancel_failed_event, TaskRuntimeGuard, Task, TaskAllocation, update_task_duration, Db, get_task,
  set_task, set_guard, set_guard_state, release_task_allocations, add_task_event, find_guard,
  get_task-set_task, is_open_for,
}
use nebula_grid.Executor.Payload.{Payload}
use nebula_grid.Executor.Finish.{
  Outcome, return, raise, finish_task, ensure_guard, update_guard_from_metadata,
  begin_start_failure_cleanup, mark_stop_retry, mark_untracked_stop_retry, start_failure_reason,
  stop_retry_reason,
}

abbrev pub IsPresent : ℕ → Db → Type 0
IsPresent pk db = is_some (get_task pk db) ≡ true

-- No allocation is touched, and the task stays in its table.
pub record Quiet (pk : ℕ) (db db' : Db) : Type 0 where
  pub same_now : db'.now ≡ db.now
  pub same_allocations : db'.task_allocations ≡ db.task_allocations
  pub present : IsPresent pk db'

-- The task has a terminal state, and exactly its open allocations were released.
pub record Archives (pk : ℕ) (db db' : Db) : Type 0 where
  pub released : db'.task_allocations ≡ (release_task_allocations pk db).task_allocations
  pub task : Task
  pub found : get_task pk db' ≡ some task
  pub ended : is_terminal task.state ≡ true

-- What an archive must rest on, and what must be wrong where the executor raises.
pub record Grounds : Type 1 where
  pub ended : Type 0
  pub malformed : Type 0

abbrev pub Step : Grounds → ℕ → Db → Db → Type 0
Step E pk db db' = Quiet pk db db' ⊎ Archives pk db db' × E.ended

pub Quiet-refl : (pk : ℕ) (db : Db) → IsPresent pk db → Quiet pk db db
Quiet-refl pk db h = record { same_now = refl; same_allocations = refl; present = h }

pub released_of-eq :
    (pk : ℕ) (a b : Db)
    → b.now ≡ a.now
    → b.task_allocations ≡ a.task_allocations
    → (release_task_allocations pk b).task_allocations
      ≡ (release_task_allocations pk a).task_allocations
unfolding release_task_allocations
released_of-eq pk a b n e =
    ap₂ (λ t xs. update_where (is_open_for pk) (λ x. record x { released_at = some t }) xs) n e

pub Quiet-then : (E : Grounds) (pk : ℕ) (a b c : Db) → Quiet pk a b → Step E pk b c → Step E pk a c
Quiet-then E pk a b c p (inl q) = inl (record {
  same_now = q.same_now ∙ p.same_now;
  same_allocations = q.same_allocations ∙ p.same_allocations;
  present = q.present;
})
Quiet-then E pk a b c p (inr (q, e)) = inr (
  record {
    released = q.released ∙ released_of-eq pk a b p.same_now p.same_allocations;
    task = q.task;
    found = q.found;
    ended = q.ended;
  },
  e,
)

-- What holds of a result. It is shut, so that a proof follows the code's shape.
pub Returns : Grounds → ℕ → Db → Outcome Db → Type 0
Returns E pk db (return db') = Step E pk db db'
Returns E pk db raise = E.malformed

pub Returns-weaken :
    (E F : Grounds) (pk : ℕ) (db : Db) (o : Outcome Db)
    → (E.ended → F.ended)
    → (E.malformed → F.malformed)
    → Returns E pk db o
    → Returns F pk db o
unfolding Returns
Returns-weaken E F pk db (return d) f g (inl q) = inl q
Returns-weaken E F pk db (return d) f g (inr (q, e)) = inr (q, f e)
Returns-weaken E F pk db raise f g m = g m

module _ (E : Grounds) (pk : ℕ) (db : Db) where
  pub returns : (db' : Db) → Step E pk db db' → Returns E pk db (return db')
  unfolding Returns
  returns db' s = s

  -- The statement, for a result that is at hand.
  pub Returns-cases :
      (o : Outcome Db)
      → Returns E pk db o
      → ((db' : Db) × (o ≡ return db') × Step E pk db db') ⊎ ((o ≡ raise) × E.malformed)
  unfolding Returns
  Returns-cases (return d) s = inl (d, refl, s)
  Returns-cases raise m = inr (refl, m)

  pub raises : E.malformed → Returns E pk db raise
  unfolding Returns
  raises m = m

  -- A test in the code: both branches.
  pub if-Step :
      (c : Bool) (a b : Outcome Db)
      → (c ≡ true → Returns E pk db a)
      → (c ≡ false → Returns E pk db b)
      → Returns E pk db (if c then a else b)
  if-Step true a b yes_case no_case = yes_case refl
  if-Step false a b yes_case no_case = no_case refl

  pub Returns-then :
      (b : Db) (o : Outcome Db) → Quiet pk db b → Returns E pk b o → Returns E pk db o
  unfolding Returns
  Returns-then b (return c) q s = Quiet-then E pk db b c q s
  Returns-then b raise q s = s

module _ (pk : ℕ) (f : Task → Task) (db db' : Db) (keep : (t : Task) → (f t).id ≡ t.id)
    (h : IsPresent pk db) (written : get_task pk db' ≡ get_task pk (set_task pk f db)) where
  found_row :
      (t : Task) × (get_task pk db ≡ some t) × (get_task pk db' ≡ some (update_task_duration (f t)))
  found_row = elim (Option-cases (get_task pk db)) [
    | inl e ↦ cc
    | inr (t, e) ↦ (t, e, written ∙ get_task-set_task pk f db keep ∙ ap (Option.map _) e)
  ]

  pub set-Quiet : db'.now ≡ db.now → db'.task_allocations ≡ db.task_allocations → Quiet pk db db'
  set-Quiet n a =
      let (t, e, e') = found_row in
      record { same_now = n; same_allocations = a; present = ap is_some e' }

  pub set-Archives :
      db'.task_allocations ≡ (release_task_allocations pk db).task_allocations
      → ((t : Task) → is_terminal (f t).state ≡ true)
      → Archives pk db db'
  unfolding update_task_duration
  set-Archives a ends =
      let (t, e, e') = found_row in
      record { released = a; task = update_task_duration (f t); found = e'; ended = ends t }

pub Quiet-trans : (pk : ℕ) (a b c : Db) → Quiet pk a b → Quiet pk b c → Quiet pk a c
Quiet-trans pk a b c p q = record {
  same_now = q.same_now ∙ p.same_now;
  same_allocations = q.same_allocations ∙ p.same_allocations;
  present = q.present;
}

pub if-Quiet :
    (pk : ℕ) (db a b : Db) (c : Bool)
    → Quiet pk db a
    → Quiet pk db b
    → Quiet pk db (if c then a else b)
if-Quiet pk db a b true p q = p
if-Quiet pk db a b false p q = q

module _ (pk : ℕ) (db : Db) (h : IsPresent pk db) where
  pub set_task-Quiet :
      (f : Task → Task) → ((t : Task) → (f t).id ≡ t.id) → Quiet pk db (set_task pk f db)
  set_task-Quiet f keep =
      set-Quiet pk f db (set_task pk f db) keep h refl (unfold set_task in refl)
        (unfold set_task in refl)

  pub add_task_event-Quiet :
      (k : ℕ) (kind : EventType) (actor : Option ℕ) → Quiet pk db (add_task_event k kind actor db)
  unfolding add_task_event get_task
  add_task_event-Quiet k kind actor = record {
    same_now = refl;
    same_allocations = refl;
    present = h;
  }

  pub set_guard-Quiet :
      (k : ℕ) (f : TaskRuntimeGuard → TaskRuntimeGuard) → Quiet pk db (set_guard k f db)
  unfolding set_guard get_task
  set_guard-Quiet k f = record { same_now = refl; same_allocations = refl; present = h }

  pub set_guard_state-Quiet : (k : ℕ) (s : GuardState) → Quiet pk db (set_guard_state k s db)
  unfolding set_guard_state
  set_guard_state-Quiet k s = set_guard-Quiet k (λ g. record g { state = s })

module _ (task : Task) (db : Db) (h : IsPresent task.id db) where
  -- Ending a task and releasing its allocations.
  pub finish-Archives :
      (final : TaskState) (code : Option ℤ)
      → is_terminal final ≡ true
      → Archives task.id db (release_task_allocations task.id (finish_task task final code db))
  unfolding finish_task set_guard_state add_task_event release_task_allocations get_task set_task
  finish-Archives final code ends =
      set-Archives task.id
        (λ t. record t {
          state = final;
          finished_at = some db.now;
          return_code = code;
          last_block_reason = [];
        })
        db _ (λ t. refl) h refl refl (λ t. ends)

  -- Ending a task alone releases nothing.
  pub finish_task-Quiet :
      (final : TaskState) (code : Option ℤ) → Quiet task.id db (finish_task task final code db)
  unfolding finish_task set_guard_state add_task_event get_task set_task
  finish_task-Quiet final code =
      set-Quiet task.id
        (λ t. record t {
          state = final;
          finished_at = some db.now;
          return_code = code;
          last_block_reason = [];
        })
        db _ (λ t. refl) h refl refl refl

  ensure_guard-Quiet :
      (allocation : TaskAllocation) → Quiet task.id db (ensure_guard task allocation db)
  unfolding ensure_guard get_task
  ensure_guard-Quiet allocation = elim (Option-cases (find_guard task.id db)) [
    | inl e ↦
        rw (e, ensure_guard) (record { same_now = refl; same_allocations = refl; present = h })
    | inr (g, e) ↦ rw (e, ensure_guard) (Quiet-refl task.id db h)
  ]

module _ (task : Task) (db : Db) (h : IsPresent task.id db) where
  pub update_guard-Quiet :
      (allocation : TaskAllocation) (metadata : Payload)
      → Quiet task.id db (update_guard_from_metadata task allocation metadata db)
  unfolding update_guard_from_metadata
  update_guard-Quiet allocation metadata =
      let q = ensure_guard-Quiet task db h allocation in
      Quiet-trans task.id db _ _ q (set_guard-Quiet task.id _ q.present task.id _)

  pub begin_start_failure-Quiet :
      (allocation : TaskAllocation) (error : Text)
      → Quiet task.id db (begin_start_failure_cleanup task allocation error db)
  unfolding begin_start_failure_cleanup
  begin_start_failure-Quiet allocation error =
      let a =
        set_task-Quiet task.id db h
          (λ t. record t {
            state = cancelling;
            finished_at = none;
            return_code = none;
            last_block_reason = start_failure_reason error;
          })
          (λ t. refl) in
      let b = ensure_guard-Quiet task _ a.present allocation in
      let c = set_guard_state-Quiet task.id _ b.present task.id (as_task cancelling) in
      let d = add_task_event-Quiet task.id _ c.present task.id (of_state cancelling) none in
      Quiet-trans task.id db _ _ a (Quiet-trans task.id _ _ _ b (Quiet-trans task.id _ _ _ c d))

  pub mark_untracked-Quiet :
      (error : Text) → Quiet task.id db (mark_untracked_stop_retry task error db)
  unfolding mark_untracked_stop_retry
  mark_untracked-Quiet error =
      let reason = stop_retry_reason task.last_block_reason error in
      let a =
        set_task-Quiet task.id db h
          (λ t. record t { state = cancelling; finished_at = none; last_block_reason = reason })
          (λ t. refl) in
      let b = set_guard_state-Quiet task.id _ a.present task.id cancel_failed in
      let c = add_task_event-Quiet task.id _ b.present task.id cancel_failed_event none in
      let ab = Quiet-trans task.id db _ _ a b in
      if-Quiet task.id db _ _ _ ab (Quiet-trans task.id db _ _ ab c)

  pub mark_stop_retry-Quiet :
      (allocation : TaskAllocation) → Quiet task.id db (mark_stop_retry task allocation db)
  unfolding mark_stop_retry
  mark_stop_retry-Quiet allocation =
      let a = ensure_guard-Quiet task db h allocation in
      let b = set_guard_state-Quiet task.id _ a.present task.id cancel_failed in
      let c =
        set_task-Quiet task.id _ b.present
          (λ t. record t { state = cancelling; finished_at = none }) (λ t. refl) in
      let d = add_task_event-Quiet task.id _ c.present task.id cancel_failed_event none in
      let abc = Quiet-trans task.id db _ _ a (Quiet-trans task.id _ _ _ b c) in
      if-Quiet task.id db _ _ _ (Quiet-trans task.id db _ _ abc d) abc
