-- ===== src/Runner/Group.antt =====
-- The end of a process group on a node (backend/app/remote/runner.py). What the scans of /proc and the
-- signals meet is an argument.
use nebula_grid.Base.{
  ℕ, Bool, true, false, ◌&&◌, not, Option, none, some, List, [], ◌∷◌, ◌==◌, ◌≡◌, refl, inl, inr,
  All, Any, arith, ◌++◌, ◌⊎◌, ◌↔◌, Bool-cases, if◌then◌else◌,
}

-- An entry of /proc: no process, a process with its group and whether it is a zombie, one that is gone,
-- or one that cannot be read or parsed.
pub data Entry : Type 0 where
  other gone unreadable : Entry
  stat : ℕ → Bool → Entry

-- A listing of /proc, unless it fails.
abbrev pub Scan : Type 0
Scan = Option (List Entry)

pub data GroupState : Type 0 where
  live empty unknown : GroupState

unfoldable pub state_of_entries : ℕ → List Entry → GroupState
state_of_entries group [] = empty
state_of_entries group (other ∷ entries) = state_of_entries group entries
state_of_entries group (gone ∷ entries) = state_of_entries group entries
state_of_entries group (unreadable ∷ entries) = unknown
state_of_entries group (stat member zombie ∷ entries) =
    let rest = state_of_entries group entries in
    if member == group && not zombie then live else rest

unfoldable pub process_group_state : ℕ → Scan → GroupState
unfolding state_of_entries
process_group_state group none = unknown
process_group_state group (some entries) = state_of_entries group entries

abbrev pub is_empty_state : GroupState → Bool
is_empty_state empty = true
is_empty_state _ = false

unfoldable pub process_group_has_live_members : ℕ → Scan → Bool
unfolding process_group_state
process_group_has_live_members group scan = not (is_empty_state (process_group_state group scan))

-- What `os.killpg` does.
pub data Signal : Type 0 where
  sent no_such_process not_permitted : Signal

-- The scans of one wait: those before the deadline, and the one after it.
pub record Wait : Type 0 where
  pub polls : List Scan
  pub last : Scan

pub record Signals : Type 0 where
  pub before : Scan
  pub terminate : Signal
  pub after_terminate : Wait
  pub kill : Signal
  pub after_kill : Wait

unfoldable pub wait_for_process_group_exit : ℕ → List Scan → Scan → Bool
unfolding process_group_has_live_members
wait_for_process_group_exit group [] last = not (process_group_has_live_members group last)
wait_for_process_group_exit group (scan ∷ polls) last =
    let rest = wait_for_process_group_exit group polls last in
    if not (process_group_has_live_members group scan) then true else rest

-- After a signal: the next step where the group does not end in time.
unfoldable pub after_signal : ℕ → Signal → Wait → Bool → Bool
unfolding wait_for_process_group_exit
after_signal group sent wait next =
    if wait_for_process_group_exit group wait.polls wait.last then true else next
after_signal group no_such_process wait next = not (process_group_has_live_members group wait.last)
after_signal group not_permitted wait next = false

unfoldable pub terminate_process_group : ℕ → Signals → Bool
unfolding after_signal
terminate_process_group group s =
    if not (process_group_has_live_members group s.before)
    then true
    else after_signal group s.terminate s.after_terminate
        (after_signal group s.kill s.after_kill false)

-- An entry that leaves no live member of the group.
abbrev pub IsIdle : ℕ → Entry → Type 0
IsIdle group (stat member zombie) = (member == group && not zombie) ≡ false
IsIdle group unreadable = true ≡ false
IsIdle group _ = true ≡ true

-- A scan that was read to its end and has no live member of the group.
abbrev pub ShowsEmpty : ℕ → Scan → Type 0
ShowsEmpty group none = ⊥
ShowsEmpty group (some entries) = All (IsIdle group) entries

-- What must be seen after a signal: an empty group in one of the scans of the wait, or in the scan that
-- follows at once where the group is gone.
abbrev pub EndsAfter : ℕ → Signal → Wait → Type 0
EndsAfter group sent wait = Any (ShowsEmpty group) (wait.polls ++ wait.last ∷ [])
EndsAfter group no_such_process wait = ShowsEmpty group wait.last
EndsAfter group not_permitted wait = ⊥

-- The evidence that a group has ended, in the scans that one attempt to end it makes.
abbrev pub IsEmptied : ℕ → Signals → Type 0
IsEmptied group s =
    ShowsEmpty group s.before
    ⊎ (EndsAfter group s.terminate s.after_terminate
        ⊎ ((s.terminate ≡ sent) × EndsAfter group s.kill s.after_kill))

IsIdle-entries :
    (group : ℕ) (entries : List Entry)
    → is_empty_state (state_of_entries group entries) ≡ true
    → All (IsIdle group) entries
unfolding state_of_entries
IsIdle-entries group [] e = tt
IsIdle-entries group (other ∷ entries) e = (refl, IsIdle-entries group entries e)
IsIdle-entries group (gone ∷ entries) e = (refl, IsIdle-entries group entries e)
IsIdle-entries group (unreadable ∷ entries) e = cc
IsIdle-entries group (stat member zombie ∷ entries) e =
    elim (Bool-cases (member == group && not zombie)) [
      | inl y ↦ let bad : false ≡ true = rw y at e in cc
      | inr n ↦ (n, IsIdle-entries group entries (rw n at e))
    ]

entries-empty :
    (group : ℕ) (entries : List Entry)
    → All (IsIdle group) entries
    → state_of_entries group entries ≡ empty
unfolding state_of_entries
entries-empty group [] h = refl
entries-empty group (other ∷ entries) h = entries-empty group entries h.1
entries-empty group (gone ∷ entries) h = entries-empty group entries h.1
entries-empty group (unreadable ∷ entries) h = let bad : true ≡ false = h.0 in cc
entries-empty group (stat member zombie ∷ entries) h = rw h.0 (entries-empty group entries h.1)

scan-ShowsEmpty :
    (group : ℕ) (scan : Scan)
    → process_group_has_live_members group scan ≡ false
    → ShowsEmpty group scan
unfolding process_group_has_live_members process_group_state
scan-ShowsEmpty group none e = cc
scan-ShowsEmpty group (some entries) e = IsIdle-entries group entries (ground (arith, e))

ShowsEmpty-scan :
    (group : ℕ) (scan : Scan)
    → ShowsEmpty group scan
    → process_group_has_live_members group scan ≡ false
unfolding process_group_has_live_members process_group_state
ShowsEmpty-scan group none h = absurd h
ShowsEmpty-scan group (some entries) h = rw (entries-empty group entries h) refl

wait-ShowsEmpty :
    (group : ℕ) (polls : List Scan) (last : Scan)
    → wait_for_process_group_exit group polls last ≡ true
    → Any (ShowsEmpty group) (polls ++ last ∷ [])
unfolding wait_for_process_group_exit
wait-ShowsEmpty group [] last e = inl (scan-ShowsEmpty group last (ground (arith, e)))
wait-ShowsEmpty group (scan ∷ polls) last e =
    elim (Bool-cases (process_group_has_live_members group scan)) [
      | inl y ↦ inr (wait-ShowsEmpty group polls last (ground (arith, y, e)))
      | inr n ↦ inl (scan-ShowsEmpty group scan n)
    ]

ShowsEmpty-wait :
    (group : ℕ) (polls : List Scan) (last : Scan)
    → Any (ShowsEmpty group) (polls ++ last ∷ [])
    → wait_for_process_group_exit group polls last ≡ true
unfolding wait_for_process_group_exit
ShowsEmpty-wait group [] last (inl h) = rw (ShowsEmpty-scan group last h) refl
ShowsEmpty-wait group [] last (inr h) = absurd h
ShowsEmpty-wait group (scan ∷ polls) last (inl h) = rw (ShowsEmpty-scan group scan h) refl
ShowsEmpty-wait group (scan ∷ polls) last (inr h) =
    let later = ShowsEmpty-wait group polls last h in ground (arith, later)

-- A signal ends the group, or the next step is taken after one that was sent.
after_signal-EndsAfter :
    (group : ℕ) (signal : Signal) (wait : Wait) (next : Bool)
    → after_signal group signal wait next ≡ true
    → EndsAfter group signal wait ⊎ ((signal ≡ sent) × (next ≡ true))
unfolding after_signal
after_signal-EndsAfter group sent wait next e =
    elim (Bool-cases (wait_for_process_group_exit group wait.polls wait.last)) [
      | inl y ↦ inl (wait-ShowsEmpty group wait.polls wait.last y)
      | inr n ↦ inr (refl, rw n at e)
    ]
after_signal-EndsAfter group no_such_process wait next e =
    inl (scan-ShowsEmpty group wait.last (ground (arith, e)))
after_signal-EndsAfter group not_permitted wait next e = cc

EndsAfter-after_signal :
    (group : ℕ) (signal : Signal) (wait : Wait) (next : Bool)
    → EndsAfter group signal wait
    → after_signal group signal wait next ≡ true
unfolding after_signal
EndsAfter-after_signal group sent wait next h =
    rw (ShowsEmpty-wait group wait.polls wait.last h) refl
EndsAfter-after_signal group no_such_process wait next h =
    rw (ShowsEmpty-scan group wait.last h) refl
EndsAfter-after_signal group not_permitted wait next h = absurd h

next-after_signal :
    (group : ℕ) (signal : Signal) (wait : Wait) (next : Bool)
    → signal ≡ sent
    → next ≡ true
    → after_signal group signal wait next ≡ true
unfolding after_signal
next-after_signal group signal wait next same h = rw (same, h) (ground arith)

terminate-IsEmptied :
    (group : ℕ) (s : Signals) → terminate_process_group group s ≡ true → IsEmptied group s
unfolding terminate_process_group
terminate-IsEmptied group s e = elim (Bool-cases (process_group_has_live_members group s.before)) [
  | inr n ↦ inl (scan-ShowsEmpty group s.before n)
  | inl y ↦
      elim (after_signal-EndsAfter group s.terminate s.after_terminate
        (after_signal group s.kill s.after_kill false) (rw y at e)) [
          | inl h ↦ inr (inl h)
          | inr (was_sent, e') ↦ elim (after_signal-EndsAfter group s.kill s.after_kill false e') [
            | inl h ↦ inr (inr (was_sent, h))
            | inr (_, bad) ↦ cc
          ]
        ]
]

IsEmptied-terminate :
    (group : ℕ) (s : Signals) → IsEmptied group s → terminate_process_group group s ≡ true
unfolding terminate_process_group
IsEmptied-terminate group s (inl h) = rw (ShowsEmpty-scan group s.before h) refl
IsEmptied-terminate group s (inr (inl h)) =
    let ends =
      EndsAfter-after_signal group s.terminate s.after_terminate
        (after_signal group s.kill s.after_kill false) h in
    ground (arith, ends)
IsEmptied-terminate group s (inr (inr (was_sent, h))) =
    let ends =
      next-after_signal group s.terminate s.after_terminate
        (after_signal group s.kill s.after_kill false) was_sent
        (EndsAfter-after_signal group s.kill s.after_kill false h) in
    ground (arith, ends)

-- A process group is reported as ended exactly if a scan that was read to its end and has no live
-- member of the group is met: before any signal, in a wait after a signal that was sent, or at once
-- after a signal that found no process; after the second signal only where the first one was sent.
pub terminate_process_group-IsEmptied :
    (group : ℕ) (s : Signals) → (terminate_process_group group s ≡ true) ↔ IsEmptied group s
terminate_process_group-IsEmptied group s =
    (terminate-IsEmptied group s, IsEmptied-terminate group s)
