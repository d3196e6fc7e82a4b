-- ===== src/Nodes/Paused.antt =====
-- A node that does not answer is given up
-- (backend/app/workers/node_monitor.py).
use nebula_grid.Base.{
  ℕ, ◌+◌, ◌<◌, ◌≡◌, refl, sym, ap, ◌∙◌, subst, Bool, true, false, not, Option, none, some, List, [],
  ◌∷◌, All, length, ltb, Bool-cases, inl, inr, arith, if◌then◌else◌, ◌==◌, if_ind,
}
use mathlib.Core.Option
use nebula_grid.Model.{Node, offline, reconnecting, Db, get_node, first-update_where}
use nebula_grid.Access.{is_control_plane_node}
use nebula_grid.Nodes.Offline.{set_node}
use nebula_grid.Nodes.Monitor.{
  node_monitor_paused, is_watched, target_monitor_paused, mark_node_reconnecting, mark_node_offline,
  Ending, closed, watchdog, failed, next_attempt, Connection, apply_frames, Exit, gave_up, stopped,
  run_connection, run_rounds, run_monitor, unless_paused, start_attempt, end_connection, leave_or,
}

get_node-set_node :
    (pk : ℕ) (f : Node → Node) (db : Db)
    → ((n : Node) → (f n).id ≡ n.id)
    → get_node pk (set_node pk f db) ≡ Option.map f (get_node pk db)
unfolding get_node set_node
get_node-set_node pk f db keep = first-update_where (λ n. n.id == pk) f db.nodes (λ n. rw (keep n))

-- A write that keeps the node watched.
record KeepsWatch (f : Node → Node) : Type 0 where
  same_id : (n : Node) → (f n).id ≡ n.id
  same_role : (n : Node) → is_control_plane_node (f n) ≡ is_control_plane_node n
  not_paused : (n : Node) → node_monitor_paused (f n) ≡ false

watched-set_node :
    (pk : ℕ) (f : Node → Node) (db : Db)
    → KeepsWatch f
    → is_watched (get_node pk db) ≡ true
    → is_watched (get_node pk (set_node pk f db)) ≡ true
unfolding is_watched
watched-set_node pk f db k h =
    subst (λ o. is_watched o ≡ true) (sym (get_node-set_node pk f db k.same_id))
      (go (get_node pk db) h)
  where
    go : (o : Option Node) → is_watched o ≡ true → is_watched (Option.map f o) ≡ true
    go none h = h
    go (some n) h = ground (arith, k.same_role n, k.not_paused n)

reconnecting-KeepsWatch :
    KeepsWatch (λ n. record n { state = reconnecting; scheduling_enabled = false })
unfolding node_monitor_paused is_control_plane_node
reconnecting-KeepsWatch = record {
  same_id = λ n. refl;
  same_role = λ n. refl;
  not_paused = λ n. refl;
}

offline-KeepsWatch : KeepsWatch (λ n. record n { state = offline; scheduling_enabled = true })
unfolding node_monitor_paused is_control_plane_node
offline-KeepsWatch = record { same_id = λ n. refl; same_role = λ n. refl; not_paused = λ n. refl }

mark_reconnecting-watched :
    (pk : ℕ) (db : Db)
    → is_watched (get_node pk db) ≡ true
    → is_watched (get_node pk (mark_node_reconnecting pk db)) ≡ true
unfolding mark_node_reconnecting
mark_reconnecting-watched pk db h = rw h (watched-set_node pk _ db reconnecting-KeepsWatch h)

mark_offline-watched :
    (pk : ℕ) (db : Db)
    → is_watched (get_node pk db) ≡ true
    → is_watched (get_node pk (mark_node_offline pk true db)) ≡ true
unfolding mark_node_offline
mark_offline-watched pk db h = rw h (watched-set_node pk _ db offline-KeepsWatch h)

-- A connection that brings no frame, however it ends.
abbrev brought_nothing : Ending → Bool
brought_nothing (closed got) = not got
brought_nothing (watchdog got) = not got
brought_nothing failed = true

abbrev pub IsSilent : Connection → Type 0
IsSilent c = (c.frames ≡ []) × (brought_nothing c.ending ≡ true)

silent_next :
    (e : Ending) (attempt : ℕ) → brought_nothing e ≡ true → next_attempt e attempt ≡ attempt + 1
unfolding next_attempt
silent_next (closed got) attempt h = ground arith
silent_next (watchdog got) attempt h = ground arith
silent_next failed attempt h = ground arith

start_attempt-watched :
    (pk attempt : ℕ) (db : Db)
    → is_watched (get_node pk db) ≡ true
    → is_watched (get_node pk (start_attempt pk attempt db)) ≡ true
unfolding start_attempt
start_attempt-watched pk attempt db h =
    if_ind (λ d. is_watched (get_node pk d) ≡ true) (ltb 0 attempt)
      (λ _. mark_reconnecting-watched pk db h) (λ _. h)

end_connection-eq :
    (pk : ℕ) (db : Db)
    → is_watched (get_node pk db) ≡ true
    → end_connection pk (true, db) ≡ (true, mark_node_offline pk true db)
unfolding end_connection target_monitor_paused
end_connection-eq pk db h = rw h refl

silent_connection :
    (flags : List Bool) (pk attempt : ℕ) (c : Connection) (db : Db)
    → c.frames ≡ []
    → run_connection flags pk attempt c db ≡ end_connection pk (true, start_attempt pk attempt db)
unfolding run_connection apply_frames
silent_connection flags pk attempt c db e =
    ap (λ fs. end_connection pk (apply_frames flags pk fs (start_attempt pk attempt db))) e

-- The node is offline and may not be scheduled on.
abbrev pub IsGivenUp : ℕ → Db → Type 0
IsGivenUp pk db = (n : Node) × (get_node pk db ≡ some n) × (node_monitor_paused n ≡ true)

give_up :
    (pk : ℕ) (db : Db)
    → is_watched (get_node pk db) ≡ true
    → IsGivenUp pk (mark_node_offline pk false db)
unfolding mark_node_offline node_monitor_paused
give_up pk db h = rw h (go (get_node pk db) refl h)
  where
    paused : Node → Node
    paused n = record n { state = offline; scheduling_enabled = false }

    go :
        (o : Option Node)
        → get_node pk db ≡ o
        → is_watched o ≡ true
        → IsGivenUp pk (set_node pk paused db)
    go none e w = cc
    go (some n) e w =
        (paused n, get_node-set_node pk paused db (λ x. refl) ∙ ap (Option.map paused) e, refl)

-- The thread gave the node up.
abbrev pub GivesUp : ℕ → Exit × Db → Type 0
GivesUp pk r = (r.0 ≡ gave_up) × IsGivenUp pk r.1

leave_late :
    (pk limit attempt : ℕ) (rest : Exit × Db) (db : Db)
    → is_watched (get_node pk db) ≡ true
    → ltb limit attempt ≡ true
    → leave_or pk limit attempt rest db ≡ (gave_up, mark_node_offline pk false db)
unfolding leave_or target_monitor_paused
leave_late pk limit attempt rest db w late = rw (w, late) refl

leave_early :
    (pk limit attempt : ℕ) (rest : Exit × Db) (db : Db)
    → is_watched (get_node pk db) ≡ true
    → ltb limit attempt ≡ false
    → leave_or pk limit attempt rest db ≡ rest
unfolding leave_or target_monitor_paused
leave_early pk limit attempt rest db w early = rw (w, early) refl

starts :
    (pk : ℕ) (rest : Exit × Db) (db : Db)
    → is_watched (get_node pk db) ≡ true
    → unless_paused pk rest db ≡ rest
unfolding unless_paused target_monitor_paused
starts pk rest db w = rw w refl

run_rounds-GivesUp :
    (flags : List Bool) (pk limit attempt : ℕ) (cs : List Connection) (db : Db)
    → is_watched (get_node pk db) ≡ true
    → All IsSilent cs
    → limit < attempt + length cs
    → GivesUp pk (run_rounds flags pk limit attempt cs db)
unfolding run_rounds
run_rounds-GivesUp flags pk limit attempt [] db w silent enough =
    subst (GivesUp pk) (sym (leave_late pk limit attempt _ db w (ground arith)))
      (refl, give_up pk db w)
run_rounds-GivesUp flags pk limit attempt (c ∷ cs) db w silent enough =
    elim (Bool-cases (ltb limit attempt)) [
      | inl late ↦
          subst (GivesUp pk) (sym (leave_late pk limit attempt _ db w late)) (refl, give_up pk db w)
      | inr early ↦ subst (GivesUp pk) (sym (leave_early pk limit attempt _ db w early)) (
          subst (λ r. GivesUp pk (after r)) (sym connected)
            (run_rounds-GivesUp flags pk limit (next_attempt c.ending attempt) cs
              (mark_node_offline pk true start)
              (mark_offline-watched pk start (start_attempt-watched pk attempt db w)) silent.1
              (omega (arith, enough, silent_next c.ending attempt silent.0.1))))
    ]
  where
    start : Db
    start = start_attempt pk attempt db

    after : Bool × Db → Exit × Db
    after r =
        if r.0
        then run_rounds flags pk limit (next_attempt c.ending attempt) cs r.1
        else (stopped, r.1)

    connected : run_connection flags pk attempt c db ≡ (true, mark_node_offline pk true start)
    connected =
        silent_connection flags pk attempt c db silent.0.0
        ∙ end_connection-eq pk start (start_attempt-watched pk attempt db w)

-- A node that is watched and sends no frame is given up: with more connections than the limit of
-- attempts the thread ends by giving up, and leaves the node offline and paused.
pub run_monitor-GivesUp :
    (flags : List Bool) (pk limit : ℕ) (cs : List Connection) (db : Db)
    → is_watched (get_node pk db) ≡ true
    → All IsSilent cs
    → limit < length cs
    → GivesUp pk (run_monitor flags pk limit cs db)
unfolding run_monitor
run_monitor-GivesUp flags pk limit cs db w silent enough =
    subst (GivesUp pk) (sym (starts pk _ db w)) (
      run_rounds-GivesUp flags pk limit 0 cs (mark_node_reconnecting pk db)
        (mark_reconnecting-watched pk db w) silent (omega (arith, enough)))
