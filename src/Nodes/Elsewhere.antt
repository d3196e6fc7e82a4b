-- ===== src/Nodes/Elsewhere.antt =====
-- What the thread that watches a node leaves alone (backend/app/workers/node_monitor.py).
use nebula_grid.Base.{
  ℕ, ◌≡◌, refl, ◌∙◌, subst, Bool, true, false, not, ◌||◌, some, List, [], ◌∷◌, ltb, Option-cases,
  inl, inr, arith, ◌==◌, ==_iff, if_ind,
}
use nebula_grid.Model.{Node, online, Db, get_node, first-holds, first-update_apart}
use nebula_grid.Nodes.Offline.{set_node}
use nebula_grid.Nodes.Monitor.{
  is_watched, target_monitor_paused, mark_node_reconnecting, mark_node_offline, Frame, Connection,
  apply_monitor_payload, apply_monitor_payload_to_node, apply_to_watched, apply_frames, Exit,
  still_running, run_connection, run_rounds, run_monitor, unless_paused, start_attempt,
  end_connection, leave_or, next_attempt, sync_gpu_inventory,
}

-- Every other node has its row as before, and so have the tasks, their allocations and the accounts.
pub record OnlyNode (pk : ℕ) (db db' : Db) : Type 0 where
  pub others : (k : ℕ) → (k == pk) ≡ false → get_node k db' ≡ get_node k db
  pub same_tasks : db'.tasks ≡ db.tasks
  pub same_allocations : db'.task_allocations ≡ db.task_allocations
  pub same_guards : db'.task_runtime_guards ≡ db.task_runtime_guards

OnlyNode-refl : (pk : ℕ) (db : Db) → OnlyNode pk db db
OnlyNode-refl pk db = record {
  others = λ k h. refl;
  same_tasks = refl;
  same_allocations = refl;
  same_guards = refl;
}

OnlyNode-trans : (pk : ℕ) (a b c : Db) → OnlyNode pk a b → OnlyNode pk b c → OnlyNode pk a c
OnlyNode-trans pk a b c h g = record {
  others = λ k apart. g.others k apart ∙ h.others k apart;
  same_tasks = g.same_tasks ∙ h.same_tasks;
  same_allocations = g.same_allocations ∙ h.same_allocations;
  same_guards = g.same_guards ∙ h.same_guards;
}

apart_keys : (k pk a : ℕ) → (k == pk) ≡ false → (a == pk) ≡ true → (a == k) ≡ false
apart_keys k pk a h e = ground (arith, h, e)

set_node-OnlyNode :
    (pk : ℕ) (f : Node → Node) (db : Db)
    → ((n : Node) → (f n).id ≡ n.id)
    → OnlyNode pk db (set_node pk f db)
unfolding set_node get_node
set_node-OnlyNode pk f db keep = record {
  others = λ k h.
      first-update_apart (λ n. n.id == k) (λ n. n.id == pk) f db.nodes (λ n. rw (keep n) refl)
        (λ n e. apart_keys k pk n.id h e);
  same_tasks = refl;
  same_allocations = refl;
  same_guards = refl;
}

mark_reconnecting-OnlyNode : (pk : ℕ) (db : Db) → OnlyNode pk db (mark_node_reconnecting pk db)
unfolding mark_node_reconnecting
mark_reconnecting-OnlyNode pk db =
    if_ind (OnlyNode pk db) (is_watched (get_node pk db))
      (λ _. set_node-OnlyNode pk _ db (λ n. refl)) (λ _. OnlyNode-refl pk db)

mark_offline-OnlyNode :
    (pk : ℕ) (retryable : Bool) (db : Db) → OnlyNode pk db (mark_node_offline pk retryable db)
unfolding mark_node_offline
mark_offline-OnlyNode pk retryable db =
    if_ind (OnlyNode pk db) (is_watched (get_node pk db))
      (λ _. set_node-OnlyNode pk _ db (λ n. refl)) (λ _. OnlyNode-refl pk db)

payload-OnlyNode :
    (flags : List Bool) (node : Node) (frame : Frame) (db : Db)
    → OnlyNode node.id db (apply_monitor_payload_to_node flags node frame db)
unfolding apply_monitor_payload_to_node get_node
payload-OnlyNode flags node frame db =
    let (gpus, next_id) = sync_gpu_inventory flags frame.gpus (node.gpus, db.next_id) in
    let only =
      set_node-OnlyNode node.id
        (λ n. record n { state = online; scheduling_enabled = true; gpus = gpus }) db (λ n. refl) in
    record {
      others = only.others;
      same_tasks = only.same_tasks;
      same_allocations = only.same_allocations;
      same_guards = only.same_guards;
    }

module _ (flags : List Bool) (pk : ℕ) where
  apply-OnlyNode :
      (frame : Frame) (db : Db) → OnlyNode pk db (apply_monitor_payload flags pk frame db).1
  unfolding apply_monitor_payload apply_to_watched get_node
  apply-OnlyNode frame db = elim (Option-cases (get_node pk db)) [
    | inl n ↦ rw n (OnlyNode-refl pk db)
    | inr (node, found) ↦ rw found (
        if_ind (λ (r : Bool × Db). OnlyNode pk db r.1) (is_watched (some node))
          (λ _.
            subst (λ k. OnlyNode k db (apply_monitor_payload_to_node flags node frame db))
              ((==_iff node.id pk).0 (first-holds (λ n. n.id == pk) db.nodes node found))
              (payload-OnlyNode flags node frame db))
          (λ _. OnlyNode-refl pk db))
  ]

  frames-OnlyNode :
      (frames : List Frame) (db : Db) → OnlyNode pk db (apply_frames flags pk frames db).1
  unfolding apply_frames
  frames-OnlyNode [] db = OnlyNode-refl pk db
  frames-OnlyNode (frame ∷ frames) db =
      let db1 = (apply_monitor_payload flags pk frame db).1 in
      let first_one = apply-OnlyNode frame db in
      if_ind (λ (r : Bool × Db). OnlyNode pk db r.1) (apply_monitor_payload flags pk frame db).0
        (λ _. OnlyNode-trans pk db db1 _ first_one (frames-OnlyNode frames db1)) (λ _. first_one)

  start-OnlyNode : (attempt : ℕ) (db : Db) → OnlyNode pk db (start_attempt pk attempt db)
  unfolding start_attempt
  start-OnlyNode attempt db =
      if_ind (OnlyNode pk db) (ltb 0 attempt) (λ _. mark_reconnecting-OnlyNode pk db)
        (λ _. OnlyNode-refl pk db)

  end-OnlyNode : (r : Bool × Db) → OnlyNode pk r.1 (end_connection pk r).1
  unfolding end_connection
  end-OnlyNode (goes_on, db) =
      if_ind (λ (r : Bool × Db). OnlyNode pk db r.1) (not goes_on || target_monitor_paused pk db)
        (λ _. OnlyNode-refl pk db) (λ _. mark_offline-OnlyNode pk true db)

  connection-OnlyNode :
      (attempt : ℕ) (c : Connection) (db : Db)
      → OnlyNode pk db (run_connection flags pk attempt c db).1
  unfolding run_connection
  connection-OnlyNode attempt c db =
      let db1 = start_attempt pk attempt db in
      let r = apply_frames flags pk c.frames db1 in
      OnlyNode-trans pk db db1 _ (start-OnlyNode attempt db)
        (OnlyNode-trans pk db1 r.1 _ (frames-OnlyNode c.frames db1) (end-OnlyNode r))

  leave-OnlyNode :
      (limit attempt : ℕ) (rest : Exit × Db) (db : Db)
      → OnlyNode pk db rest.1
      → OnlyNode pk db (leave_or pk limit attempt rest db).1
  unfolding leave_or
  leave-OnlyNode limit attempt rest db h =
      if_ind (λ (r : Exit × Db). OnlyNode pk db r.1) (target_monitor_paused pk db)
        (λ _. OnlyNode-refl pk db)
        (λ _.
          if_ind (λ (r : Exit × Db). OnlyNode pk db r.1) (ltb limit attempt)
            (λ _. mark_offline-OnlyNode pk false db) (λ _. h))

  rounds-OnlyNode :
      (limit attempt : ℕ) (cs : List Connection) (db : Db)
      → OnlyNode pk db (run_rounds flags pk limit attempt cs db).1
  unfolding run_rounds
  rounds-OnlyNode limit attempt [] db =
      leave-OnlyNode limit attempt (still_running, db) db (OnlyNode-refl pk db)
  rounds-OnlyNode limit attempt (c ∷ cs) db =
      let r = run_connection flags pk attempt c db in
      let once = connection-OnlyNode attempt c db in
      leave-OnlyNode limit attempt _ db (
        if_ind (λ (x : Exit × Db). OnlyNode pk db x.1) r.0
          (λ _.
            OnlyNode-trans pk db r.1 _ once
              (rounds-OnlyNode limit (next_attempt c.ending attempt) cs r.1))
          (λ _. once))

-- The thread that watches a node changes the row of no other node, and no task, allocation or guard,
-- whatever its connections bring and however they end.
pub run_monitor-OnlyNode :
    (flags : List Bool) (pk limit : ℕ) (cs : List Connection) (db : Db)
    → OnlyNode pk db (run_monitor flags pk limit cs db).1
unfolding run_monitor unless_paused
run_monitor-OnlyNode flags pk limit cs db =
    let db1 = mark_node_reconnecting pk db in
    if_ind (λ (r : Exit × Db). OnlyNode pk db r.1) (target_monitor_paused pk db)
      (λ _. OnlyNode-refl pk db)
      (λ _.
        OnlyNode-trans pk db db1 _ (mark_reconnecting-OnlyNode pk db)
          (rounds-OnlyNode flags pk limit 0 cs db1))
