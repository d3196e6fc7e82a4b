-- ===== src/RuntimeGuard/Processes/Reach.antt =====
-- `expand_pid_tree` ends, and finds exactly the descendants of the root
-- (backend/app/workers/runtime_guard.py).
use nebula_grid.Base.{
  ℕ, zero, suc, ◌+◌, ◌≤◌, ◌≡◌, refl, sym, subst, inl, inr, ◌↔◌, true, false, ◌||◌, some, List, [],
  ◌∷◌, ◌++◌, ◌==◌, length, length-append, member, Bool-cases, arith, if◌then◌else◌, ==-refl, ==_iff,
}
use nebula_grid.RuntimeGuard.Processes.{Process, children_of, walk_tree, expand_pid_tree}

-- The descendants of a process, itself among them.
pub data Descends (table : List Process) (root : ℕ) : ℕ → Type 0 where
  here : Descends table root root
  step :
      {pid child : ℕ}
      → Descends table root pid
      → member child (children_of table pid) ≡ true
      → Descends table root child

-- The rows whose parent was not seen yet.
waiting_rows : List Process → List ℕ → ℕ
waiting_rows [] seen = 0
waiting_rows ((child, parent) ∷ table) seen =
    (if member parent seen then 0 else 1) + waiting_rows table seen

waiting_rows-le : (table : List Process) (seen : List ℕ) → waiting_rows table seen ≤ length table
unfolding waiting_rows
waiting_rows-le [] seen = omega arith
waiting_rows-le ((c, p) ∷ table) seen = ground (arith, waiting_rows-le table seen)

-- Expanding a pid moves its rows from the waiting ones to the queue.
waiting_rows-cons :
    (table : List Process) (pid : ℕ) (seen : List ℕ)
    → member pid seen ≡ false
    → length (children_of table pid) + waiting_rows table (pid ∷ seen) ≡ waiting_rows table seen
unfolding waiting_rows children_of
waiting_rows-cons [] pid seen h = omega arith
waiting_rows-cons ((c, p) ∷ table) pid seen h = elim (Bool-cases (p == pid)) [
  | inl e ↦
      let same : p ≡ pid = (==_iff p pid).0 e in
      ground (arith, waiting_rows-cons table pid seen h, same)
  | inr n ↦ ground (arith, waiting_rows-cons table pid seen h)
]

walk_tree-total :
    (fuel : ℕ) (table : List Process) (queue seen : List ℕ)
    → length queue + waiting_rows table seen ≤ fuel
    → (r : List ℕ) × (walk_tree fuel table queue seen ≡ some r)
unfolding walk_tree
walk_tree-total zero table [] seen h = (seen, refl)
walk_tree-total (suc fuel) table [] seen h = (seen, refl)
walk_tree-total zero table (pid ∷ queue) seen h = absurd (omega (arith, h))
walk_tree-total (suc fuel) table (pid ∷ queue) seen h = elim (Bool-cases (member pid seen)) [
  | inl old ↦ rw (old, walk_tree) (walk_tree-total fuel table queue seen (omega (arith, h)))
  | inr new ↦
      rw (new, walk_tree)
        (walk_tree-total fuel table (queue ++ children_of table pid) (pid ∷ seen) (
          omega (
            arith,
            h,
            length-append queue (children_of table pid),
            waiting_rows-cons table pid seen new,
          )))
]

member-append : (k : ℕ) (xs ys : List ℕ) → member k (xs ++ ys) ≡ (member k xs || member k ys)
member-append k [] ys = refl
member-append k (x ∷ xs) ys = ground (arith, member-append k xs ys)

-- What holds of every member.
abbrev Every : (ℕ → Type 0) → List ℕ → Type 0
Every P xs = (k : ℕ) → member k xs ≡ true → P k

Every-append : (P : ℕ → Type 0) (xs ys : List ℕ) → Every P xs → Every P ys → Every P (xs ++ ys)
Every-append P xs ys hx hy k m = elim (Bool-cases (member k xs)) [
  | inl i ↦ hx k i
  | inr n ↦ hy k (ground (arith, member-append k xs ys))
]

Every-cons : (P : ℕ → Type 0) (x : ℕ) (xs : List ℕ) → P x → Every P xs → Every P (x ∷ xs)
Every-cons P x xs hx h k m = elim (Bool-cases (x == k)) [
  | inl e ↦ let same : x ≡ k = (==_iff x k).0 e in subst P same hx
  | inr n ↦ h k (ground arith)
]

-- Each child of a seen pid is seen or waits in the queue.
abbrev IsClosed : List Process → List ℕ → List ℕ → Type 0
IsClosed table queue seen =
    (pid child : ℕ)
    → member pid seen ≡ true
    → member child (children_of table pid) ≡ true
    → (member child seen || member child queue) ≡ true

IsClosed-skip :
    (table : List Process) (x : ℕ) (queue seen : List ℕ)
    → member x seen ≡ true
    → IsClosed table (x ∷ queue) seen
    → IsClosed table queue seen
IsClosed-skip table x queue seen old h pid child s m = elim (Bool-cases (x == child)) [
  | inl e ↦
      let same : x ≡ child = (==_iff x child).0 e in
      let seen_child : member child seen ≡ true = subst (λ k. member k seen ≡ true) same old in
      ground arith
  | inr n ↦ ground (arith, h pid child s m)
]

IsClosed-expand :
    (table : List Process) (x : ℕ) (queue seen : List ℕ)
    → IsClosed table (x ∷ queue) seen
    → IsClosed table (queue ++ children_of table x) (x ∷ seen)
IsClosed-expand table x queue seen h pid child s m = elim (Bool-cases (x == pid)) [
  | inl e ↦
      let same : x ≡ pid = (==_iff x pid).0 e in
      let found : member child (children_of table x) ≡ true =
        subst (λ k. member child (children_of table k) ≡ true) (sym same) m in
      ground (arith, member-append child queue (children_of table x))
  | inr n ↦
      let old : member pid seen ≡ true = ground arith in
      ground (arith, h pid child old m, member-append child queue (children_of table x))
]

-- What a walk that ends has found.
record Found (table : List Process) (P : ℕ → Type 0) (seen queue r : List ℕ) : Type 0 where
  sound : Every P r
  closed : IsClosed table [] r
  kept : (k : ℕ) → (member k seen || member k queue) ≡ true → member k r ≡ true

Found-end :
    (table : List Process) (P : ℕ → Type 0) (seen r : List ℕ)
    → Every P seen
    → IsClosed table [] seen
    → seen ≡ r
    → Found table P seen [] r
Found-end table P seen r hs c e =
    subst (Found table P seen []) e (record { sound = hs; closed = c; kept = λ k m. ground arith })

walk_tree-Found :
    (fuel : ℕ) (table : List Process) (P : ℕ → Type 0) (queue seen r : List ℕ)
    → ((pid child : ℕ) → P pid → member child (children_of table pid) ≡ true → P child)
    → Every P queue
    → Every P seen
    → IsClosed table queue seen
    → walk_tree fuel table queue seen ≡ some r
    → Found table P seen queue r
unfolding walk_tree
walk_tree-Found zero table P [] seen r grow hq hs c e = Found-end table P seen r hs c cc
walk_tree-Found (suc fuel) table P [] seen r grow hq hs c e = Found-end table P seen r hs c cc
walk_tree-Found zero table P (x ∷ queue) seen r grow hq hs c e = cc
walk_tree-Found (suc fuel) table P (x ∷ queue) seen r grow hq hs c e =
    elim (Bool-cases (member x seen)) [
      | inl old ↦
          let f =
            walk_tree-Found fuel table P queue seen r grow (λ k m. hq k (ground arith)) hs
              (IsClosed-skip table x queue seen old c) (rw (old, walk_tree) at e) in
          record {
            sound = f.sound;
            closed = f.closed;
            kept = λ k m. elim (Bool-cases (x == k)) [
              | inl same ↦
                  let eq : x ≡ k = (==_iff x k).0 same in
                  let in_seen : member k seen ≡ true = subst (λ j. member j seen ≡ true) eq old in
                  f.kept k (ground arith)
              | inr differs ↦ f.kept k (ground arith)
            ];
          }
      | inr new ↦
          let px : P x = hq x (ground (arith, ==-refl x)) in
          let f =
            walk_tree-Found fuel table P (queue ++ children_of table x) (x ∷ seen) r grow
              (Every-append P queue (children_of table x) (λ k m. hq k (ground arith))
                (λ k m. grow x k px m))
              (Every-cons P x seen px hs) (IsClosed-expand table x queue seen c)
              (rw (new, walk_tree) at e) in
          record {
            sound = f.sound;
            closed = f.closed;
            kept = λ k m. f.kept k (ground (arith, member-append k queue (children_of table x)));
          }
    ]

-- The walk from the root alone.
root-Found :
    (root : ℕ) (table : List Process) (r : List ℕ)
    → expand_pid_tree root table ≡ some r
    → Found table (Descends table root) [] (root ∷ []) r
unfolding expand_pid_tree
root-Found root table r e =
    walk_tree-Found (suc (length table)) table (Descends table root) (root ∷ []) [] r
      (λ pid child p m. step p m)
      (λ k m.
        let same : root ≡ k = (==_iff root k).0 (ground arith) in
        subst (Descends table root) same here)
      (λ k m. cc) (λ pid child s m. cc) e

complete :
    (root : ℕ) (table : List Process) (r : List ℕ)
    (f : Found table (Descends table root) [] (root ∷ []) r) (k : ℕ)
    → Descends table root k
    → member k r ≡ true
complete root table r f k here = f.kept k (ground (arith, ==-refl k))
complete root table r f k (step {pid} d m) =
    ground (arith, f.closed pid k (complete root table r f pid d) m)

-- The expansion of a process tree ends within its fuel, also where the table has cycles, and a pid is
-- in the result exactly if it descends from the root.
pub expand_pid_tree-Descends :
    (root : ℕ) (table : List Process)
    → (pids : List ℕ) × (expand_pid_tree root table ≡ some pids)
      × ((pid : ℕ) → (member pid pids ≡ true) ↔ Descends table root pid)
unfolding expand_pid_tree
expand_pid_tree-Descends root table =
    let (r, e) =
      walk_tree-total (suc (length table)) table (root ∷ []) []
        (omega (arith, waiting_rows-le table [])) in
    let f = root-Found root table r e in (r, e, λ pid. (f.sound pid, complete root table r f pid))
