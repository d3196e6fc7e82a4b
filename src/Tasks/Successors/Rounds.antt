-- ===== src/Tasks/Successors/Rounds.antt =====
-- `load_successor_tasks` ends (backend/app/services/task_service.py).
use nebula_grid.Base.{
  ℕ, zero, suc, ◌+◌, ◌≤◌, ◌<◌, ◌≡◌, refl, sym, ap, subst, inl, inr, true, false, Option, none, some,
  List, [], ◌∷◌, ◌==◌, length, length-append, member, Bool-cases, arith, if◌then◌else◌, ==-refl,
  ==_iff,
}
use nebula_grid.Model.{Task, TaskDependency, Db, get_task}
use nebula_grid.Tasks.Successors.{
  dependents, Search, visit_found, visit, visit_all, search_rounds, start_search,
  load_successor_tasks,
}

-- The dependency rows of tasks that were not seen yet.
unseen_rows : List TaskDependency → List ℕ → ℕ
unseen_rows [] seen = 0
unseen_rows (d ∷ rows) seen = (if member d.task_id seen then 0 else 1) + unseen_rows rows seen

unseen_rows-le : (rows : List TaskDependency) (seen : List ℕ) → unseen_rows rows seen ≤ length rows
unfolding unseen_rows
unseen_rows-le [] seen = omega arith
unseen_rows-le (d ∷ rows) seen = ground (arith, unseen_rows-le rows seen)

unseen_rows-cons-le :
    (rows : List TaskDependency) (pk : ℕ) (seen : List ℕ)
    → unseen_rows rows (pk ∷ seen) ≤ unseen_rows rows seen
unfolding unseen_rows
unseen_rows-cons-le [] pk seen = omega arith
unseen_rows-cons-le (d ∷ rows) pk seen = ground (arith, unseen_rows-cons-le rows pk seen)

-- A task of some row that is seen now leaves fewer rows.
unseen_rows-cons-lt :
    (rows : List TaskDependency) (from pk : ℕ) (seen : List ℕ)
    → member pk (dependents rows from) ≡ true
    → member pk seen ≡ false
    → unseen_rows rows (pk ∷ seen) < unseen_rows rows seen
unfolding unseen_rows dependents
unseen_rows-cons-lt [] from pk seen m n = cc
unseen_rows-cons-lt (d ∷ rows) from pk seen m n = elim (Bool-cases (d.task_id == pk)) [
  | inl e ↦
      let same : d.task_id ≡ pk = (==_iff d.task_id pk).0 e in
      let unseen : member d.task_id seen ≡ false =
        subst (λ k. member k seen ≡ false) (sym same) n in
      ground (arith, unseen_rows-cons-le rows pk seen)
  | inr differs ↦
      let later : member pk (dependents rows from) ≡ true = ground arith in
      ground (arith, unseen_rows-cons-lt rows from pk seen later n)
]

-- The work that is left: the frontier, and the rows that may still add to it.
abbrev work : Db → Search → ℕ
work db s = length s.frontier + unseen_rows db.task_dependencies s.seen

visit_found-work :
    (db : Db) (from pk : ℕ) (found : Option Task) (s : Search)
    → member pk (dependents db.task_dependencies from) ≡ true
    → member pk s.seen ≡ false
    → work db (visit_found pk found s) ≤ work db s
unfolding visit_found
visit_found-work db from pk none s m n =
    omega (arith, unseen_rows-cons-le db.task_dependencies pk s.seen)
visit_found-work db from pk (some t) s m n = omega (
  arith,
  length-append s.frontier (t.id ∷ []),
  unseen_rows-cons-lt db.task_dependencies from pk s.seen m n,
)

visit-work :
    (db : Db) (from pk : ℕ) (s : Search)
    → member pk (dependents db.task_dependencies from) ≡ true
    → work db (visit db pk s) ≤ work db s
unfolding visit
visit-work db from pk s m = elim (Bool-cases (member pk s.seen)) [
  | inl old ↦ rw old (omega arith)
  | inr new ↦ rw new (visit_found-work db from pk (get_task pk db) s m new)
]

-- The members of one list stand in another.
abbrev Within : List ℕ → List ℕ → Type 0
Within xs ys = (k : ℕ) → member k xs ≡ true → member k ys ≡ true

visit_all-work :
    (db : Db) (from : ℕ) (pks : List ℕ) (s : Search)
    → Within pks (dependents db.task_dependencies from)
    → work db (visit_all db pks s) ≤ work db s
unfolding visit_all
visit_all-work db from [] s h = omega arith
visit_all-work db from (pk ∷ pks) s h = omega (
  arith,
  visit-work db from pk s (h pk (ground (arith, ==-refl pk))),
  visit_all-work db from pks (visit db pk s) (λ k m. h k (ground arith)),
)

search_rounds-total :
    (fuel : ℕ) (db : Db) (frontier : List ℕ) (s : Search)
    → frontier ≡ s.frontier
    → work db s ≤ fuel
    → (r : Search) × (search_rounds fuel db frontier s ≡ some r)
unfolding search_rounds
search_rounds-total zero db [] s e h = (s, refl)
search_rounds-total (suc fuel) db [] s e h = (s, refl)
search_rounds-total zero db (pk ∷ rest) s e h =
    let n : length s.frontier ≡ suc (length rest) = ap length (sym e) in
    absurd (omega (arith, h, n))
search_rounds-total (suc fuel) db (pk ∷ rest) s e h =
    let n : length s.frontier ≡ suc (length rest) = ap length (sym e) in
    let s1 = visit_all db (dependents db.task_dependencies pk) (record s { frontier = rest }) in
    search_rounds-total fuel db s1.frontier s1 refl (
      omega (
        arith,
        h,
        n,
        visit_all-work db pk (dependents db.task_dependencies pk) (record s { frontier = rest })
            (λ k m. m),
      ))

-- The search for the successors of a task ends: a round for the task itself and one for each dependency
-- row are enough, also where the dependencies have cycles.
pub load_successor_tasks-total :
    (pk : ℕ) (db : Db) → (tasks : List Task) × (load_successor_tasks pk db ≡ some tasks)
unfolding load_successor_tasks
load_successor_tasks-total pk db =
    let (s, e) =
      search_rounds-total (suc (length db.task_dependencies)) db (pk ∷ []) (start_search pk) refl
        (omega (arith, unseen_rows-le db.task_dependencies [])) in
    (s.result, rw (e, load_successor_tasks) refl)
