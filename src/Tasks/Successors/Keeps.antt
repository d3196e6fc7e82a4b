-- ===== src/Tasks/Successors/Keeps.antt =====
-- A deletion leaves the running tasks (backend/app/services/task_service.py).
use nebula_grid.Base.{
  ℕ, ◌≡◌, refl, sym, ◌∙◌, subst, Bool, true, false, Option, none, some, List, [], ◌∷◌, ◌==◌, ==_iff,
  All, Bool-cases, inl, inr, arith, or_else, member,
}
use nebula_grid.Base.Text.{Text}
use nebula_grid.Base.Table.{first, delete_where, select}
use nebula_grid.Base.Table.Laws.{All-select, All-sort_by}
use nebula_grid.Model.{User, Task, is_running, Db, get_task, release_task_allocations}
use nebula_grid.Response.{Response, ok, error, validation_error, not_found}
use nebula_grid.Tasks.Visible.{managed_task, require_task_manager, has_unconfirmed_cancel_cleanup}
use nebula_grid.Response.Laws.{bind_ok}
use nebula_grid.Tasks.Successors.{
  is_protected, delete_row, delete_each, TaskDeleteResult, delete_locked, locked_items,
  selected_keys, delete_selected, delete_task, load_successor_tasks, by_key,
}

first-delete_where {ℓ} :
    {A : Type ℓ} (p q : A → Bool) (xs : List A)
    → ((x : A) → p x ≡ true → q x ≡ false)
    → first p (delete_where q xs) ≡ first p xs
unfolding first delete_where
first-delete_where p q [] h = refl
first-delete_where p q (x ∷ xs) h = elim (Bool-cases (q x)) [
  | inr n ↦
      rw n
        (elim (Bool-cases (p x)) [ inl i ↦ rw i refl | inr j ↦ rw j (first-delete_where p q xs h) ])
  | inl gone ↦ elim (Bool-cases (p x)) [
    | inl i ↦ let bad : true ≡ false = sym gone ∙ h x i in cc
    | inr j ↦ rw (gone, j) (first-delete_where p q xs h)
  ]
]

-- Deleting another row keeps a row.
get_task-delete_row :
    (pk other : ℕ) (db : Db)
    → (other == pk) ≡ false
    → get_task pk (delete_row other (release_task_allocations other db)) ≡ get_task pk db
unfolding get_task delete_row release_task_allocations
get_task-delete_row pk other db n =
    first-delete_where (λ t. t.id == pk) (λ t. t.id == other) db.tasks
      (λ t e. ground (arith, (==_iff t.id pk).0 e))

-- Rows of the list with a given key run.
abbrev RunsAt : ℕ → Task → Type 0
RunsAt pk t = t.id ≡ pk → is_running t.state ≡ true

abbrev remove : Task → Db → Db
remove item db = delete_row item.id (release_task_allocations item.id db)

running_protected :
    (db : Db) (item : Task) → is_protected db item ≡ false → is_running item.state ≡ false
unfolding is_protected
running_protected db item h = ground arith

delete_each-keeps :
    (user : User) (pk : ℕ) (items : List Task) (db db' : Db) (removed : List Text)
    → All (RunsAt pk) items
    → delete_each user items db ≡ ok (removed, db')
    → get_task pk db' ≡ get_task pk db
unfolding delete_each
delete_each-keeps user pk [] db db' removed h e =
    let same : db ≡ db' = cc in subst (λ d. get_task pk d ≡ get_task pk db) same refl
delete_each-keeps user pk (item ∷ items) db db' removed h e =
    elim (Bool-cases (is_protected db item)) [
      | inl kept ↦ delete_each-keeps user pk items db db' removed h.1 (rw kept at e)
      | inr gone ↦
          let (_, _, e1) = bind_ok (require_task_manager user item db) _ (rw gone at e) in
          let ((names, db1), e2, e3) = bind_ok (delete_each user items (remove item db)) _ e1 in
          let last : db1 ≡ db' = cc in
          let other : (item.id == pk) ≡ false = apart gone in
          subst (λ d. get_task pk d ≡ get_task pk db) last
            (delete_each-keeps user pk items (remove item db) db1 names h.1 e2
              ∙ get_task-delete_row pk item.id db other)
    ]
  where
    apart : is_protected db item ≡ false → (item.id == pk) ≡ false
    apart gone = elim (Bool-cases (item.id == pk)) [
      | inr n ↦ n
      | inl same ↦
          let runs : is_running item.state ≡ true = h.0 ((==_iff item.id pk).0 same) in
          let idle = running_protected db item gone in cc
    ]

-- A key names one row.
abbrev pub HasKeys : Db → Type 0
HasKeys db = All (λ (t : Task). get_task t.id db ≡ some t) db.tasks

keyed_runs :
    (pk : ℕ) (task : Task) (db : Db)
    → get_task pk db ≡ some task
    → is_running task.state ≡ true
    → (items : List Task) → All (λ (t : Task). get_task t.id db ≡ some t) items
    → All (RunsAt pk) items
keyed_runs pk task db found runs [] h = tt
keyed_runs pk task db found runs (t ∷ ts) h = (
  λ same.
      let e : get_task t.id db ≡ some task =
        subst (λ k. get_task k db ≡ some task) (sym same) found in
      let found_t = h.0 in
      let eq : task ≡ t = cc in subst (λ (x : Task). is_running x.state ≡ true) eq runs,
  keyed_runs pk task db found runs ts h.1,
)

delete_locked-keeps :
    (user : User) (pk : ℕ) (task : Task) (items : List Task) (db db' : Db) (r : TaskDeleteResult)
    → All (RunsAt pk) items
    → delete_locked user task items db ≡ ok (r, db')
    → get_task pk db' ≡ get_task pk db
unfolding delete_locked
delete_locked-keeps user pk task items db db' r h e = elim (Bool-cases (is_running task.state)) [
  | inl runs ↦
      let bad : ◌≡◌ {A = Response (TaskDeleteResult × Db)} (error validation_error) (ok (r, db')) =
        rw runs at e in
      cc
  | inr idle ↦ elim (Bool-cases (has_unconfirmed_cancel_cleanup task db)) [
    | inl held ↦
        let bad : ◌≡◌ {A = Response (TaskDeleteResult × Db)} (error validation_error)
            (ok (r, db')) =
          rw (idle, held) at e in
        cc
    | inr clean ↦
        let ((names, db1), e1, e2) =
          bind_ok (delete_each user items db) _ (rw (idle, clean) at e) in
        let last : db1 ≡ db' = cc in
        subst (λ d. get_task pk d ≡ get_task pk db) last
          (delete_each-keeps user pk items db db1 names h e1)
  ]
]

-- A deletion that succeeds leaves every running task as it is, whether or not successors are deleted
-- along, where each key names one row.
pub delete_task-keeps :
    (user : User) (task_id : Text) (delete_successors : Bool) (db db' : Db) (r : TaskDeleteResult)
    (pk : ℕ) (task : Task)
    → HasKeys db
    → get_task pk db ≡ some task
    → is_running task.state ≡ true
    → delete_task user task_id delete_successors db ≡ ok (r, db')
    → get_task pk db' ≡ some task
unfolding delete_task delete_selected
delete_task-keeps user task_id delete_successors db db' r pk task keys found runs e =
    let (named, e1, e2) = bind_ok (managed_task user task_id db) _ e in
    let successors = or_else (load_successor_tasks named.id db) [] in
    go named successors
      (first (λ t. t.id == named.id) (locked_items named delete_successors successors db)) e2
    ∙ found
  where
    go :
        (named : Task) (successors : List Task) (locked : Option Task)
        → elim locked as (λ _. Response (TaskDeleteResult × Db)) [
          | none ↦ error not_found
          | some t ↦ delete_locked user t (locked_items named delete_successors successors db) db
        ]
          ≡ ok (r, db')
        → get_task pk db' ≡ get_task pk db
    go named successors none e = cc
    go named successors (some t) e =
        delete_locked-keeps user pk t (locked_items named delete_successors successors db) db db' r
          (keyed_runs pk task db found runs (locked_items named delete_successors successors db) (
            All-sort_by (λ (x : Task). get_task x.id db ≡ some x) by_key
              (select (λ x. member x.id (selected_keys named delete_successors successors))
                db.tasks)
              (All-select (λ (x : Task). get_task x.id db ≡ some x)
                (λ x. member x.id (selected_keys named delete_successors successors)) db.tasks
                keys)))
          e
