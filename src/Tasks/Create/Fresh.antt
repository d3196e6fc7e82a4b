-- ===== src/Tasks/Create/Fresh.antt =====
-- What the submission of a task writes (backend/app/services/task_service.py).
use nebula_grid.Base.{
  ℕ, zero, suc, ◌+◌, ◌≡◌, ◌<◌, refl, sym, ap, ◌∙◌, subst, ◌⊎◌, inl, inr, true, false, not, Option,
  none, some, List, [], ◌∷◌, All, is_some, is_empty, or_else, Bool-cases, arith, ◌==◌,
}
use nebula_grid.Base.Text.{Text, strip}
use nebula_grid.Base.Table.{first}
use nebula_grid.Model.{
  User, Task, is_waiting, Db, get_task, add_task_event, update_task_duration, created,
}
use nebula_grid.Response.Laws.{bind_ok}
use nebula_grid.Response.{ok, error, validation_error}
use nebula_grid.Tasks.Visible.{find_task_model, can_view_task}
use nebula_grid.Tasks.Create.{
  Surroundings, TaskCreateRequest, check_submission, first_free_id, generate_task_id,
  drop_dependency, add_dependency, depend_on, replace_task_dependency, new_task, insert_task,
  store_task, create_task_model,
}

-- The number of a new task, and where the loop ends without one.
first_free_id-fresh :
    (left attempt : ℕ) (stamp : ℕ → Text) (db : Db)
    → ((name : Text) × (first_free_id left attempt stamp db ≡ ok name)
        × (is_some (find_task_model name db) ≡ false))
      ⊎ ((first_free_id left attempt stamp db ≡ error validation_error)
          × ((i : ℕ) → i < left → is_some (find_task_model (stamp (attempt + i)) db) ≡ true))
unfolding first_free_id
first_free_id-fresh zero attempt stamp db = inr (refl, λ i h. absurd (omega (arith, h)))
first_free_id-fresh (suc left) attempt stamp db =
    elim (Bool-cases (is_some (find_task_model (stamp attempt) db))) [
      | inr free ↦ inl (stamp attempt, rw free refl, free)
      | inl used ↦ elim (first_free_id-fresh left (attempt + 1) stamp db) [
        | inl (name, e, f) ↦ inl (name, rw used e, f)
        | inr (e, all_used) ↦ inr (rw used e, go used all_used)
      ]
    ]
  where
    go :
        is_some (find_task_model (stamp attempt) db) ≡ true
        → ((i : ℕ) → i < left → is_some (find_task_model (stamp (attempt + 1 + i)) db) ≡ true)
        → (i : ℕ) → i < suc left
        → is_some (find_task_model (stamp (attempt + i)) db) ≡ true
    go used all_used zero h =
        subst (λ k. is_some (find_task_model (stamp k) db) ≡ true) (omega arith) used
    go used all_used (suc i) h =
        subst (λ k. is_some (find_task_model (stamp k) db) ≡ true) (omega arith)
          (all_used i (omega (arith, h)))

fresh_name :
    (stamp : ℕ → Text) (db : Db) (name : Text)
    → generate_task_id stamp db ≡ ok name
    → is_some (find_task_model name db) ≡ false
unfolding generate_task_id
fresh_name stamp db name e = elim (first_free_id-fresh 1000 0 stamp db) [
  | inl (n, e', f) ↦
      let same : n ≡ name = cc in subst (λ t. is_some (find_task_model t db) ≡ false) same f
  | inr (bad, _) ↦ cc
]

new_task-is_waiting :
    (pk : ℕ) (name : Text) (owner : ℕ) (payload : TaskCreateRequest) (now : ℕ)
    → is_waiting (new_task pk name owner payload now).state ≡ true
unfolding new_task is_waiting
new_task-is_waiting pk name owner payload now = ground arith

-- The writes of the dependency touch no other table.
pub record OnlyDependencies (db db' : Db) : Type 0 where
  pub same_now : db'.now ≡ db.now
  pub same_counter : db'.next_id ≡ db.next_id
  pub same_tasks : db'.tasks ≡ db.tasks
  pub same_allocations : db'.task_allocations ≡ db.task_allocations

depend_on-Only :
    (pk : ℕ) (predecessor : Option Task) (user : User) (db db' : Db)
    → depend_on pk predecessor user db ≡ ok db'
    → OnlyDependencies db db'
unfolding depend_on add_dependency
depend_on-Only pk none user db db' e = cc
depend_on-Only pk (some p) user db db' e = elim (Bool-cases (not (can_view_task user p db))) [
  | inl hidden ↦ let bad : error validation_error ≡ ok db' = rw hidden at e in cc
  | inr seen ↦ elim (Bool-cases (p.id == pk)) [
    | inl same ↦ let bad : error validation_error ≡ ok db' = rw (seen, same) at e in cc
    | inr differs ↦
        let e' : ok (add_dependency pk p.id db) ≡ ok db' = rw (seen, differs) at e in
        let eq : add_dependency pk p.id db ≡ db' = cc in
        subst (OnlyDependencies db) eq (record {
          same_now = refl;
          same_counter = refl;
          same_tasks = refl;
          same_allocations = refl;
        })
  ]
]

pub replace-Only :
    (pk : ℕ) (name : Option Text) (user : User) (db db' : Db)
    → replace_task_dependency pk name user db ≡ ok db'
    → OnlyDependencies db db'
unfolding replace_task_dependency drop_dependency
replace-Only pk name user db db' e = elim (Bool-cases (is_empty (strip (or_else name [])))) [
  | inl none_named ↦
      let e' : ok (drop_dependency pk db) ≡ ok db' = rw none_named at e in
      let eq : drop_dependency pk db ≡ db' = cc in
      subst (OnlyDependencies db) eq (record {
        same_now = refl;
        same_counter = refl;
        same_tasks = refl;
        same_allocations = refl;
      })
  | inr named ↦
      let only =
        depend_on-Only pk (find_task_model (strip (or_else name [])) (drop_dependency pk db)) user
          (drop_dependency pk db) db' (rw named at e) in
      record {
        same_now = only.same_now;
        same_counter = only.same_counter;
        same_tasks = only.same_tasks;
        same_allocations = only.same_allocations;
      }
]

-- What a submission leaves, whatever the keys are: the new row before the old ones, waiting, with a
-- number that no task had, under the key that the counter shows, and the allocations as they were.
pub record Stored (payload : TaskCreateRequest) (db db' : Db) (pk : ℕ) : Type 0 where
  pub task : Task
  pub stored : db'.tasks ≡ task ∷ db.tasks
  pub key : task.id ≡ pk
  pub counted : db.next_id ≡ pk
  pub counter : db'.next_id ≡ db.next_id + 1
  pub waits : is_waiting task.state ≡ true
  pub command : task.command ≡ payload.command
  pub fresh : is_some (find_task_model task.task_id db) ≡ false
  pub same_allocations : db'.task_allocations ≡ db.task_allocations

store_task-Stored :
    (user : User) (payload : TaskCreateRequest) (owner : User) (name : Text) (db db' : Db) (pk : ℕ)
    → is_some (find_task_model name db) ≡ false
    → store_task user payload owner name db ≡ ok (pk, db')
    → Stored payload db db' pk
unfolding store_task insert_task add_task_event update_task_duration new_task
store_task-Stored user payload owner name db db' pk fresh e =
    let (db2, e1, e2) =
      bind_ok (replace_task_dependency db.next_id payload.predecessor_task_id user inserted) _ e in
    let only = replace-Only db.next_id payload.predecessor_task_id user inserted db2 e1 in
    let left : add_task_event db.next_id created (some user.id) db2 ≡ db' = cc in
    let key : db.next_id ≡ pk = cc in
    record {
      task = update_task_duration row;
      stored = ap (λ d. d.tasks) (sym left) ∙ only.same_tasks;
      key = key;
      counted = key;
      counter = ap (λ d. d.next_id) (sym left) ∙ only.same_counter;
      waits = new_task-is_waiting db.next_id name owner.id payload db.now;
      command = refl;
      fresh = fresh;
      same_allocations = ap (λ d. d.task_allocations) (sym left) ∙ only.same_allocations;
    }
  where
    row : Task
    row = new_task db.next_id name owner.id payload db.now

    inserted : Db
    inserted = insert_task row db

pub create_task_model-Stored :
    (around : Surroundings) (user : User) (payload : TaskCreateRequest) (owner pk : ℕ) (db db' : Db)
    → create_task_model around user payload owner db ≡ ok (pk, db')
    → Stored payload db db' pk
unfolding create_task_model
create_task_model-Stored around user payload owner pk db db' e =
    let (found, e1, e2) = bind_ok (check_submission around user payload owner db) _ e in
    let (name, e3, e4) = bind_ok (generate_task_id around.stamp db) _ e2 in
    store_task-Stored user payload found name db db' pk (fresh_name around.stamp db name e3) e4

-- The counter has passed the keys of all tasks.
abbrev pub KeysBelow : Db → Type 0
KeysBelow db = All (λ t. t.id < db.next_id) db.tasks

unused_key :
    (n : ℕ) (tasks : List Task) → All (λ t. t.id < n) tasks → first (λ t. t.id == n) tasks ≡ none
unfolding first
unused_key n [] h = refl
unused_key n (t ∷ tasks) h = ground (arith, unused_key n tasks h.1)

keys_rise : (n : ℕ) (tasks : List Task) → All (λ t. t.id < n) tasks → All (λ t. t.id < n + 1) tasks
keys_rise n [] h = tt
keys_rise n (t ∷ tasks) h = (omega (arith, h.0), keys_rise n tasks h.1)

-- A submission that succeeds: the row that is stored, under a key that no task had, and the counter
-- past all keys again.
pub record Submitted (payload : TaskCreateRequest) (db db' : Db) (pk : ℕ) : Type 0 where
  pub row : Stored payload db db' pk
  pub new_key : get_task pk db ≡ none
  pub keys : KeysBelow db'

-- Where the counter has passed the keys of all tasks, a submission that succeeds puts one waiting task
-- before the old ones, with the payload's command, a key and a number that no task had, touches no
-- allocation, and leaves the counter past all keys.
pub create_task_model-Submitted :
    (around : Surroundings) (user : User) (payload : TaskCreateRequest) (owner pk : ℕ) (db db' : Db)
    → KeysBelow db
    → create_task_model around user payload owner db ≡ ok (pk, db')
    → Submitted payload db db' pk
unfolding get_task
create_task_model-Submitted around user payload owner pk db db' below e =
    let row = create_task_model-Stored around user payload owner pk db db' e in
    record {
      row = row;
      new_key =
          subst (λ k. first (λ t. t.id == k) db.tasks ≡ none) row.counted
            (unused_key db.next_id db.tasks below);
      keys =
          subst (λ n. All (λ t. t.id < n) db'.tasks) (sym row.counter)
            (subst (λ ts. All (λ t. t.id < db.next_id + 1) ts) (sym row.stored)
              (omega (arith, row.key, row.counted), keys_rise db.next_id db.tasks below));
    }
