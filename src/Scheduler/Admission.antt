-- ===== src/Scheduler/Admission.antt =====
-- When the scheduler starts a task (backend/app/workers/scheduler.py).
use nebula_grid.Base.{
  ◌≡◌, refl, ◌⊎◌, inl, inr, Bool, true, false, Option, none, some, any, Bool-cases, if◌then◌else◌,
}
use nebula_grid.Model.{
  Task, TaskDependency, User, Db, is_open_for, is_succeeded, is_terminal, get_task, get_user,
}
use nebula_grid.Scheduler.Select.{Metrics}
use nebula_grid.Scheduler.Tick.{
  check_predecessor, check_dependency, dependency_satisfied, find_dependency, schedule_ready,
  schedule_for_owner, schedule_owned, try_schedule_task, is_enabled,
}

-- What a task that is scheduled has.
pub record IsAdmitted (task : Task) (db : Db) : Type 0 where
  pub no_open : any (is_open_for task.id) db.task_allocations ≡ false
  pub owner : User
  pub found : get_user task.user_id db ≡ some owner
  pub owner_enabled : is_enabled owner.state ≡ true
  pub ready :
      (find_dependency task.id db ≡ none)
      ⊎ ((d : TaskDependency) × (find_dependency task.id db ≡ some d)
          × (p : Task) × (get_task d.prev_task_id db ≡ some p)
          × (is_succeeded p.state ≡ true))

satisfied_predecessor :
    (task : Task) (predecessor : Option Task) (db : Db)
    → (check_predecessor task predecessor db).0 ≡ true
    → (p : Task) × (predecessor ≡ some p) × (is_succeeded p.state ≡ true)
unfolding check_predecessor
satisfied_predecessor task none db h = cc
satisfied_predecessor task (some p) db h = elim (Bool-cases (is_succeeded p.state)) [
  | inl s ↦ (p, refl, s)
  | inr n ↦ elim (Bool-cases (is_terminal p.state)) [
    | inl t ↦ let h' : false ≡ true = rw (n, t) at h in cc
    | inr f ↦ let h' : false ≡ true = rw (n, f) at h in cc
  ]
]

satisfied_dependency :
    (task : Task) (dependency : Option TaskDependency) (db : Db)
    → (check_dependency task dependency db).0 ≡ true
    → (dependency ≡ none)
      ⊎ ((d : TaskDependency) × (dependency ≡ some d)
          × (p : Task) × (get_task d.prev_task_id db ≡ some p)
          × (is_succeeded p.state ≡ true))
unfolding check_dependency
satisfied_dependency task none db h = inl refl
satisfied_dependency task (some d) db h =
    let (p, e, s) = satisfied_predecessor task (get_task d.prev_task_id db) db h in
    inr (d, refl, p, e, s)

first_of_pair :
    (c : Bool) (a : Bool × Db) (db : Db) → (if c then a else (false, db)).0 ≡ true → c ≡ true
first_of_pair true a db h = refl
first_of_pair false a db h = h

second_of_pair :
    (c : Bool) (a : Bool × Db) (db : Db)
    → (if c then (false, db) else a).0 ≡ true
    → (c ≡ false) × (a.0 ≡ true)
second_of_pair true a db h = cc
second_of_pair false a db h = (refl, h)

owned_and_ready :
    (metrics : Metrics) (task : Task) (user : Option User) (db : Db)
    → (schedule_owned metrics task user db).0 ≡ true
    → (owner : User) × (user ≡ some owner)
      × (is_enabled owner.state ≡ true)
      × ((dependency_satisfied task db).0 ≡ true)
unfolding schedule_owned schedule_for_owner
owned_and_ready metrics task none db h = cc
owned_and_ready metrics task (some owner) db h = elim (Bool-cases (is_enabled owner.state)) [
  | inl e ↦ (
    owner,
    refl,
    e,
    first_of_pair (dependency_satisfied task db).0
        (schedule_ready metrics owner task (dependency_satisfied task db).1)
        (dependency_satisfied task db).1 (rw e at h),
  )
  | inr n ↦ let h' : false ≡ true = rw n at h in cc
]

-- A task is scheduled only if it has no open allocation, its owner exists and is enabled, and the
-- task that it depends on, if any, exists and has succeeded.
pub try_schedule_task-IsAdmitted :
    (metrics : Metrics) (task : Task) (db : Db)
    → (try_schedule_task metrics task db).0 ≡ true
    → IsAdmitted task db
unfolding try_schedule_task dependency_satisfied
try_schedule_task-IsAdmitted metrics task db h =
    let (n, h1) =
      second_of_pair (any (is_open_for task.id) db.task_allocations)
        (schedule_owned metrics task (get_user task.user_id db) db) _ h in
    let (owner, e, on, d) = owned_and_ready metrics task (get_user task.user_id db) db h1 in
    record {
      no_open = n;
      owner = owner;
      found = e;
      owner_enabled = on;
      ready = satisfied_dependency task (find_dependency task.id db) db d;
    }
