-- ===== src/Envs/Transactions.antt =====
-- Each transaction keeps the lock of an environment (backend/app/services/env_service.py,
-- backend/app/workers/env_install_worker.py).
use nebula_grid.Base.{
  ℕ, ◌+◌, ◌≡◌, refl, sym, ap, subst, ◌∙◌, inl, inr, Bool, true, false, not, Option, none, some, [],
  ◌∷◌, ◌++◌, ◌==◌, arith, if_ind,
}
use nebula_grid.Base.Int.{ℤ}
use nebula_grid.Base.Text.{Text}
use nebula_grid.Model.{User}
use nebula_grid.Response.{Response, ok, require, forbidden, validation_error}
use nebula_grid.Response.Laws.{bind_ok}
use nebula_grid.Response.Laws.{ok_inj}
use nebula_grid.Envs.Store.{
  EnvState, Environment, EnvPackage, PackageStatus, EnvInstallJob, is_active_job, is_queued,
  is_importing, get_job, get_package, EnvDb, get_environment, set_state, set_package_status,
  is_installing, is_cancelled, env_has_active_package_operation,
}
use nebula_grid.Envs.Install.{
  check_mutable, validate_compile_install_selection, found_package, found_environment,
  local_package, mark_found, get_env_for_user, require_env_owner,
  build_uploaded_package_install_command, EnvPackageInstallRequest, LocalSpec, install_package,
  install_local_package, mark_env_package_delete_started, delete_package, delete_env, env_exists,
  new_environment, add_environment,
}
use nebula_grid.Envs.Jobs.{
  claim_if, begin_with, begin_found, finish_found, found_job, job_result, start_job, is_found,
  claim_job, claim_found, claim_next_job, claim_own_job, end_job, finish_job, Begun, ended,
  installs, begin_install_job, finish_install_job, cancel_job, cancel_install_job,
}
use nebula_grid.Envs.Lock.{
  IsExclusive, active-delete_where, active-delete_env, installing-delete_first, installing-append,
  active-none, fewer-IsExclusive, job-IsExclusive, same-IsExclusive, add_job-IsExclusive,
  set_state-IsExclusive, free,
}

abbrev pub after_begin : Begun → EnvDb
after_begin (ended db) = db
after_begin (installs db) = db

pub install_package-IsExclusive :
    (quote : Text → Text) (user : User) (env_id item : ℕ) (p : EnvPackageInstallRequest)
    (before db db' : EnvDb)
    → IsExclusive db
    → install_package quote user env_id item p before db ≡ ok db'
    → IsExclusive db'
unfolding install_package set_package_status
install_package-IsExclusive quote user env_id item p before db db' h e =
    let (e0, f1, e1) = bind_ok (check_mutable user env_id before) _ e in
    let (b, f2, e2) = bind_ok (validate_compile_install_selection p) _ e1 in
    let (i, f3, e3) = bind_ok (found_package (get_package item before)) _ e2 in
    let (c, f4, e4) = bind_ok (require (i.env_id == e0.id) validation_error) _ e3 in
    let (d, f5, e5) = bind_ok (found_package (get_package item db)) _ e4 in
    let marked = set_package_status item PackageStatus.queued db in
    add_job-IsExclusive marked db' (same-IsExclusive db marked h refl refl) item e0.id p
      (build_uploaded_package_install_command quote i) user.id e5

pub install_local-IsExclusive :
    (spec : Response LocalSpec) (user : User) (env_id : ℕ) (p : EnvPackageInstallRequest)
    (before db db' : EnvDb)
    → IsExclusive db
    → install_local_package spec user env_id p before db ≡ ok db'
    → IsExclusive db'
unfolding install_local_package
install_local-IsExclusive spec user env_id p before db db' h e =
    let (e0, f1, e1) = bind_ok (check_mutable user env_id before) _ e in
    let (b, f2, e2) = bind_ok (validate_compile_install_selection p) _ e1 in
    let (t, f3, e3) = bind_ok spec _ e2 in
    let stored : EnvDb = record db {
      packages = db.packages ++ (local_package db e0.id user.id t ∷ []);
      next_id = db.next_id + 1;
    } in
    add_job-IsExclusive stored db' (same-IsExclusive db stored h refl refl) db.next_id e0.id p
      t.command user.id e3

pub claim_job-IsExclusive : (pk : ℕ) (db : EnvDb) → IsExclusive db → IsExclusive (claim_job pk db)
unfolding claim_job
claim_job-IsExclusive pk db h =
    job-IsExclusive db (claim_job pk db) h (is_found pk) (start_job db.now) refl refl
      (λ e j q w. ground (arith, q, w))

pub claim_next-IsExclusive :
    (locked : ℕ → Bool) (db : EnvDb) → IsExclusive db → IsExclusive (claim_next_job locked db).1
unfolding claim_next_job
claim_next-IsExclusive locked db h = by_found _
  where
    by_found : (o : Option EnvInstallJob) → IsExclusive (claim_found o db).1
    by_found none = h
    by_found (some j) = claim_job-IsExclusive j.id db h

pub claim_own-IsExclusive :
    (pk : ℕ) (db : EnvDb) → IsExclusive db → IsExclusive (claim_own_job pk db).1
unfolding claim_own_job
claim_own-IsExclusive pk db h = by_found (get_job pk db)
  where
    by_found : (o : Option EnvInstallJob) → IsExclusive (claim_if pk o db).1
    by_found none = h
    by_found (some j) =
        if_ind (λ (r : Bool × EnvDb). IsExclusive r.1) (is_queued j.status)
          (λ _. claim_job-IsExclusive pk db h) (λ _. h)

ended-idle : (succeeded : Bool) → is_active_job (job_result succeeded) ≡ false
ended-idle true = refl
ended-idle false = refl

pub finish_job-IsExclusive :
    (job : EnvInstallJob) (succeeded : Bool) (code : Option ℤ) (db : EnvDb)
    → IsExclusive db
    → IsExclusive (finish_job job succeeded code db)
unfolding finish_job set_package_status
finish_job-IsExclusive job succeeded code db h =
    if_ind IsExclusive (is_cancelled job.status) (λ _. h)
      (λ _.
        job-IsExclusive db _ h (λ j. j.id == job.id) (end_job db.now succeeded code) refl refl
          (λ e j q w. ground (arith, w, ended-idle succeeded)))

pub finish_install-IsExclusive :
    (pk : ℕ) (succeeded : Bool) (code : Option ℤ) (db : EnvDb)
    → IsExclusive db
    → IsExclusive (finish_install_job pk succeeded code db)
unfolding finish_install_job
finish_install-IsExclusive pk succeeded code db h = by_found (get_job pk db)
  where
    by_found : (o : Option EnvInstallJob) → IsExclusive (finish_found o succeeded code db)
    by_found none = h
    by_found (some j) = finish_job-IsExclusive j succeeded code db h

pub begin_install-IsExclusive :
    (pk : ℕ) (db : EnvDb) → IsExclusive db → IsExclusive (after_begin (begin_install_job pk db))
unfolding begin_install_job set_package_status
begin_install-IsExclusive pk db h = by_found (get_job pk db)
  where
    by_rows :
        (j : EnvInstallJob) (o : Option Environment) (q : Option EnvPackage)
        → IsExclusive (after_begin (begin_with j o q db))
    by_rows j (some e) (some q) =
        same-IsExclusive db (set_package_status j.package_id PackageStatus.installing db) h refl
          refl
    by_rows j none q = finish_job-IsExclusive j false none db h
    by_rows j (some e) none = finish_job-IsExclusive j false none db h

    by_found : (o : Option EnvInstallJob) → IsExclusive (after_begin (begin_found o db))
    by_found none = h
    by_found (some j) =
        if_ind (λ b. IsExclusive (after_begin b)) (is_cancelled j.status) (λ _. h)
          (λ _. by_rows j (get_environment j.env_id db) (get_package j.package_id db))

pub cancel-IsExclusive :
    (user : User) (pk : ℕ) (before db db' : EnvDb)
    → IsExclusive db
    → cancel_install_job user pk before db ≡ ok db'
    → IsExclusive db'
unfolding cancel_install_job
cancel-IsExclusive user pk before db db' h e =
    let (j, f1, e1) = bind_ok (found_job (get_job pk before)) _ e in
    let (v, f2, e2) = bind_ok (get_env_for_user user j.env_id before) _ e1 in
    let (a, f3, e3) = bind_ok (require (j.created_by == user.id) forbidden) _ e2 in
    let (b, f4, e4) = bind_ok (require (is_active_job j.status) validation_error) _ e3 in
    let (k, f5, e5) = bind_ok (found_job (get_job pk db)) _ e4 in
    let same = ok_inj _ db' e5 in
    subst IsExclusive same (
      job-IsExclusive db _ h (λ i. i.id == pk) (cancel_job db.now) refl refl
        (λ e i q w. ground (arith, w)))

pub delete_started-IsExclusive :
    (env_id : ℕ) (previous : EnvState) (db db' : EnvDb)
    → IsExclusive db
    → mark_env_package_delete_started env_id db ≡ ok (previous, db')
    → IsExclusive db'
unfolding mark_env_package_delete_started
delete_started-IsExclusive env_id previous db db' h = by_found (get_environment env_id db)
  where
    by_found :
        (o : Option Environment) → mark_found env_id o db ≡ ok (previous, db') → IsExclusive db'
    by_found none e = cc
    by_found (some v) e =
        let (a, passed, e1) =
          bind_ok (require (not (env_has_active_package_operation env_id db)) validation_error) _
            e in
        let same = ok_inj (v.state, set_state env_id EnvState.installing db) (previous, db') e1 in
        let (not_held, idle) = free db db' h env_id a passed in
        set_state-IsExclusive db db' h env_id EnvState.installing
          (λ _. active-none env_id db.jobs idle) (sym (ap (λ (r : EnvState × EnvDb). r.1) same))

pub delete_env-IsExclusive :
    (removed : Bool) (user : User) (env_id : ℕ) (before db db' : EnvDb)
    → IsExclusive db
    → delete_env removed user env_id before db ≡ ok db'
    → IsExclusive db'
unfolding delete_env get_environment
delete_env-IsExclusive removed user env_id before db db' h e =
    let (v, f1, e1) = bind_ok (get_env_for_user user env_id before) _ e in
    let (a, f2, e2) = bind_ok (require_env_owner user v.0) _ e1 in
    let (b, f3, e3) = bind_ok (require (not (is_importing v.1)) validation_error) _ e2 in
    let (c, f4, e4) = bind_ok (require removed validation_error) _ e3 in
    let (d, f5, e5) = bind_ok (found_environment (get_environment env_id db)) _ e4 in
    let same = ok_inj _ db' e5 in
    subst IsExclusive same (
      fewer-IsExclusive db _ h (λ k. active-delete_where k (λ j. j.env_id == env_id) db.jobs)
        (λ k there. elim (installing-delete_first k env_id db.environments there) [
          | inl stays_held ↦ inl stays_held
          | inr here ↦ inr (rw here (active-delete_env env_id db.jobs))
        ]))

pub delete_package-IsExclusive :
    (user : User) (env_id item : ℕ) (before db db' : EnvDb)
    → IsExclusive db
    → delete_package user env_id item before db ≡ ok db'
    → IsExclusive db'
unfolding delete_package
delete_package-IsExclusive user env_id item before db db' h e =
    let (v, f1, e1) = bind_ok (get_env_for_user user env_id before) _ e in
    let (a, f2, e2) = bind_ok (require_env_owner user v.0) _ e1 in
    let (i, f3, e3) = bind_ok (found_package (get_package item before)) _ e2 in
    let (c, f4, e4) = bind_ok (require (i.env_id == v.0.id) validation_error) _ e3 in
    let (d, f5, e5) = bind_ok (found_package (get_package item db)) _ e4 in
    let same = ok_inj _ db' e5 in subst IsExclusive same (same-IsExclusive db _ h refl refl)

pub add_environment-IsExclusive :
    (owner : ℕ) (name path : Text) (state : EnvState) (db db' : EnvDb)
    → IsExclusive db
    → is_installing state ≡ false
    → add_environment owner name path state db ≡ ok db'
    → IsExclusive db'
unfolding add_environment get_environment
add_environment-IsExclusive owner name path state db db' h idle e =
    let (a, f1, e1) = bind_ok (require (not (env_exists name path db)) validation_error) _ e in
    let same = ok_inj _ db' e1 in
    subst IsExclusive same (
      fewer-IsExclusive db _ h (λ k. omega arith)
        (λ k there. inl (
          installing-append k db.environments (new_environment db owner name path state) idle
            there)))

pub set_idle-IsExclusive :
    (pk : ℕ) (state : EnvState) (db : EnvDb)
    → IsExclusive db
    → is_installing state ≡ false
    → IsExclusive (set_state pk state db)
set_idle-IsExclusive pk state db h idle =
    set_state-IsExclusive db (set_state pk state db) h pk state
      (λ busy. let bad : true ≡ false = sym busy ∙ idle in cc) refl
