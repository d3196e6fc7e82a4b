-- ===== src/Envs/Steps.antt =====
-- The transactions on environments and jobs in any order (backend/app/services/env_service.py,
-- backend/app/workers/env_install_worker.py).
use nebula_grid.Base.{ℕ, ◌≡◌, refl, Bool, false, Option, List}
use nebula_grid.Base.Int.{ℤ}
use nebula_grid.Base.Text.{Text}
use nebula_grid.Model.{User}
use nebula_grid.Response.{Response, ok}
use nebula_grid.Envs.Store.{EnvState, EnvDb, get_environment, is_installing}
use nebula_grid.Envs.Install.{
  EnvPackageInstallRequest, LocalSpec, install_package, install_local_package,
  mark_env_package_delete_started, restore_env_state, delete_package, delete_env, add_environment,
  update_env_import_state,
}
use nebula_grid.Envs.Jobs.{
  claim_next_job, claim_own_job, begin_install_job, finish_install_job, cancel_install_job,
}
use nebula_grid.Envs.Register.{
  EnvPackageUploadRequest, upload_package, sync_current_conda_envs, upload_package-IsExclusive,
  sync_current_conda_envs-IsExclusive,
}
use nebula_grid.Envs.Lock.{IsExclusive, same-IsExclusive}
use nebula_grid.Envs.Transactions.{
  after_begin, install_package-IsExclusive, install_local-IsExclusive, claim_next-IsExclusive,
  claim_own-IsExclusive, finish_install-IsExclusive, begin_install-IsExclusive, cancel-IsExclusive,
  delete_started-IsExclusive, delete_env-IsExclusive, delete_package-IsExclusive,
  add_environment-IsExclusive, set_idle-IsExclusive,
}

-- One transaction. The sessions of a request that check and write have databases of their own.
pub data EnvStep (db : EnvDb) : EnvDb → Type 0 where
  waits : (now : ℕ) → EnvStep db (record db { now = now })
  install :
      {db' : EnvDb} (quote : Text → Text) (user : User) (env_id item : ℕ)
      (p : EnvPackageInstallRequest) (before : EnvDb)
      → install_package quote user env_id item p before db ≡ ok db'
      → EnvStep db db'
  install_local :
      {db' : EnvDb} (spec : Response LocalSpec) (user : User) (env_id : ℕ)
      (p : EnvPackageInstallRequest) (before : EnvDb)
      → install_local_package spec user env_id p before db ≡ ok db'
      → EnvStep db db'
  claim_next : (locked : ℕ → Bool) → EnvStep db (claim_next_job locked db).1
  claim_own : (pk : ℕ) → EnvStep db (claim_own_job pk db).1
  begin : (pk : ℕ) → EnvStep db (after_begin (begin_install_job pk db))
  finish :
      (pk : ℕ) (succeeded : Bool) (code : Option ℤ)
      → EnvStep db (finish_install_job pk succeeded code db)
  cancel :
      {db' : EnvDb} (user : User) (pk : ℕ) (before : EnvDb)
      → cancel_install_job user pk before db ≡ ok db'
      → EnvStep db db'
  delete_started :
      {db' : EnvDb} (env_id : ℕ) (previous : EnvState)
      → mark_env_package_delete_started env_id db ≡ ok (previous, db')
      → EnvStep db db'
  delete_ended :
      (env_id : ℕ) (previous : EnvState)
      → is_installing previous ≡ false
      → EnvStep db (restore_env_state env_id previous db)
  forget_package :
      {db' : EnvDb} (user : User) (env_id item : ℕ) (before : EnvDb)
      → delete_package user env_id item before db ≡ ok db'
      → EnvStep db db'
  forget_env :
      {db' : EnvDb} (removed : Bool) (user : User) (env_id : ℕ) (before : EnvDb)
      → delete_env removed user env_id before db ≡ ok db'
      → EnvStep db db'
  add_env :
      {db' : EnvDb} (owner : ℕ) (name path : Text) (state : EnvState)
      → is_installing state ≡ false
      → add_environment owner name path state db ≡ ok db'
      → EnvStep db db'
  upload :
      {db' : EnvDb} (root : Text) (user : User) (env_id : ℕ) (p : EnvPackageUploadRequest)
      (before : EnvDb)
      → upload_package root user env_id p before db ≡ ok db'
      → EnvStep db db'
  sync :
      (user : User) (current_envs : List (Text × Text))
      → EnvStep db (sync_current_conda_envs user current_envs db)
  work_env :
      (env_id : ℕ) (state : EnvState)
      → is_installing state ≡ false
      → EnvStep db (update_env_import_state env_id state db)

-- A history of transactions.
pub data EnvRun (start : EnvDb) : EnvDb → Type 0 where
  stays : EnvRun start start
  goes_on : {middle last : EnvDb} → EnvRun start middle → EnvStep middle last → EnvRun start last

step-IsExclusive : (db db' : EnvDb) → IsExclusive db → EnvStep db db' → IsExclusive db'
unfolding restore_env_state update_env_import_state get_environment
step-IsExclusive db _ h (waits now) = same-IsExclusive db (record db { now = now }) h refl refl
step-IsExclusive db db' h (install quote user env_id item p before e) =
    install_package-IsExclusive quote user env_id item p before db db' h e
step-IsExclusive db db' h (install_local spec user env_id p before e) =
    install_local-IsExclusive spec user env_id p before db db' h e
step-IsExclusive db _ h (claim_next locked) = claim_next-IsExclusive locked db h
step-IsExclusive db _ h (claim_own pk) = claim_own-IsExclusive pk db h
step-IsExclusive db _ h (begin pk) = begin_install-IsExclusive pk db h
step-IsExclusive db _ h (finish pk succeeded code) =
    finish_install-IsExclusive pk succeeded code db h
step-IsExclusive db db' h (cancel user pk before e) = cancel-IsExclusive user pk before db db' h e
step-IsExclusive db db' h (delete_started env_id previous e) =
    delete_started-IsExclusive env_id previous db db' h e
step-IsExclusive db _ h (delete_ended env_id previous idle) =
    set_idle-IsExclusive env_id previous db h idle
step-IsExclusive db db' h (forget_package user env_id item before e) =
    delete_package-IsExclusive user env_id item before db db' h e
step-IsExclusive db db' h (forget_env removed user env_id before e) =
    delete_env-IsExclusive removed user env_id before db db' h e
step-IsExclusive db db' h (add_env owner name path state idle e) =
    add_environment-IsExclusive owner name path state db db' h idle e
step-IsExclusive db db' h (upload root user env_id p before e) =
    upload_package-IsExclusive root user env_id p before db db' h e
step-IsExclusive db _ h (sync user current_envs) =
    sync_current_conda_envs-IsExclusive user current_envs db h
step-IsExclusive db _ h (work_env env_id state idle) = set_idle-IsExclusive env_id state db h idle

-- Any history of transactions, each of which sees the ones before it, keeps the lock, if it holds at
-- the beginning: an environment never has two jobs that are queued or running, and none while a
-- deletion of its packages holds it.
pub EnvRun-IsExclusive : (start db : EnvDb) → IsExclusive start → EnvRun start db → IsExclusive db
EnvRun-IsExclusive start _ h stays = h
EnvRun-IsExclusive start db h (goes_on {middle} run step) =
    step-IsExclusive middle db (EnvRun-IsExclusive start middle h run) step
