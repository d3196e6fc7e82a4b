-- ===== src/Envs/Jobs.antt =====
-- The run of an installation job (backend/app/workers/env_install_worker.py, and the threads of
-- backend/app/services/env_service.py). What the installation returns is an argument.
use nebula_grid.Base.{
  ℕ, Bool, true, false, ◌&&◌, ◌||◌, not, Option, none, some, ◌==◌, ltb, if◌then◌else◌,
}
use nebula_grid.Base.Int.{ℤ}
use nebula_grid.Base.Table.{first, select, update_first, sort_by}
use nebula_grid.Model.{User}
use nebula_grid.Response.{
  Response, ok, error, ◌>>=◌, require, not_found, forbidden, validation_error,
}
use nebula_grid.Envs.Store.{
  Environment, EnvPackage, PackageStatus, EnvInstallJob, JobStatus, EnvDb, get_environment,
  get_package, get_job, set_package_status, is_active_job, is_queued, is_cancelled,
}
use nebula_grid.Envs.Install.{get_env_for_user}

abbrev pub start_job : ℕ → EnvInstallJob → EnvInstallJob
start_job now j = record j { status = JobStatus.running; started_at = some now }

-- The row that a query for queued jobs found, and locked.
abbrev pub is_found : ℕ → EnvInstallJob → Bool
is_found pk j = (j.id == pk) && is_queued j.status

unfoldable pub claim_job : ℕ → EnvDb → EnvDb
claim_job pk db = record db { jobs = update_first (is_found pk) (start_job db.now) db.jobs }

abbrev pub by_age : EnvInstallJob → EnvInstallJob → Bool
by_age a b = ltb a.created_at b.created_at || (a.created_at == b.created_at) && ltb a.id b.id

abbrev pub claim_found : Option EnvInstallJob → EnvDb → Option ℕ × EnvDb
claim_found none db = (none, db)
claim_found (some j) db = (some j.id, claim_job j.id db)

-- The rows that other workers have locked are skipped.
unfoldable pub claim_next_job : (ℕ → Bool) → EnvDb → Option ℕ × EnvDb
unfolding claim_job
claim_next_job locked db =
    claim_found
      (first (λ j. not (locked j.id)) (sort_by by_age (select (λ j. is_queued j.status) db.jobs)))
      db

abbrev pub claim_if : ℕ → Option EnvInstallJob → EnvDb → Bool × EnvDb
claim_if pk none db = (false, db)
claim_if pk (some j) db = if is_queued j.status then (true, claim_job pk db) else (false, db)

-- The thread of a request claims its own job, unless a worker was faster.
unfoldable pub claim_own_job : ℕ → EnvDb → Bool × EnvDb
unfolding claim_job
claim_own_job pk db = claim_if pk (get_job pk db) db

abbrev pub package_result : Bool → PackageStatus
package_result true = PackageStatus.installed
package_result false = PackageStatus.failed

abbrev pub job_result : Bool → JobStatus
job_result true = JobStatus.succeeded
job_result false = JobStatus.failed

abbrev pub end_job : ℕ → Bool → Option ℤ → EnvInstallJob → EnvInstallJob
end_job now succeeded code j = record j {
  status = job_result succeeded;
  return_code = code;
  finished_at = some now;
}

-- The status of a package that is not there any more is not written.
unfoldable pub finish_job : EnvInstallJob → Bool → Option ℤ → EnvDb → EnvDb
unfolding set_package_status
finish_job job succeeded code db =
    let ended : EnvDb = record db {
      jobs = update_first (λ j. j.id == job.id) (end_job db.now succeeded code) db.jobs;
    } in
    if is_cancelled job.status
    then db
    else set_package_status job.package_id (package_result succeeded) ended

-- What follows the first session of a run: nothing, or the installation.
pub data Begun : Type 0 where
  ended : EnvDb → Begun
  installs : EnvDb → Begun

abbrev pub begin_with : EnvInstallJob → Option Environment → Option EnvPackage → EnvDb → Begun
begin_with job (some e) (some p) db =
    installs (set_package_status job.package_id PackageStatus.installing db)
begin_with job _ _ db = ended (finish_job job false none db)

abbrev pub begin_found : Option EnvInstallJob → EnvDb → Begun
begin_found none db = ended db
begin_found (some job) db =
    let begun = begin_with job (get_environment job.env_id db) (get_package job.package_id db) db in
    if is_cancelled job.status then ended db else begun

-- The first session of `run_install_job`.
unfoldable pub begin_install_job : ℕ → EnvDb → Begun
unfolding get_job finish_job
begin_install_job pk db = begin_found (get_job pk db) db

abbrev pub finish_found : Option EnvInstallJob → Bool → Option ℤ → EnvDb → EnvDb
finish_found none succeeded code db = db
finish_found (some job) succeeded code db = finish_job job succeeded code db

-- The last session of `run_install_job`.
unfoldable pub finish_install_job : ℕ → Bool → Option ℤ → EnvDb → EnvDb
unfolding get_job finish_job
finish_install_job pk succeeded code db = finish_found (get_job pk db) succeeded code db

abbrev pub run_begun : ℕ → (EnvDb → EnvDb) → Bool → Option ℤ → Begun → EnvDb
run_begun pk during succeeded code (ended db) = db
run_begun pk during succeeded code (installs db) = finish_install_job pk succeeded code (during db)

-- `during` is what other sessions do while the installation runs.
unfoldable pub run_install_job : ℕ → (EnvDb → EnvDb) → Bool → Option ℤ → EnvDb → EnvDb
unfolding begin_install_job finish_install_job
run_install_job pk during succeeded code db =
    run_begun pk during succeeded code (begin_install_job pk db)

abbrev pub cancel_job : ℕ → EnvInstallJob → EnvInstallJob
cancel_job now j = record j { status = JobStatus.cancelled; finished_at = some now }

abbrev pub found_job : Option EnvInstallJob → Response EnvInstallJob
found_job none = error not_found
found_job (some j) = ok j

unfoldable pub cancel_install_job : User → ℕ → EnvDb → EnvDb → Response EnvDb
unfolding get_job get_env_for_user
cancel_install_job user pk before db = do
  job ← found_job (get_job pk before)
  _ ← get_env_for_user user job.env_id before
  _ ← require (job.created_by == user.id) forbidden
  _ ← require (is_active_job job.status) validation_error
  _ ← found_job (get_job pk db)
  ok (record db { jobs = update_first (λ j. j.id == pk) (cancel_job db.now) db.jobs })
