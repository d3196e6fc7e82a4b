-- ===== src/Scenarios/Environments.antt =====
-- An environment with one package: a request for its installation, the run of the job, and a request
-- that finds the environment busy (backend/app/services/env_service.py,
-- backend/app/workers/env_install_worker.py).
use nebula_grid.Base.{◌≡◌, refl, true, false, none, some, [], ◌∷◌, arith, dedup_from}
use nebula_grid.Base.Int.{pos}
use nebula_grid.Base.Text.{codes, text_eq}
use nebula_grid.Base.Table.{first, select}
use nebula_grid.Access.{has_permission}
use nebula_grid.Response.{Response, ok, error, validation_error}
use nebula_grid.Envs.Store.{EnvState, PackageStatus, EnvDb, default, get_package}
use nebula_grid.Envs.Install.{EnvPackageInstallRequest, install_package}
use nebula_grid.Envs.Jobs.{claim_next_job, finish_install_job}
use nebula_grid.Envs.Steps.{EnvRun, stays, goes_on, install, claim_next, finish, EnvRun-IsExclusive}
use nebula_grid.Envs.Lock.{IsExclusive}
use nebula_grid.Scenarios.Cluster.{alice}

abbrev start : EnvDb
start = record {
  now = 1000;
  environments =
      record {
        id = 4;
        owner_user_id = 1;
        name = codes "torch";
        path = codes "/envs/torch";
        is_system = false;
        state = EnvState.available;
      }
      ∷ [];
  packages =
      record {
        id = 6;
        env_id = 4;
        owner_user_id = 1;
        package_type = codes "wheel";
        file_path = codes "/packages/a.whl";
        status = PackageStatus.uploaded;
      }
      ∷ [];
  jobs = [];
  next_id = 100;
}

start-IsExclusive : IsExclusive start
unfolding select
start-IsExclusive = record { one = λ e. omega arith; held = λ e h. refl }

abbrev request : EnvPackageInstallRequest
request = record {
  target_node_id = none;
  compile_on_master = false;
  gpu_visibility = default;
  visible_gpu_indices = [];
}

abbrev written : Response EnvDb → EnvDb
written (ok db) = db
written (error e) = start

abbrev installed : EnvDb
installed = written (install_package (λ s. s) alice 4 6 request start start)

install_taken : install_package (λ s. s) alice 4 6 request start start ≡ ok installed
unfolding install_package has_permission text_eq first dedup_from get_package
install_taken = refl

-- The environment is busy now.
install_refused :
    install_package (λ s. s) alice 4 6 request installed installed ≡ error validation_error
unfolding install_package has_permission text_eq first dedup_from get_package
install_refused = refl

abbrev claimed : EnvDb
claimed = (claim_next_job (λ pk. false) installed).1

abbrev finished : EnvDb
finished = finish_install_job 100 true (some (pos 0)) claimed

history : EnvRun start finished
history =
    goes_on
      (goes_on (goes_on stays (install (λ s. s) alice 4 6 request start install_taken))
        (claim_next (λ pk. false)))
      (finish 100 true (some (pos 0)))

EnvRun-IsExclusive_example : IsExclusive finished
EnvRun-IsExclusive_example = EnvRun-IsExclusive start finished start-IsExclusive history
