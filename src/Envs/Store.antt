-- ===== src/Envs/Store.antt =====
-- The tables of environments, packages and jobs (backend/app/db/models/core.py), without the columns
-- that only the interface shows, and the tests on them (backend/app/services/env_service.py). A new row
-- stands last.
use nebula_grid.Base.{ℕ, Bool, true, false, ◌&&◌, ◌||◌, Option, none, some, List, ◌==◌, any}
use nebula_grid.Base.Int.{ℤ}
use nebula_grid.Base.Text.{Text}
use nebula_grid.Base.Table.{first, update_first}

pub data EnvState : Type 0 where
  available registered installing copying importing fixing testing faulty : EnvState

pub record Environment : Type 0 where
  pub id : ℕ
  pub owner_user_id : ℕ
  pub name : Text
  pub path : Text
  pub is_system : Bool
  pub state : EnvState

pub data PackageStatus : Type 0 where
  uploaded queued installing installed failed : PackageStatus

pub record EnvPackage : Type 0 where
  pub id : ℕ
  pub env_id : ℕ
  pub owner_user_id : ℕ
  pub package_type : Text
  pub file_path : Text
  pub status : PackageStatus

pub data JobStatus : Type 0 where
  queued running succeeded failed cancelled : JobStatus

pub data GpuVisibility : Type 0 where
  default cpu gpu : GpuVisibility

pub record EnvInstallJob : Type 0 where
  pub id : ℕ
  pub package_id : ℕ
  pub env_id : ℕ
  pub target_node_id : Option ℕ
  pub compile_on_master : Bool
  pub gpu_visibility : GpuVisibility
  pub visible_gpu_indices : List ℤ
  pub command : Text
  pub status : JobStatus
  pub return_code : Option ℤ
  pub created_by : ℕ
  pub created_at : ℕ
  pub started_at : Option ℕ
  pub finished_at : Option ℕ

pub record EnvDb : Type 0 where
  pub now : ℕ
  pub environments : List Environment
  pub packages : List EnvPackage
  pub jobs : List EnvInstallJob
  pub next_id : ℕ

unfoldable pub get_environment : ℕ → EnvDb → Option Environment
get_environment pk db = first (λ e. e.id == pk) db.environments

unfoldable pub get_package : ℕ → EnvDb → Option EnvPackage
get_package pk db = first (λ p. p.id == pk) db.packages

unfoldable pub get_job : ℕ → EnvDb → Option EnvInstallJob
get_job pk db = first (λ j. j.id == pk) db.jobs

unfoldable pub set_state : ℕ → EnvState → EnvDb → EnvDb
set_state pk state db = record db {
  environments = update_first (λ e. e.id == pk) (λ e. record e { state = state }) db.environments;
}

unfoldable pub set_package_status : ℕ → PackageStatus → EnvDb → EnvDb
set_package_status pk status db = record db {
  packages = update_first (λ p. p.id == pk) (λ p. record p { status = status }) db.packages;
}

abbrev pub is_installing : EnvState → Bool
is_installing installing = true
is_installing _ = false

abbrev pub is_usable_for_mutation : EnvState → Bool
is_usable_for_mutation available = true
is_usable_for_mutation registered = true
is_usable_for_mutation _ = false

-- `ENV_IMPORT_ACTIVE_STATES`
abbrev pub is_importing : EnvState → Bool
is_importing copying = true
is_importing importing = true
is_importing fixing = true
is_importing testing = true
is_importing _ = false

-- `ENV_PACKAGE_ACTIVE_JOB_STATES`
abbrev pub is_active_job : JobStatus → Bool
is_active_job queued = true
is_active_job running = true
is_active_job _ = false

abbrev pub is_queued : JobStatus → Bool
is_queued queued = true
is_queued _ = false

abbrev pub is_cancelled : JobStatus → Bool
is_cancelled cancelled = true
is_cancelled _ = false

abbrev pub installing_environment : Option Environment → Bool
installing_environment none = false
installing_environment (some e) = is_installing e.state

abbrev pub works_on : ℕ → EnvInstallJob → Bool
works_on env_id j = (j.env_id == env_id) && is_active_job j.status

unfoldable pub env_has_active_package_operation : ℕ → EnvDb → Bool
unfolding get_environment
env_has_active_package_operation env_id db =
    installing_environment (get_environment env_id db) || any (works_on env_id) db.jobs
