-- ===== src/Envs/Install.antt =====
-- The requests on environments and their packages (backend/app/services/env_service.py). A request
-- checks in one session and writes in a later one, so it has two databases: `before`, at the checks,
-- and `db`, at the writes.
use nebula_grid.Base.{
  ℕ, ◌+◌, Bool, true, false, ◌&&◌, ◌||◌, not, Option, none, some, List, [], ◌∷◌, ◌++◌, ◌==◌, map,
  any, length, is_empty, is_some, dedup_from, if◌then◌else◌,
}
use nebula_grid.Base.Int.{ℤ, negsuc, pos, positive_part}
use nebula_grid.Base.Text.{Text, codes, text_eq, starts_with}
use nebula_grid.Base.Table.{delete_where, delete_first}
use mathlib.Core.List.{reverse}
use nebula_grid.Model.{User}
use nebula_grid.Access.{has_permission, is_admin}
use nebula_grid.Response.{
  Response, ok, error, ◌>>=◌, require, not_found, forbidden, validation_error,
}
use nebula_grid.Envs.Store.{
  EnvState, Environment, EnvPackage, PackageStatus, EnvInstallJob, JobStatus, EnvDb, GpuVisibility,
  default, gpu, get_environment, get_package, set_state, set_package_status, is_usable_for_mutation,
  is_importing, env_has_active_package_operation,
}

-- The state that `env_model_to_info` shows.
unfoldable pub shown_state : Environment → EnvDb → EnvState
unfolding env_has_active_package_operation
shown_state e db = if env_has_active_package_operation e.id db then EnvState.installing else e.state

-- `get_env_for_user`, with the state that it shows.
unfoldable pub get_env_for_user : User → ℕ → EnvDb → Response (Environment × EnvState)
unfolding shown_state
get_env_for_user user pk db = do
  _ ← require (has_permission user.role (codes "envs:read")) forbidden
  found (get_environment pk db)
  where
    found : Option Environment → Response (Environment × EnvState)
    found none = error not_found
    found (some e) =
        if text_eq e.name (codes "base") then error not_found else ok (e, shown_state e db)

unfoldable pub require_env_owner : User → Environment → Response Bool
require_env_owner user e =
    if is_admin user.role
    then ok true
    else if e.is_system
    then error forbidden
    else require (e.owner_user_id == user.id) forbidden

pub record EnvPackageInstallRequest : Type 0 where
  pub target_node_id : Option ℕ
  pub compile_on_master : Bool
  pub gpu_visibility : GpuVisibility
  pub visible_gpu_indices : List ℤ

abbrev is_default : GpuVisibility → Bool
is_default default = true
is_default _ = false

abbrev is_gpu : GpuVisibility → Bool
is_gpu gpu = true
is_gpu _ = false

abbrev is_negative : ℤ → Bool
is_negative (pos n) = false
is_negative (negsuc n) = true

-- `target_node_id` counts as a test of its own: 0 is no node there.
abbrev is_node : Option ℕ → Bool
is_node none = false
is_node (some n) = not (n == 0)

unfoldable pub validate_compile_install_selection : EnvPackageInstallRequest → Response Bool
validate_compile_install_selection p = do
  let indices = p.visible_gpu_indices
  let distinct = dedup_from [] (map positive_part indices)
  _ ← require (not (p.compile_on_master && is_node p.target_node_id)) validation_error
  _ ←
      require
        (p.compile_on_master
          || (is_some p.target_node_id || (is_default p.gpu_visibility && is_empty indices)))
        validation_error
  _ ← require (is_gpu p.gpu_visibility || is_empty indices) validation_error
  _ ← require (not (is_gpu p.gpu_visibility && is_empty indices)) validation_error
  require (not (any is_negative indices) && (length distinct == length indices)) validation_error

abbrev ends_with : Text → Text → Bool
ends_with s t = starts_with (reverse s) (reverse t)

-- The command, where `quote` is `shlex.quote`.
unfoldable pub build_uploaded_package_install_command : (Text → Text) → EnvPackage → Text
build_uploaded_package_install_command quote item =
    if any (text_eq item.package_type)
        (codes "conda" ∷ codes "conda_archive" ∷ codes "tar_bz2" ∷ [])
      || ends_with item.file_path (codes ".tar.bz2")
    then codes "conda install --offline -y " ++ quote item.file_path
    else codes "python -m pip install " ++ quote item.file_path

abbrev pub new_job : EnvDb → ℕ → ℕ → EnvPackageInstallRequest → Text → ℕ → EnvInstallJob
new_job db package_id env_id p command created_by = record {
  id = db.next_id;
  package_id = package_id;
  env_id = env_id;
  target_node_id = p.target_node_id;
  compile_on_master = p.compile_on_master;
  gpu_visibility = p.gpu_visibility;
  visible_gpu_indices = p.visible_gpu_indices;
  command = command;
  status = JobStatus.queued;
  return_code = none;
  created_by = created_by;
  created_at = db.now;
  started_at = none;
  finished_at = none;
}

-- `ensure_env_ready_for_package_operation`, and the new job.
unfoldable pub add_job : ℕ → ℕ → EnvPackageInstallRequest → Text → ℕ → EnvDb → Response EnvDb
unfolding env_has_active_package_operation
add_job package_id env_id p command created_by db = do
  _ ← require (not (env_has_active_package_operation env_id db)) validation_error
  ok (record db {
    jobs = db.jobs ++ (new_job db package_id env_id p command created_by ∷ []);
    next_id = db.next_id + 1;
  })

abbrev pub found_package : Option EnvPackage → Response EnvPackage
found_package none = error not_found
found_package (some p) = ok p

-- The checks that an installation and a deletion of packages share.
unfoldable pub check_mutable : User → ℕ → EnvDb → Response Environment
unfolding get_env_for_user require_env_owner
check_mutable user env_id before = do
  (e, state) ← get_env_for_user user env_id before
  _ ← require_env_owner user e
  _ ← require (is_usable_for_mutation state) validation_error
  ok e

unfoldable pub install_package :
    (Text → Text) → User → ℕ → ℕ → EnvPackageInstallRequest → EnvDb → EnvDb → Response EnvDb
unfolding check_mutable validate_compile_install_selection add_job set_package_status
    build_uploaded_package_install_command
install_package quote user env_id package_id p before db = do
  e ← check_mutable user env_id before
  _ ← validate_compile_install_selection p
  item ← found_package (get_package package_id before)
  _ ← require (item.env_id == e.id) validation_error
  _ ← found_package (get_package package_id db)
  add_job package_id e.id p (build_uploaded_package_install_command quote item) user.id
      (set_package_status package_id PackageStatus.queued db)

-- What `build_local_install_job_spec` makes of a request.
pub record LocalSpec : Type 0 where
  pub method : Text
  pub command : Text
  pub source_path : Text

abbrev pub local_package : EnvDb → ℕ → ℕ → LocalSpec → EnvPackage
local_package db env_id owner_user_id spec = record {
  id = db.next_id;
  env_id = env_id;
  owner_user_id = owner_user_id;
  package_type = spec.method;
  file_path = spec.source_path;
  status = PackageStatus.queued;
}

unfoldable pub install_local_package :
    Response LocalSpec → User → ℕ → EnvPackageInstallRequest → EnvDb → EnvDb → Response EnvDb
unfolding check_mutable validate_compile_install_selection add_job
install_local_package spec user env_id p before db = do
  e ← check_mutable user env_id before
  _ ← validate_compile_install_selection p
  s ← spec
  add_job db.next_id e.id p s.command user.id (record db {
    packages = db.packages ++ (local_package db e.id user.id s ∷ []);
    next_id = db.next_id + 1;
  })

abbrev pub mark_found : ℕ → Option Environment → EnvDb → Response (EnvState × EnvDb)
mark_found env_id none db = error not_found
mark_found env_id (some e) db = do
  _ ← require (not (env_has_active_package_operation env_id db)) validation_error
  ok (e.state, set_state env_id EnvState.installing db)

-- The lock that a deletion of installed packages takes, and its end.
unfoldable pub mark_env_package_delete_started : ℕ → EnvDb → Response (EnvState × EnvDb)
unfolding env_has_active_package_operation set_state
mark_env_package_delete_started env_id db = mark_found env_id (get_environment env_id db) db

unfoldable pub restore_env_state : ℕ → EnvState → EnvDb → EnvDb
unfolding set_state
restore_env_state env_id state db = set_state env_id state db

-- A request for the deletion of a package record.
unfoldable pub delete_package : User → ℕ → ℕ → EnvDb → EnvDb → Response EnvDb
unfolding get_env_for_user require_env_owner
delete_package user env_id package_id before db = do
  (e, state) ← get_env_for_user user env_id before
  _ ← require_env_owner user e
  item ← found_package (get_package package_id before)
  _ ← require (item.env_id == e.id) validation_error
  _ ← found_package (get_package package_id db)
  ok (record db { packages = delete_first (λ p. p.id == package_id) db.packages })

abbrev pub found_environment : Option Environment → Response Environment
found_environment none = error not_found
found_environment (some e) = ok e

-- The deletion of an environment; `removed` tells whether its directory may be deleted and is gone.
unfoldable pub delete_env : Bool → User → ℕ → EnvDb → EnvDb → Response EnvDb
unfolding get_env_for_user require_env_owner
delete_env removed user env_id before db = do
  (e, state) ← get_env_for_user user env_id before
  _ ← require_env_owner user e
  _ ← require (not (is_importing state)) validation_error
  _ ← require removed validation_error
  _ ← found_environment (get_environment env_id db)
  ok (record db {
    environments = delete_first (λ e. e.id == env_id) db.environments;
    packages = delete_where (λ p. p.env_id == env_id) db.packages;
    jobs = delete_where (λ j. j.env_id == env_id) db.jobs;
  })

-- `env_exists`
unfoldable pub env_exists : Text → Text → EnvDb → Bool
env_exists name path db = any (λ e. text_eq e.name name || text_eq e.path path) db.environments

abbrev pub new_environment : EnvDb → ℕ → Text → Text → EnvState → Environment
new_environment db owner name path state = record {
  id = db.next_id;
  owner_user_id = owner;
  name = name;
  path = path;
  is_system = false;
  state = state;
}

-- The row of an import (`importing`), of a copy (`copying`) or of an environment that a user names
-- (`registered`).
unfoldable pub add_environment : ℕ → Text → Text → EnvState → EnvDb → Response EnvDb
unfolding env_exists
add_environment owner name path state db = do
  _ ← require (not (env_exists name path db)) validation_error
  ok (record db {
    environments = db.environments ++ (new_environment db owner name path state ∷ []);
    next_id = db.next_id + 1;
  })

unfoldable pub update_env_import_state : ℕ → EnvState → EnvDb → EnvDb
unfolding set_state
update_env_import_state env_id state db = set_state env_id state db
