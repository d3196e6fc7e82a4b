-- ===== src/Envs/Register.antt =====
-- Rows that are registered without an installation: an uploaded package, and the environments that a
-- scan of the disk finds (backend/app/services/env_service.py). The version of PyTorch that is probed
-- for a new row has no column here.
use nebula_grid.Base.{
  ℕ, ◌+◌, ◌≡◌, refl, subst, inl, Bool, true, ◌&&◌, List, [], ◌∷◌, ◌++◌, any, arith, if_ind,
  if◌then◌else◌,
}
use nebula_grid.Base.Text.{Text, codes, text_eq}
use nebula_grid.Model.{User}
use nebula_grid.Response.{Response, ok, ◌>>=◌}
use nebula_grid.Response.Laws.{bind_ok, ok_inj}
use nebula_grid.Envs.Store.{
  EnvState, Environment, EnvPackage, PackageStatus, EnvDb, get_environment,
}
use nebula_grid.Envs.Install.{get_env_for_user, require_env_owner}
use nebula_grid.Envs.Lock.{IsExclusive, same-IsExclusive, fewer-IsExclusive, installing-append}

pub record EnvPackageUploadRequest : Type 0 where
  pub filename : Text
  pub package_type : Text

abbrev pub uploaded_package : Text → User → ℕ → EnvPackageUploadRequest → EnvDb → EnvPackage
uploaded_package env_package_root user env_id p db = record {
  id = db.next_id;
  env_id = env_id;
  owner_user_id = user.id;
  package_type = p.package_type;
  file_path = env_package_root ++ (codes "/" ++ (user.username ++ (codes "/" ++ p.filename)));
  status = PackageStatus.uploaded;
}

-- The setting of the folder of packages is an argument.
unfoldable pub upload_package :
    Text → User → ℕ → EnvPackageUploadRequest → EnvDb → EnvDb → Response EnvDb
unfolding get_env_for_user require_env_owner
upload_package env_package_root user env_id p before db = do
  (e, state) ← get_env_for_user user env_id before
  _ ← require_env_owner user e
  ok (record db {
    packages = db.packages ++ (uploaded_package env_package_root user e.id p db ∷ []);
    next_id = db.next_id + 1;
  })

-- `(name, path) in existing`
unfoldable pub is_existing : Text × Text → List Environment → Bool
is_existing (name, path) existing = any (λ e. text_eq e.name name && text_eq e.path path) existing

abbrev pub detected_environment : EnvDb → ℕ → Text × Text → Environment
detected_environment db owner (name, path) = record {
  id = db.next_id;
  owner_user_id = owner;
  name = name;
  path = path;
  is_system = true;
  state = EnvState.available;
}

abbrev pub add_detected : ℕ → Text × Text → EnvDb → EnvDb
add_detected owner item db = record db {
  environments = db.environments ++ (detected_environment db owner item ∷ []);
  next_id = db.next_id + 1;
}

-- The loop over what the scan found; the rows that are there are read once, before it.
unfoldable pub add_missing : ℕ → List Environment → List (Text × Text) → EnvDb → EnvDb
unfolding is_existing
add_missing owner existing [] db = db
add_missing owner existing (item ∷ items) db =
    add_missing owner existing items
      (if is_existing item existing then db else add_detected owner item db)

unfoldable pub sync_current_conda_envs : User → List (Text × Text) → EnvDb → EnvDb
unfolding add_missing
sync_current_conda_envs user current_envs db = add_missing user.id db.environments current_envs db

pub upload_package-IsExclusive :
    (root : Text) (user : User) (env_id : ℕ) (p : EnvPackageUploadRequest) (before db db' : EnvDb)
    → IsExclusive db
    → upload_package root user env_id p before db ≡ ok db'
    → IsExclusive db'
unfolding upload_package
upload_package-IsExclusive root user env_id p before db db' h e =
    let (v, f1, e1) = bind_ok (get_env_for_user user env_id before) _ e in
    let (a, f2, e2) = bind_ok (require_env_owner user v.0) _ e1 in
    subst IsExclusive (ok_inj _ db' e2) (same-IsExclusive db _ h refl refl)

add_detected-IsExclusive :
    (owner : ℕ) (item : Text × Text) (db : EnvDb)
    → IsExclusive db
    → IsExclusive (add_detected owner item db)
unfolding get_environment
add_detected-IsExclusive owner item db h =
    fewer-IsExclusive db (add_detected owner item db) h (λ k. omega arith)
      (λ k there.
        inl (installing-append k db.environments (detected_environment db owner item) refl there))

add_missing-IsExclusive :
    (owner : ℕ) (existing : List Environment) (items : List (Text × Text)) (db : EnvDb)
    → IsExclusive db
    → IsExclusive (add_missing owner existing items db)
unfolding add_missing
add_missing-IsExclusive owner existing [] db h = h
add_missing-IsExclusive owner existing (item ∷ items) db h =
    add_missing-IsExclusive owner existing items _ (
      if_ind IsExclusive (is_existing item existing) (λ _. h)
        (λ _. add_detected-IsExclusive owner item db h))

pub sync_current_conda_envs-IsExclusive :
    (user : User) (current_envs : List (Text × Text)) (db : EnvDb)
    → IsExclusive db
    → IsExclusive (sync_current_conda_envs user current_envs db)
unfolding sync_current_conda_envs
sync_current_conda_envs-IsExclusive user current_envs db h =
    add_missing-IsExclusive user.id db.environments current_envs db h
