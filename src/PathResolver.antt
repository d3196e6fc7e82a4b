-- ===== src/PathResolver.antt =====
-- The paths that a user may name (backend/app/core/path_resolver.py). A real path is the list of its
-- parts. What `Path.resolve` makes of a path, links followed, is a function of the file system.
pub mod Containment
use nebula_grid.Base.{
  ℕ, Bool, true, false, ◌&&◌, ◌||◌, not, List, [], ◌∷◌, ◌++◌, any, is_empty, map, ◌==◌,
  if◌then◌else◌,
}
use nebula_grid.Base.Text.{Text, codes, text_eq, split, starts_with}
use nebula_grid.Base.Table.{select}
use nebula_grid.Response.{Response, ok, error, ◌>>=◌, require, validation_error, forbidden}

abbrev pub Parts : Type 0
Parts = List Text

-- The settings that the resolver reads, and the file system.
pub record Files : Type 0 where
  pub resolve : Parts → Parts
  pub user_home_root : Text
  pub main_linux_user : Text
  pub visible_roots : List Text

-- The parts of `Path(path)`: empty pieces and single dots fall out.
unfoldable pub parts_of : Text → Parts
parts_of path = select (λ p. not (is_empty p) && not (text_eq p (codes "."))) (split b'/' path)

-- `str(Path(path).as_posix())`: exactly two leading slashes are kept.
pub record VirtualPath : Type 0 where
  pub double_slash : Bool
  pub parts : Parts

abbrev pub has_double_slash : Text → Bool
has_double_slash (a ∷ b ∷ []) = a == b'/' && b == b'/'
has_double_slash (a ∷ b ∷ c ∷ rest) = a == b'/' && (b == b'/' && not (c == b'/'))
has_double_slash _ = false

unfoldable pub normalize_virtual_path : Text → Response VirtualPath
unfolding parts_of
normalize_virtual_path path =
    if not (starts_with path (codes "/"))
    then error validation_error
    else ok (record { double_slash = has_double_slash path; parts = parts_of path })

-- `real_path == root or root in real_path.parents`
unfoldable pub is_within : Parts → Parts → Bool
is_within path [] = true
is_within [] (r ∷ root) = false
is_within (p ∷ path) (r ∷ root) = text_eq p r && is_within path root

unfoldable pub same_parts : Parts → Parts → Bool
same_parts [] [] = true
same_parts (p ∷ path) (r ∷ root) = text_eq p r && same_parts path root
same_parts _ _ = false

unfoldable pub real_roots : Files → List Parts
unfolding parts_of
real_roots files = map (λ root. files.resolve (parts_of root)) files.visible_roots

unfoldable pub resolve_visible_path : Files → Text → Response Parts
unfolding normalize_virtual_path real_roots is_within
resolve_visible_path files path = do
  normalized ← normalize_virtual_path path
  let real_path = files.resolve normalized.parts
  if not (any (is_within real_path) (real_roots files)) then error forbidden else ok real_path

unfoldable pub user_root : Files → Text → Bool → Parts
unfolding parts_of
user_root files username is_admin =
    if is_admin
    then files.resolve (codes "home" ∷ parts_of files.main_linux_user)
    else files.resolve (parts_of files.user_home_root ++ parts_of username)

unfoldable pub shared_roots : Files → List Parts
unfolding same_parts real_roots
shared_roots files =
    select (λ root. not (same_parts root (files.resolve (parts_of files.user_home_root))))
      (real_roots files)

unfoldable pub allowed_roots : Files → Text → Bool → List Parts
unfolding user_root shared_roots
allowed_roots files username is_admin = user_root files username is_admin ∷ shared_roots files

-- The path before its last resolution.
unfoldable pub candidate_path : Files → Text → Bool → VirtualPath → Parts
unfolding allowed_roots is_within
candidate_path files username is_admin normalized =
    let root = user_root files username is_admin in
    let absolute = files.resolve normalized.parts in
    if is_empty normalized.parts && not normalized.double_slash
    then root
    else if any (is_within absolute) (allowed_roots files username is_admin)
    then absolute
    else root ++ normalized.parts

unfoldable pub resolve_user_visible_path : Files → Text → Text → Bool → Response Parts
unfolding normalize_virtual_path candidate_path
resolve_user_visible_path files path username is_admin = do
  normalized ← normalize_virtual_path path
  let real_path = files.resolve (candidate_path files username is_admin normalized)
  if not (any (is_within real_path) (allowed_roots files username is_admin))
      then error forbidden
      else ok real_path
