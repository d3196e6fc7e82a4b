-- ===== src/PathResolver/Containment.antt =====
-- Where the accepted paths lie (backend/app/core/path_resolver.py).
use nebula_grid.Base.{
  ◌≡◌, refl, ◌⊎◌, inl, inr, Bool, true, false, ◌||◌, not, List, [], ◌∷◌, any, map, Any, Bool-cases,
  arith,
}
use nebula_grid.Base.Text.{Text, starts_with, codes}
use nebula_grid.Response.{ok, error, validation_error, forbidden}
use nebula_grid.PathResolver.{
  Parts, Files, VirtualPath, normalize_virtual_path, is_within, user_root, shared_roots,
  allowed_roots, candidate_path, resolve_user_visible_path, parts_of, same_parts, real_roots,
  has_double_slash,
}
use nebula_grid.Base.Table.{select}

-- A visible root of the settings that is not the folder of all users holds the path.
abbrev pub InShared : Files → Parts → Type 0
InShared files path =
    Any
      (λ setting.
        (is_within path (files.resolve (parts_of setting)) ≡ true)
        × (same_parts (files.resolve (parts_of setting))
              (files.resolve (parts_of files.user_home_root))
            ≡ false))
      files.visible_roots

module _ (files : Files) (path : Parts) where
  abbrev is_shared : Parts → Bool
  is_shared root = not (same_parts root (files.resolve (parts_of files.user_home_root)))

  within_selected :
      (settings : List Text)
      → any
          (is_within path)
          (select is_shared (map (λ setting. files.resolve (parts_of setting)) settings))
        ≡ true
      → Any
          (λ setting.
            (is_within path (files.resolve (parts_of setting)) ≡ true)
            × (same_parts
                  (files.resolve (parts_of setting))
                  (files.resolve (parts_of files.user_home_root))
                ≡ false))
          settings
  unfolding select
  within_selected [] h = cc
  within_selected (setting ∷ settings) h =
      let root = files.resolve (parts_of setting) in
      let rest = select is_shared (map (λ t. files.resolve (parts_of t)) settings) in
      elim (Bool-cases (is_shared root)) [
        | inr hidden ↦ inr (within_selected settings (rw hidden at h))
        | inl shared ↦
            let h' : (is_within path root || any (is_within path) rest) ≡ true = rw shared at h in
            elim (Bool-cases (is_within path root)) [
              | inl i ↦ inl (i, ground arith)
              | inr n ↦ inr (within_selected settings (ground arith))
            ]
      ]

  selected_within :
      (settings : List Text)
      → Any
          (λ setting.
            (is_within path (files.resolve (parts_of setting)) ≡ true)
            × (same_parts
                  (files.resolve (parts_of setting))
                  (files.resolve (parts_of files.user_home_root))
                ≡ false))
          settings
      → any
          (is_within path)
          (select is_shared (map (λ setting. files.resolve (parts_of setting)) settings))
        ≡ true
  unfolding select
  selected_within [] h = absurd h
  selected_within (setting ∷ settings) (inl h) = ground (arith, h.0, h.1)
  selected_within (setting ∷ settings) (inr h) =
      let later = selected_within settings h in
      elim (Bool-cases (is_shared (files.resolve (parts_of setting)))) [
        | inl shared ↦ rw shared (ground (arith, later))
        | inr hidden ↦ rw hidden later
      ]

-- Where a path lies that the resolver accepts.
abbrev pub IsAllowed : Files → Text → Bool → Parts → Type 0
IsAllowed files username is_admin path =
    (is_within path (user_root files username is_admin) ≡ true) ⊎ InShared files path

module _ (files : Files) (username : Text) (is_admin : Bool) (path : Parts) where
  allowed_roots-IsAllowed :
      any (is_within path) (allowed_roots files username is_admin) ≡ true
      → IsAllowed files username is_admin path
  unfolding allowed_roots shared_roots real_roots
  allowed_roots-IsAllowed h =
      elim (Bool-cases (is_within path (user_root files username is_admin))) [
        | inl i ↦ inl i
        | inr n ↦ inr (within_selected files path files.visible_roots (ground arith))
      ]

  IsAllowed-allowed_roots :
      IsAllowed files username is_admin path
      → any (is_within path) (allowed_roots files username is_admin) ≡ true
  unfolding allowed_roots shared_roots real_roots
  IsAllowed-allowed_roots (inl h) = rw h refl
  IsAllowed-allowed_roots (inr h) =
      let shared = selected_within files path files.visible_roots h in ground (arith, shared)

-- A path that a user names is refused as malformed if it does not begin with a slash. Else its candidate
-- is resolved: it is refused as forbidden if that lies neither in the user's own root nor in a visible
-- root of the settings that is not the folder of all users, and is the answer if it does. This holds
-- whatever the links in the file system are.
pub resolve_user_visible_path-IsAllowed :
    (files : Files) (path username : Text) (is_admin : Bool)
    → ((starts_with path (codes "/") ≡ false)
        × (resolve_user_visible_path files path username is_admin ≡ error validation_error))
      ⊎ ((normalized : VirtualPath) × (normalize_virtual_path path ≡ ok normalized)
          × (((resolve_user_visible_path files path username is_admin ≡ error forbidden)
                × ¬ IsAllowed files username is_admin
                    (files.resolve (candidate_path files username is_admin normalized)))
              ⊎ ((resolve_user_visible_path files path username is_admin
                    ≡ ok (files.resolve (candidate_path files username is_admin normalized)))
                  × IsAllowed files username is_admin
                      (files.resolve (candidate_path files username is_admin normalized)))))
unfolding resolve_user_visible_path normalize_virtual_path
resolve_user_visible_path-IsAllowed files path username is_admin =
    elim (Bool-cases (starts_with path (codes "/"))) [
      | inr n ↦ inl (n, rw n refl)
      | inl i ↦ inr (
        normalized,
        rw i refl,
        elim (Bool-cases (any (is_within real) (allowed_roots files username is_admin))) [
          | inl allowed ↦
              inr
                (rw (i, allowed) refl, allowed_roots-IsAllowed files username is_admin real allowed)
          | inr outside ↦ inl (
            rw (i, outside) refl,
            λ allowed.
                let inside = IsAllowed-allowed_roots files username is_admin real allowed in cc,
          )
        ],
      )
    ]
  where
    normalized : VirtualPath
    normalized = record { double_slash = has_double_slash path; parts = parts_of path }

    real : Parts
    real = files.resolve (candidate_path files username is_admin normalized)
