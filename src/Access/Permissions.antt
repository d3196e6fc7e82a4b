-- ===== src/Access/Permissions.antt =====
-- How the permissions of the roles compare (backend/app/core/rbac.py).
use nebula_grid.Base.{◌≡◌, refl, Bool, true, List, [], ◌∷◌, ◌++◌, any, arith}
use nebula_grid.Base.Text.{Text, codes, text_eq}
use nebula_grid.Model.{student, mentor, admin}
use nebula_grid.Access.{role_permissions, has_permission}

any-append : (p : Text → Bool) (xs ys : List Text) → any p xs ≡ true → any p (xs ++ ys) ≡ true
any-append p [] ys h = ground arith
any-append p (x ∷ xs) ys h = ground (arith, any-append p xs ys)

mentor_permissions :
    role_permissions mentor
    ≡ role_permissions student ++ codes "users:read" ∷ codes "users:create_student" ∷ []
unfolding role_permissions
mentor_permissions = refl

-- A permission of a student is one of a mentor and of an administrator.
pub has_permission-student :
    (permission : Text)
    → has_permission student permission ≡ true
    → (has_permission mentor permission ≡ true) × (has_permission admin permission ≡ true)
unfolding has_permission role_permissions text_eq
has_permission-student permission h = (
  any-append (text_eq permission) (role_permissions student)
      (codes "users:read" ∷ codes "users:create_student" ∷ []) h,
  refl,
)
