-- ===== src/Access.antt =====
-- Who may use a compute node (backend/app/services/node_service.py), and the permissions of the
-- roles (backend/app/core/rbac.py).
pub mod Permissions
use nebula_grid.Base.{
  ℕ, Bool, true, false, ◌&&◌, ◌||◌, not, Option, none, some, List, [], ◌∷◌, ◌++◌, map, ◌==◌, any,
  is_empty, is_some, member, or_else, dedup_from, if◌then◌else◌,
}
use nebula_grid.Base.Text.{Text, codes, lower, strip, text_eq, contains}
use nebula_grid.Base.Table.{select}
use nebula_grid.Model.{
  Role, student, mentor, admin, viewer, User, UserSupervisor, Node, AccessScope, public_access,
  private_access, SharingScope, public_sharing, group_sharing, no_sharing, Db,
}

-- `ROLE_PERMISSIONS`
unfoldable pub role_permissions : Role → List Text
role_permissions student =
    codes "dashboard:read"
    ∷ codes "usage:read"
    ∷ codes "nodes:read"
    ∷ codes "tasks:read"
    ∷ codes "tasks:create"
    ∷ codes "files:read"
    ∷ codes "files:write"
    ∷ codes "envs:read"
    ∷ codes "envs:write"
    ∷ []
role_permissions mentor =
    codes "dashboard:read"
    ∷ codes "usage:read"
    ∷ codes "nodes:read"
    ∷ codes "tasks:read"
    ∷ codes "tasks:create"
    ∷ codes "files:read"
    ∷ codes "files:write"
    ∷ codes "envs:read"
    ∷ codes "envs:write"
    ∷ codes "users:read"
    ∷ codes "users:create_student"
    ∷ []
role_permissions admin = codes "*" ∷ []
role_permissions viewer = codes "presenter:read" ∷ []

unfoldable pub has_permission : Role → Text → Bool
unfolding role_permissions
has_permission role permission =
    any (text_eq (codes "*")) (role_permissions role)
    || any (text_eq permission) (role_permissions role)

abbrev pub is_admin : Role → Bool
is_admin admin = true
is_admin _ = false

abbrev pub is_mentor : Role → Bool
is_mentor mentor = true
is_mentor _ = false

unfoldable pub is_control_plane_identity : Text → Text → Bool
is_control_plane_identity name ip =
    let lowered_name = lower (strip name) in
    let lowered_ip = lower (strip ip) in
    contains lowered_name (codes "master")
    || contains lowered_name (codes "control")
    || any (text_eq lowered_ip) (codes "127.0.0.1" ∷ codes "localhost" ∷ codes "::1" ∷ [])

unfoldable pub is_control_plane_node : Node → Bool
unfolding is_control_plane_identity
is_control_plane_node node = is_control_plane_identity node.name node.ip

abbrev single_owner : Option ℕ → List ℕ
single_owner none = []
single_owner (some owner) = owner ∷ []

unfoldable pub normalize_owner_ids : Node → List ℕ
normalize_owner_ids node =
    dedup_from [] (
      if is_empty node.owner_user_ids then single_owner node.owner_user_id else node.owner_user_ids)

abbrev pub sharing_scope_of : Node → SharingScope
sharing_scope_of node =
    or_else node.sharing_scope (if node.is_public then public_sharing else no_sharing)

abbrev pub access_scope_of : Node → AccessScope
access_scope_of node =
    or_else node.access_scope (if node.is_public then public_access else private_access)

-- The supervisors of a student, and the students of some supervisors.
abbrev supervisors_of : ℕ → Db → List ℕ
supervisors_of student_id db =
    map (λ s. s.supervisor_id) (select (λ s. s.student_id == student_id) db.user_supervisors)

abbrev students_of : List ℕ → Db → List ℕ
students_of supervisor_ids db =
    map (λ s. s.student_id)
      (select (λ s. member s.supervisor_id supervisor_ids) db.user_supervisors)

abbrev shared_by_role : Role → ℕ → Db → List ℕ
shared_by_role student owner db =
    let supervisor_ids = supervisors_of owner db in supervisor_ids ++ students_of supervisor_ids db
shared_by_role mentor owner db = students_of (owner ∷ []) db
shared_by_role _ owner db = []

abbrev shared_by_owners : List User → Db → List ℕ
shared_by_owners [] db = []
shared_by_owners (owner ∷ owners) db =
    shared_by_role owner.role owner.id db ++ shared_by_owners owners db

unfoldable pub load_group_shared_user_ids : List ℕ → Db → List ℕ
load_group_shared_user_ids owner_ids db =
    shared_by_owners (select (λ u. member u.id owner_ids) db.users) db

unfoldable pub can_user_access_node : User → Node → Db → Bool
unfolding normalize_owner_ids load_group_shared_user_ids
can_user_access_node user node db =
    let owner_ids = normalize_owner_ids node in
    if member user.id owner_ids then true else elim (sharing_scope_of node) [
      | public_sharing ↦ true
      | group_sharing ↦
          not (is_empty owner_ids) && member user.id (load_group_shared_user_ids owner_ids db)
      | no_sharing ↦ false
    ]
