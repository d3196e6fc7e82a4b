-- ===== src/Accounts/Users.antt =====
-- The management of users: their creation, and what all requests share
-- (backend/app/services/user_service.py). The calls that change an account of Linux or Samba are tests
-- that the host answers; a call that fails before the commit is an error.
pub mod Edit
pub mod Passwords
pub mod Requests
pub mod LastAdmin
pub mod Revoked
use nebula_grid.Base.{
  ℕ, ◌+◌, Bool, true, false, ◌&&◌, ◌||◌, not, Option, none, some, List, [], ◌∷◌, ◌++◌, ◌==◌, leb,
  ltb, length, member, map, any, is_empty, is_some, or_else, dedup_from, if◌then◌else◌,
}
use nebula_grid.Base.Text.{Text, codes, text_eq, strip, lower}
use nebula_grid.Base.Table.{first, select, delete_where, delete_first}
use nebula_grid.Model.{
  Role, student, mentor, admin, viewer, UserState, enabled, disabled, UserSupervisor,
}
use nebula_grid.Response.{
  Response, ok, error, ◌>>=◌, require, not_found, unauthorized, forbidden, validation_error,
  value_error,
}
use nebula_grid.Access.{has_permission, is_admin, is_mentor}
use nebula_grid.Scheduler.Tick.{is_enabled}
use nebula_grid.Tasks.Update.{Patch, unset, null, given, is_set, patch}
use nebula_grid.Accounts.Store.{Account, AccountDb, Host, get_account, set_account}
use nebula_grid.Accounts.Tokens.{hash_password, verify_password}
use nebula_grid.Accounts.Devices.{is_viewer}
use nebula_grid.Accounts.Sessions.{revoke_user_sessions}

abbrev pub is_student : Role → Bool
is_student student = true
is_student _ = false

unfoldable pub count_admin_users : AccountDb → ℕ
count_admin_users db = length (select (λ a. is_admin a.role) db.accounts)

abbrev is_excluded : Option ℕ → ℕ → Bool
is_excluded none pk = false
is_excluded (some k) pk = k == pk

unfoldable pub username_exists : Text → Option ℕ → AccountDb → Bool
username_exists username excluded db =
    any
      (λ a. text_eq (lower a.username) (lower (strip username)) && not (is_excluded excluded a.id))
      db.accounts

unfoldable pub supervisors_of : ℕ → AccountDb → List ℕ
supervisors_of pk db =
    map (λ s. s.supervisor_id) (select (λ s. s.student_id == pk) db.user_supervisors)

abbrev is_mentor_account : Option Account → Bool
is_mentor_account none = false
is_mentor_account (some a) = is_mentor a.role

unfoldable pub check_supervisors : List ℕ → AccountDb → Response (List ℕ)
check_supervisors deduped db =
    if ltb 2 (length deduped) || any (λ pk. not (is_mentor_account (get_account pk db))) deduped
    then error validation_error
    else ok deduped

unfoldable pub resolve_supervisor_ids : Account → Role → List ℕ → AccountDb → Response (List ℕ)
unfolding check_supervisors
resolve_supervisor_ids actor target_role requested db =
    if not (is_student target_role)
    then ok []
    else if is_mentor actor.role
    then ok (actor.id ∷ [])
    else check_supervisors (dedup_from [] requested) db

abbrev supervise : ℕ → List ℕ → List UserSupervisor
supervise pk ids = map (λ k. record { student_id = pk; supervisor_id = k }) ids

unfoldable pub replace_supervisors : ℕ → List ℕ → AccountDb → AccountDb
replace_supervisors pk ids db = record db {
  user_supervisors = supervise pk ids ++ delete_where (λ s. s.student_id == pk) db.user_supervisors;
}

-- `linux_account_for_role`, which refuses a name that is none of an account.
unfoldable pub linux_account_for_role : Host → Text → Role → Response (Option Text)
linux_account_for_role host username role =
    if text_eq username host.main_linux_user
    then ok (some host.main_linux_user)
    else if is_viewer role
    then ok none
    else if host.is_account_name username
    then ok (some username)
    else error validation_error

pub record UserCreateRequest : Type 0 where
  pub user_id : Option ℕ
  pub username : Text
  pub real_name : Text
  pub role : Role
  pub password : Text
  pub state : UserState
  pub supervisor_ids : List ℕ

unfoldable pub may_create : Account → Role → Response Bool
may_create user target_role =
    if is_mentor user.role && not (is_student target_role)
    then error forbidden
    else if is_student target_role
    then require (has_permission user.role (codes "users:create_student")) forbidden
    else require (has_permission user.role (codes "users:create")) forbidden

abbrev is_taken : Option ℕ → AccountDb → Bool
is_taken none db = false
is_taken (some pk) db = is_some (get_account pk db)

unfoldable pub new_account : Host → ℕ → UserCreateRequest → Option Text → Account
unfolding hash_password
new_account host pk p account_name = record {
  id = pk;
  username = p.username;
  real_name = p.real_name;
  role = p.role;
  state = p.state;
  password_hash = hash_password host p.password;
  linux_account_name = account_name;
  samba_enabled = false;
  samba_status = codes "disabled";
}

unfoldable pub create_user : Host → Account → UserCreateRequest → AccountDb → Response AccountDb
unfolding may_create username_exists resolve_supervisor_ids linux_account_for_role new_account
create_user host user p db = do
  _ ← may_create user p.role
  _ ← require (not (username_exists p.username none db)) validation_error
  _ ← require (not (is_taken p.user_id db)) validation_error
  supervisor_ids ← resolve_supervisor_ids user p.role p.supervisor_ids db
  account_name ← linux_account_for_role host p.username p.role
  _ ← require (is_viewer p.role || host.linux_call p.username) validation_error
  let pk = or_else p.user_id db.next_id
  ok (record db {
    accounts = new_account host pk p account_name ∷ db.accounts;
    user_supervisors = supervise pk supervisor_ids ++ db.user_supervisors;
    next_id = db.next_id + 1;
  })

unfoldable pub find_target_user : ℕ → AccountDb → Response Account
find_target_user pk db = elim (get_account pk db) [ none ↦ error not_found | some a ↦ ok a ]

-- A mentor manages the students that are assigned to them.
unfoldable pub is_foreign : Account → Account → AccountDb → Bool
unfolding supervisors_of
is_foreign user target db =
    is_mentor user.role
    && (not (is_student target.role) || not (member user.id (supervisors_of target.id db)))
