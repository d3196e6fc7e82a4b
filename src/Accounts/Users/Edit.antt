-- ===== src/Accounts/Users/Edit.antt =====
-- The edit of a user (`update_user` of backend/app/services/user_service.py).
use nebula_grid.Base.{
  ℕ, Bool, true, false, ◌&&◌, ◌||◌, not, Option, none, some, List, [], ◌==◌, leb, is_some,
  if◌then◌else◌,
}
use nebula_grid.Base.Text.{Text, codes}
use nebula_grid.Base.Table.{delete_where}
use nebula_grid.Model.{Role, UserState, enabled, disabled}
use nebula_grid.Response.{Response, ok, ◌>>=◌, require, forbidden, validation_error, value_error}
use nebula_grid.Access.{has_permission, is_admin, is_mentor}
use nebula_grid.Scheduler.Tick.{is_enabled}
use nebula_grid.Tasks.Update.{is_null, Patch, unset, null, given, is_set, patch}
use nebula_grid.Accounts.Store.{Account, AccountDb, Host, set_account}
use nebula_grid.Accounts.Sessions.{revoke_user_sessions}
use nebula_grid.Accounts.Users.{
  is_student, count_admin_users, username_exists, resolve_supervisor_ids, replace_supervisors,
  linux_account_for_role, find_target_user, is_foreign,
}

pub record UserUpdateRequest : Type 0 where
  pub user_id : ℕ
  pub username : Patch Text
  pub real_name : Patch Text
  pub role : Patch Role
  pub state : Patch UserState
  pub samba_enabled : Patch Bool
  pub supervisor_ids : Patch (List ℕ)

unfoldable pub check_username : Account → Account → Patch Text → AccountDb → Response Bool
unfolding username_exists
check_username user target (given name) db = do
  _ ← require (is_admin user.role) forbidden
  require (not (username_exists name (some target.id) db)) validation_error
check_username user target _ db = ok true

-- The role after the edit, unless it is null.
unfoldable pub check_role : Account → Account → Patch Role → AccountDb → Response Role
unfolding count_admin_users
check_role user target (given role) db = do
  _ ← require (is_admin user.role) forbidden
  _ ←
      require (not (is_admin target.role && not (is_admin role) && leb (count_admin_users db) 1))
        forbidden
  ok role
check_role user target _ db = ok target.role

unfoldable pub check_state : Account → Patch UserState → AccountDb → Response Bool
unfolding count_admin_users
check_state target (given state) db =
    require (not (is_admin target.role && not (is_enabled state) && leb (count_admin_users db) 1))
      forbidden
check_state target _ db = ok true

-- The new supervisors of the user, if they change.
unfoldable pub check_supervision :
    Account → Role → UserUpdateRequest → AccountDb → Response (Option (List ℕ))
unfolding resolve_supervisor_ids
check_supervision user next_role p db = elim p.supervisor_ids [
  | given ids ↦
      if is_admin user.role
      then (resolve_supervisor_ids user next_role ids db >>= λ resolved. ok (some resolved))
      else ok none
  | null ↦ ok (if is_admin user.role then some [] else none)
  | unset ↦ ok (if is_set p.role && not (is_student next_role) then some [] else none)
]

-- Samba is switched off by a call.
abbrev pub leaves_samba : Account → Patch Bool → Bool
leaves_samba target (given false) = target.samba_enabled && is_some target.linux_account_name
leaves_samba target _ = false

abbrev pub wants_samba : Account → Patch Bool → Bool
wants_samba target (given true) = not target.samba_enabled
wants_samba target _ = false

unfoldable pub check_samba : Host → Account → Patch Bool → Response Bool
check_samba host target samba = do
  _ ← require (not (wants_samba target samba)) validation_error
  require (not (leaves_samba target samba) || host.samba_call target.username) validation_error

unfoldable pub check_linux_name : Host → Account → Role → UserUpdateRequest → Response (Option Text)
unfolding linux_account_for_role
check_linux_name host target next_role p =
    if is_set p.username || is_set p.role
    then linux_account_for_role host (patch p.username target.username) next_role
    else ok target.linux_account_name

unfoldable pub edit_account : Host → UserUpdateRequest → Role → Option Text → Account → Account
edit_account host p next_role account_name a = record a {
  username = patch p.username a.username;
  real_name = patch p.real_name a.real_name;
  role = next_role;
  state = patch p.state a.state;
  linux_account_name = account_name;
  samba_enabled = patch p.samba_enabled a.samba_enabled;
  samba_status =
      if leaves_samba a p.samba_enabled then host.samba_report a.username else a.samba_status;
}

unfoldable pub write_supervision : Account → Role → Option (List ℕ) → AccountDb → AccountDb
unfolding replace_supervisors
write_supervision target next_role changed db =
    let db1 : AccountDb = elim changed [
      | none ↦ db
      | some ids ↦ replace_supervisors target.id ids db
    ] in
    if is_mentor target.role && not (is_mentor next_role)
    then record db1 {
      user_supervisors = delete_where (λ s. s.supervisor_id == target.id) db1.user_supervisors;
    }
    else db1

abbrev disables : Patch UserState → UserState → Bool
disables (given disabled) enabled = true
disables _ _ = false

-- The writes of an accepted edit; a user who is disabled loses the sessions.
unfoldable pub write_user :
    Host
    → Account
    → UserUpdateRequest
    → Role
    → Option (List ℕ)
    → Option Text
    → AccountDb
    → AccountDb
unfolding edit_account write_supervision
write_user host target p next_role changed account_name db =
    let db1 =
      write_supervision target next_role changed
        (set_account target.id (edit_account host p next_role account_name) db) in
    if disables p.state target.state then revoke_user_sessions target.id db1 else db1

-- An edit of nothing returns before the writes, which then change nothing.
unfoldable pub update_user : Host → Account → UserUpdateRequest → AccountDb → Response AccountDb
unfolding find_target_user is_foreign check_username check_role check_state check_supervision
    check_samba check_linux_name write_user
update_user host user p db = do
  _ ← require (has_permission user.role (codes "users:read")) forbidden
  target ← find_target_user p.user_id db
  _ ← require (not (is_foreign user target db)) forbidden
  _ ← require (is_admin user.role || (user.id == target.id || is_student target.role)) forbidden
  _ ← check_username user target p.username db
  next_role ← check_role user target p.role db
  _ ← check_state target p.state db
  _ ← require (not (is_null p.role)) value_error
  changed ← check_supervision user next_role p db
  _ ← check_samba host target p.samba_enabled
  account_name ← check_linux_name host target next_role p
  ok (write_user host target p next_role changed account_name db)
