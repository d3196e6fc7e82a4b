-- ===== src/Accounts/Users/Passwords.antt =====
-- A new password (`reset_user_password` of backend/app/services/user_service.py,
-- `change_current_user_password` of backend/app/services/auth_service.py).
use nebula_grid.Base.{ℕ, Bool, true, false, ◌&&◌, ◌||◌, not, is_some, if◌then◌else◌}
use nebula_grid.Base.Text.{Text, codes}
use nebula_grid.Response.{Response, ok, ◌>>=◌, require, unauthorized, forbidden}
use nebula_grid.Access.{has_permission, is_admin, is_mentor}
use nebula_grid.Accounts.Store.{Account, AccountDb, Host, get_account, set_account}
use nebula_grid.Accounts.Tokens.{hash_password, verify_password}
use nebula_grid.Accounts.Devices.{is_viewer}
use nebula_grid.Accounts.Sessions.{revoke_user_sessions}
use nebula_grid.Accounts.Users.{find_target_user, is_foreign}

unfoldable pub set_password : Host → Text → Account → Account
unfolding hash_password
set_password host password a = record a { password_hash = hash_password host password }

abbrev pub has_samba : Account → Bool
has_samba target = target.samba_enabled && is_some target.linux_account_name

abbrev pub note_samba : Account → Text → AccountDb → AccountDb
note_samba target status db = set_account target.id (λ a. record a { samba_status = status }) db

-- What follows the commit of a new password: the accounts of Linux and Samba, and only then the
-- sessions. `false` tells that a call failed and ended the request.
unfoldable pub finish_password : Host → Account → AccountDb → Bool × AccountDb
unfolding set_account
finish_password host target db =
    if not (is_viewer target.role || host.linux_call target.username)
    then (false, db)
    else if not (has_samba target)
    then (true, revoke_user_sessions target.id db)
    else if host.samba_call target.username
    then (
      true,
      revoke_user_sessions target.id (note_samba target (host.samba_report target.username) db),
    )
    else (false, note_samba target (codes "failed") db)

unfoldable pub reset_user_password :
    Host → Account → ℕ → Text → AccountDb → Response (Bool × AccountDb)
unfolding find_target_user is_foreign finish_password set_password
reset_user_password host user pk password db = do
  _ ← require (has_permission user.role (codes "users:read")) forbidden
  target ← find_target_user pk db
  _ ← require (not (is_foreign user target db)) forbidden
  _ ← require (is_admin user.role || is_mentor user.role) forbidden
  ok (finish_password host target (set_account target.id (set_password host password) db))

unfoldable pub change_current_user_password :
    Host → Account → Text → Text → AccountDb → Response (Bool × AccountDb)
unfolding finish_password verify_password set_password
change_current_user_password host user current new db = do
  _ ← require (verify_password host current user.password_hash) unauthorized
  _ ← require (is_some (get_account user.id db)) unauthorized
  ok (finish_password host user (set_account user.id (set_password host new) db))
