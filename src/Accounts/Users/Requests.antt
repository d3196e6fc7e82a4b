-- ===== src/Accounts/Users/Requests.antt =====
-- The deletion of a user, and the requests of the user page
-- (backend/app/services/user_service.py, backend/app/api/users.py).
use nebula_grid.Base.{ℕ, Bool, ◌&&◌, ◌||◌, not, ◌==◌, leb, is_empty, is_some}
use nebula_grid.Base.Text.{Text, codes, text_eq}
use nebula_grid.Base.Table.{delete_where, delete_first}
use nebula_grid.Response.{Response, ok, ◌>>=◌, require, forbidden, validation_error}
use nebula_grid.Access.{has_permission, is_admin}
use nebula_grid.Accounts.Store.{Account, AccountDb, Host}
use nebula_grid.Accounts.Devices.{is_viewer}
use nebula_grid.Accounts.Users.{count_admin_users, UserCreateRequest, create_user, find_target_user}
use nebula_grid.Accounts.Users.Edit.{UserUpdateRequest, update_user}
use nebula_grid.Accounts.Users.Passwords.{reset_user_password}

unfoldable pub delete_account : Account → AccountDb → AccountDb
delete_account target db = record db {
  accounts = delete_first (λ a. a.id == target.id) db.accounts;
  user_supervisors =
      delete_where (λ s. s.student_id == target.id || s.supervisor_id == target.id)
        db.user_supervisors;
  sessions = delete_where (λ s. s.user_id == target.id) db.sessions;
}

-- An account of Samba is there, or may be.
abbrev pub leaves_traces : Account → Bool
leaves_traces target =
    is_some target.linux_account_name
    && (target.samba_enabled
        || not (is_empty target.samba_status || text_eq target.samba_status (codes "disabled")))

unfoldable pub delete_user : Host → Account → ℕ → AccountDb → Response AccountDb
unfolding find_target_user count_admin_users delete_account
delete_user host user pk db = do
  _ ← require (has_permission user.role (codes "users:delete")) forbidden
  target ← find_target_user pk db
  _ ← require (not (is_admin target.role && leb (count_admin_users db) 1)) forbidden
  _ ←
      require
        (is_viewer target.role
          || (not (leaves_traces target) || host.samba_call target.username)
            && host.linux_call target.username)
        validation_error
  ok (delete_account target db)

-- The requests of the user page, and what they do. A reset that fails after its commit is kept.
pub data Request : Type 0 where
  create : UserCreateRequest → Request
  edit : UserUpdateRequest → Request
  reset : ℕ → Text → Request
  remove : ℕ → Request

unfoldable pub handle : Host → Account → Request → AccountDb → Response AccountDb
unfolding create_user update_user reset_user_password delete_user
handle host user (create p) db = create_user host user p db
handle host user (edit p) db = update_user host user p db
handle host user (reset pk password) db = do
  (finished, db1) ← reset_user_password host user pk password db
  ok db1
handle host user (remove pk) db = delete_user host user pk db
