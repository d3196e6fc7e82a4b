-- ===== src/Scenarios/Logins.antt =====
-- Two accounts with a login session: runs of the accounts (backend/app/services/auth_service.py,
-- backend/app/services/user_service.py), and the theorems at these runs.
use nebula_grid.Base.{◌≡◌, ◌≤◌, inr, refl, true, false, Bool, none, some, [], ◌∷◌, All, arith}
use nebula_grid.Base.Text.{Text, codes, text_eq, lower, strip, is_decimal}
use nebula_grid.Base.Table.{first, select, update_where}
use nebula_grid.Model.{admin, student, enabled, disabled}
use nebula_grid.Access.{has_permission}
use nebula_grid.Response.{Response, ok, error, unauthorized}
use nebula_grid.Tasks.Update.{unset, given}
use nebula_grid.Accounts.Store.{Account, LoginSession, AccountDb, Host, get_account}
use nebula_grid.Accounts.Tokens.{create_session_token, token_digest, verify_password}
use nebula_grid.Accounts.Devices.{Client}
use nebula_grid.Accounts.Sessions.{
  find_user_model, hash_session_token, find_session_model_by_token, authenticate_user,
  get_user_by_token, revoke_user_sessions,
}
use nebula_grid.Accounts.Sessions.Login.{NoDot, authenticate_user-admits}
use nebula_grid.Accounts.Users.{count_admin_users}
use nebula_grid.Accounts.Users.Passwords.{reset_user_password}
use nebula_grid.Accounts.Users.Edit.{UserUpdateRequest}
use nebula_grid.Accounts.Users.Requests.{edit, handle}
use nebula_grid.Accounts.Users.LastAdmin.{IsManaged, count_enabled_admins, handle-keeps}
use nebula_grid.Accounts.Users.Revoked.{reset_user_password-revokes}

abbrev host : Host
host = record {
  sha256 = λ s. s;
  main_linux_user = codes "nebula";
  is_account_name = λ s. true;
  linux_call = λ s. true;
  samba_call = λ s. true;
  samba_report = λ s. codes "active";
}

abbrev root : Account
root = record {
  id = 1;
  username = codes "root";
  real_name = codes "Root";
  role = admin;
  state = enabled;
  password_hash = codes "secret";
  linux_account_name = none;
  samba_enabled = false;
  samba_status = codes "disabled";
}

abbrev bob : Account
bob = record {
  id = 2;
  username = codes "bob";
  real_name = codes "Robert";
  role = student;
  state = enabled;
  password_hash = codes "hunter2";
  linux_account_name = some (codes "bob");
  samba_enabled = false;
  samba_status = codes "disabled";
}

abbrev token : Text
token = codes "demo.bob.n0.demo:bob:n0"

abbrev session : LoginSession
session = record {
  id = 5;
  user_id = 2;
  token_hash = token;
  ip = codes "10.0.0.9";
  user_agent = codes "curl";
  device_id = codes "laptop";
  created_at = 10;
  last_seen_at = some 20;
  logout_at = none;
  revoked_at = none;
}

abbrev db : AccountDb
db = record {
  now = 1000;
  accounts = root ∷ bob ∷ [];
  user_supervisors = [];
  sessions = session ∷ [];
  next_id = 100;
}

-- The value of a request that succeeds.
abbrev taken {ℓ} : {A : Type ℓ} → Response A → A → A
taken (ok a) other = a
taken (error e) other = other

abbrev disabling : UserUpdateRequest
disabling = record {
  user_id = 2;
  username = unset;
  real_name = unset;
  role = unset;
  state = given disabled;
  samba_enabled = unset;
  supervisor_ids = unset;
}

abbrev after_edit : AccountDb
after_edit = taken (handle host root (edit disabling) db) db

edit_taken : handle host root (edit disabling) db ≡ ok after_edit
unfolding handle has_permission text_eq get_account first
edit_taken = refl

db-IsManaged : IsManaged db
unfolding count_admin_users select
db-IsManaged = (ground arith, inr (ground arith))

handle-keeps_example : 1 ≤ count_enabled_admins after_edit
handle-keeps_example = handle-keeps host root (edit disabling) db after_edit db-IsManaged edit_taken

abbrev after_reset : Bool × AccountDb
after_reset = taken (reset_user_password host root 2 (codes "new") db) (false, db)

reset_taken : reset_user_password host root 2 (codes "new") db ≡ ok (true, after_reset.1)
unfolding reset_user_password has_permission text_eq get_account first
reset_taken = refl

abbrev closed_session : LoginSession
closed_session = record session { logout_at = some 1000; revoked_at = some 1000 }

session_found : find_session_model_by_token host token after_reset.1 ≡ some closed_session
unfolding find_session_model_by_token reset_user_password first has_permission text_eq get_account
    revoke_user_sessions update_where
session_found = refl

reset_user_password-revokes_example :
    get_user_by_token host token after_reset.1 ≡ error unauthorized
reset_user_password-revokes_example =
    reset_user_password-revokes host root 2 (codes "new") token db after_reset.1 closed_session
      reset_taken session_found refl

abbrev laptop : Client
laptop = record { ip = codes "10.0.0.9"; user_agent = codes "curl"; device_id = codes "laptop" }

bob_found : find_user_model (codes "Robert") db ≡ some bob
unfolding find_user_model first text_eq lower strip is_decimal
bob_found = refl

bob_named : find_user_model (codes "bob") db ≡ some bob
unfolding find_user_model first text_eq lower strip is_decimal
bob_named = refl

bob_verified : verify_password host (codes "hunter2") (codes "hunter2") ≡ true
unfolding verify_password text_eq
bob_verified = refl

name_dots : NoDot (codes "bob")
name_dots = (refl, (refl, (refl, tt)))

nonce_dots : NoDot (codes "n1")
nonce_dots = (refl, (refl, tt))

digest_dots : NoDot (token_digest host (codes "bob") (codes "n1"))
digest_dots =
    (refl, (refl, (refl, (refl, (refl, (refl, (refl, (refl, (refl, (refl, (refl, tt)))))))))))

no_session_yet :
    All
      (λ s.
        text_eq s.token_hash
          (hash_session_token host (create_session_token host (codes "bob") (codes "n1")))
        ≡ false)
      db.sessions
unfolding text_eq hash_session_token create_session_token
no_session_yet = (refl, tt)

authenticate_user-admits_example :
    (db' : AccountDb) × (authenticate_user host
        (codes "Robert")
        (codes "hunter2")
        (codes "n1")
        laptop
        db
      ≡ ok (create_session_token host (codes "bob") (codes "n1"), db'))
    × (db'' : AccountDb) × (get_user_by_token host
          (create_session_token host (codes "bob") (codes "n1"))
          db'
        ≡ ok (bob, db''))
authenticate_user-admits_example =
    authenticate_user-admits host (codes "Robert") (codes "hunter2") (codes "n1") laptop bob db
      bob_found bob_named refl bob_verified name_dots nonce_dots refl digest_dots no_session_yet
