-- ===== src/Accounts/Sessions.antt =====
-- The login sessions (backend/app/services/auth_service.py). Times are microseconds; the name of the
-- device and the audit log are left out. Where a query does not order its rows, the first row of the
-- table is taken.
pub mod Login
use nebula_grid.Base.{
  ℕ, ◌+◌, ◌-◌, ◌*◌, Bool, true, false, ◌&&◌, ◌||◌, not, Option, none, some, List, [], ◌∷◌, ◌++◌,
  ◌==◌, leb, ltb, length, is_empty, is_some, or_else, if◌then◌else◌,
}
use nebula_grid.Base.Text.{
  Text, codes, text_eq, strip, lower, is_decimal, decimal_from, split, words_from,
}
use nebula_grid.Base.Table.{first, select, sort_by, update_where, update_first}
use nebula_grid.Model.{Role, viewer, UserState}
use nebula_grid.Response.{Response, ok, error, ◌>>=◌, require, unauthorized, forbidden}
use nebula_grid.Access.{has_permission}
use nebula_grid.Scheduler.Tick.{is_enabled}
use nebula_grid.Accounts.Store.{Account, LoginSession, AccountDb, Host, get_account, set_account}
use nebula_grid.Accounts.Tokens.{
  create_session_token, verify_session_token, verify_password, hash_password,
}
use nebula_grid.Accounts.Devices.{
  normalize_device_id, normalize_user_agent, session_is_active, sessions_same_device, Client,
  normalize_client, is_mergeable, is_viewer, fresh_session,
}

-- `find_user_model`: by user name, real name or number.
unfoldable pub is_identity : Text → Account → Bool
is_identity lowered a =
    text_eq (lower a.username) lowered
    || (text_eq (lower a.real_name) lowered
        || (is_decimal lowered && a.id == decimal_from 0 lowered))

unfoldable pub find_user_model : Text → AccountDb → Option Account
unfolding is_identity
find_user_model identity db = first (is_identity (lower (strip identity))) db.accounts

-- `hash_session_token`
unfoldable pub hash_session_token : Host → Text → Text
hash_session_token host token = if is_empty token then [] else host.sha256 token

unfoldable pub find_session_model_by_token : Host → Text → AccountDb → Option LoginSession
unfolding hash_session_token
find_session_model_by_token host token db =
    first (λ s. text_eq s.token_hash (hash_session_token host token)) db.sessions

abbrev pub by_id_descending : LoginSession → LoginSession → Bool
by_id_descending a b = ltb b.id a.id

unfoldable pub find_mergeable_session_model : ℕ → Bool → Client → AccountDb → Option LoginSession
unfolding is_mergeable
find_mergeable_session_model user_id never_expires c db =
    first (is_mergeable db.now user_id never_expires c) (sort_by by_id_descending db.sessions)

unfoldable pub store_session : Option LoginSession → ℕ → Text → Client → AccountDb → AccountDb
store_session (some reusable) user_id token_hash c db = record db {
  sessions =
      update_first (λ s. s.id == reusable.id)
        (λ s. fresh_session s.id s.user_id token_hash c db.now) db.sessions;
}
store_session none user_id token_hash c db = record db {
  sessions = fresh_session db.next_id user_id token_hash c db.now ∷ db.sessions;
  next_id = db.next_id + 1;
}

unfoldable pub record_login_session_model : Host → Account → Text → Client → AccountDb → AccountDb
unfolding store_session find_mergeable_session_model hash_session_token normalize_client
record_login_session_model host user token client db =
    let c = normalize_client client in
    store_session (find_mergeable_session_model user.id (is_viewer user.role) c db) user.id
      (hash_session_token host token) c db

unfoldable pub authenticate_row :
    Host → Text → Text → Client → AccountDb → Option Account → Response (Text × AccountDb)
unfolding record_login_session_model verify_password
authenticate_row host password nonce client db none = error unauthorized
authenticate_row host password nonce client db (some user) = do
  _ ← require (is_enabled user.state) unauthorized
  _ ← require (verify_password host password user.password_hash) unauthorized
  let token = create_session_token host user.username nonce
  ok (token, record_login_session_model host user token client db)

unfoldable pub authenticate_user :
    Host → Text → Text → Text → Client → AccountDb → Response (Text × AccountDb)
unfolding authenticate_row find_user_model
authenticate_user host identity password nonce client db =
    authenticate_row host password nonce client db (find_user_model identity db)

-- The session of a token, and the sign of life. Without any session in the table a token of an older
-- version is accepted.
unfoldable pub check_session :
    Account → Option LoginSession → AccountDb → Response (Account × AccountDb)
unfolding session_is_active
check_session user none db = if is_empty db.sessions then ok (user, db) else error unauthorized
check_session user (some session) db =
    if not (session_is_active db.now (is_viewer user.role) session)
    then error unauthorized
    else ok (
      user,
      record db {
        sessions =
            update_first (λ s. s.id == session.id) (λ s. record s { last_seen_at = some db.now })
              db.sessions;
      },
    )

unfoldable pub check_user :
    Host → Text → Option Account → AccountDb → Response (Account × AccountDb)
unfolding check_session verify_session_token find_session_model_by_token
check_user host token none db = error unauthorized
check_user host token (some user) db = do
  _ ← require (verify_session_token host token user.username) unauthorized
  _ ← require (is_enabled user.state) unauthorized
  check_session user (find_session_model_by_token host token db) db

-- The user name stands in the second part of a token.
abbrev pub username_part : List Text → Option Text
username_part (a ∷ name ∷ c ∷ []) = some name
username_part (a ∷ name ∷ c ∷ d ∷ []) = some name
username_part _ = none

unfoldable pub use_username : Host → Text → Option Text → AccountDb → Response (Account × AccountDb)
unfolding check_user find_user_model
use_username host token none db = error unauthorized
use_username host token (some name) db = check_user host token (find_user_model name db) db

unfoldable pub get_user_by_token : Host → Text → AccountDb → Response (Account × AccountDb)
unfolding use_username
get_user_by_token host token db = use_username host token (username_part (split b'.' token)) db

abbrev pub close_session : ℕ → LoginSession → LoginSession
close_session now s = record s {
  revoked_at = some (or_else s.revoked_at now);
  logout_at = some (or_else s.logout_at now);
}

unfoldable pub revoke_user_sessions : ℕ → AccountDb → AccountDb
revoke_user_sessions user_id db = record db {
  sessions =
      update_where (λ s. s.user_id == user_id && not (is_some s.logout_at || is_some s.revoked_at))
        (close_session db.now) db.sessions;
}

-- All the sessions of the device of the target are closed.
unfoldable pub close_device : LoginSession → AccountDb → AccountDb
unfolding sessions_same_device
close_device target db = record db {
  sessions =
      update_where (λ s. s.user_id == target.user_id && sessions_same_device target s)
        (close_session db.now) db.sessions;
}

abbrev pub get_session : ℕ → AccountDb → Option LoginSession
get_session id db = first (λ s. s.id == id) db.sessions

unfoldable pub revoke_found : ℕ → Option LoginSession → AccountDb → Response AccountDb
unfolding close_device
revoke_found user_id none db = error unauthorized
revoke_found user_id (some target) db =
    if target.user_id == user_id then ok (close_device target db) else error unauthorized

unfoldable pub revoke_login_session : Account → ℕ → AccountDb → Response AccountDb
unfolding revoke_found
revoke_login_session user id db = revoke_found user.id (get_session id db) db

unfoldable pub offline_found : Option LoginSession → AccountDb → Response AccountDb
unfolding close_device
offline_found none db = error unauthorized
offline_found (some target) db = ok (close_device target db)

unfoldable pub offline_login_session_as_admin : Account → ℕ → AccountDb → Response AccountDb
unfolding offline_found
offline_login_session_as_admin actor id db = do
  _ ← require (has_permission actor.role (codes "admin:login:write")) forbidden
  offline_found (get_session id db) db

unfoldable pub logout_session : Host → Text → AccountDb → AccountDb
unfolding find_session_model_by_token
logout_session host token db = record db {
  sessions =
      update_first (λ s. text_eq s.token_hash (hash_session_token host token))
        (λ s. record s { logout_at = some db.now }) db.sessions;
}
