-- ===== src/Accounts/Users/Revoked.antt =====
-- A closed session gives no access (backend/app/services/auth_service.py,
-- backend/app/services/user_service.py).
use nebula_grid.Base.{
  ℕ, ◌≡◌, refl, sym, ap, subst, inl, inr, Bool, true, false, ◌&&◌, ◌||◌, not, Option, none, some,
  List, [], ◌∷◌, ◌==◌, ==_iff, All, arith, Bool-cases, is_some, if◌then◌else◌,
}
use nebula_grid.Base.Text.{Text, codes, split, text_eq}
use nebula_grid.Base.Table.{update_where}
use nebula_grid.Base.Table.Laws.{All-first}
use nebula_grid.Response.{Response, ok, error, ◌>>=◌, require, unauthorized, forbidden}
use nebula_grid.Access.{has_permission, is_admin, is_mentor}
use nebula_grid.Response.Laws.{bind_ok}
use nebula_grid.Accounts.Store.{Account, LoginSession, AccountDb, Host, set_account}
use nebula_grid.Accounts.Devices.{session_is_active, is_viewer}
use nebula_grid.Accounts.Sessions.{
  find_session_model_by_token, hash_session_token, find_user_model, check_session, check_user,
  username_part, use_username, get_user_by_token, close_session, revoke_user_sessions,
}
use nebula_grid.Accounts.Users.{find_target_user, is_foreign}
use nebula_grid.Accounts.Users.Passwords.{
  has_samba, note_samba, set_password, finish_password, reset_user_password,
}
use nebula_grid.Accounts.Users.LastAdmin.{found_user, found_id}
use nebula_grid.Response.Laws.{ok_inj}

abbrev IsClosed : LoginSession → Type 0
IsClosed s = (is_some s.logout_at || is_some s.revoked_at) ≡ true

-- A token of a closed session is refused.
closed_refused :
    (host : Host) (token : Text) (db : AccountDb) (s : LoginSession)
    → find_session_model_by_token host token db ≡ some s
    → IsClosed s
    → get_user_by_token host token db ≡ error unauthorized
unfolding get_user_by_token use_username
closed_refused host token db s found closed = by_name (username_part (split b'.' token))
  where
    inactive : (user : Account) → check_session user (some s) db ≡ error unauthorized
    inactive user = unfold check_session in unfold session_is_active in ground (arith, closed)

    refused :
        (user : Account)
        → check_session user (find_session_model_by_token host token db) db ≡ error unauthorized
    refused user =
        subst (λ o. check_session user o db ≡ error unauthorized) (sym found) (inactive user)

    chain :
        (a b : Bool) (r : Response (Account × AccountDb))
        → r ≡ error unauthorized
        → (require a unauthorized >>= λ _. require b unauthorized >>= λ _. r) ≡ error unauthorized
    chain false b r e = refl
    chain true false r e = refl
    chain true true r e = e

    by_user : (o : Option Account) → check_user host token o db ≡ error unauthorized
    by_user none = unfold check_user in refl
    by_user (some user) = unfold check_user in chain _ _ _ (refused user)

    by_name : (name : Option Text) → use_username host token name db ≡ error unauthorized
    by_name none = refl
    by_name (some name) = by_user (find_user_model name db)

-- Every session of the user is closed.
abbrev AllClosed : ℕ → AccountDb → Type 0
AllClosed user_id db = All (λ s. s.user_id ≡ user_id → IsClosed s) db.sessions

revoke-AllClosed :
    (user_id : ℕ) (db : AccountDb) → AllClosed user_id (revoke_user_sessions user_id db)
unfolding revoke_user_sessions update_where
revoke-AllClosed user_id db = go db.sessions
  where
    closing : LoginSession → LoginSession
    closing s =
        if s.user_id == user_id && not (is_some s.logout_at || is_some s.revoked_at)
        then close_session db.now s
        else s

    one : (s : LoginSession) → (closing s).user_id ≡ user_id → IsClosed (closing s)
    one s = elim (Bool-cases (s.user_id == user_id)) [
      | inl y ↦ elim (Bool-cases (is_some s.logout_at || is_some s.revoked_at)) [
        | inl c ↦ rw (y, c) (λ e. c)
        | inr o ↦ rw (y, o) (λ e. refl)
      ]
      | inr n ↦ rw n (λ e. let bad = (==_iff s.user_id user_id).1 e in cc)
    ]

    go :
        (xs : List LoginSession)
        → All
            (λ s. s.user_id ≡ user_id → IsClosed s)
            (update_where
              (λ s. s.user_id == user_id && not (is_some s.logout_at || is_some s.revoked_at))
              (close_session db.now)
              xs)
    go [] = tt
    go (s ∷ xs) = (one s, go xs)

-- A new password that went through closes the sessions.
finish-AllClosed :
    (host : Host) (target : Account) (db db' : AccountDb)
    → finish_password host target db ≡ (true, db')
    → AllClosed target.id db'
unfolding finish_password
finish-AllClosed host target db db' e =
    elim (Bool-cases (not (is_viewer target.role || host.linux_call target.username))) [
      | inl y ↦
          let bad : ◌≡◌ {A = Bool × AccountDb} (false, db) (true, db') = rw y at e in
          let clash = ap (λ (r : Bool × AccountDb). r.0) bad in cc
      | inr n ↦ elim (Bool-cases (not (has_samba target))) [
        | inl y ↦
            let e' : ◌≡◌ {A = Bool × AccountDb} (true, revoke_user_sessions target.id db)
                (true, db') =
              rw (n, y) at e in
            subst (AllClosed target.id) (ap (λ (r : Bool × AccountDb). r.1) e')
              (revoke-AllClosed target.id db)
        | inr s ↦ elim (Bool-cases (host.samba_call target.username)) [
          | inl y ↦
              let e' : ◌≡◌ {A = Bool × AccountDb}
                  (
                    true,
                    revoke_user_sessions target.id
                        (note_samba target (host.samba_report target.username) db),
                  )
                  (true, db') =
                rw (n, s, y) at e in
              subst (AllClosed target.id) (ap (λ (r : Bool × AccountDb). r.1) e')
                (revoke-AllClosed target.id _)
          | inr x ↦
              let bad : ◌≡◌ {A = Bool × AccountDb} (false, note_samba target (codes "failed") db)
                  (true, db') =
                rw (n, s, x) at e in
              let clash = ap (λ (r : Bool × AccountDb). r.0) bad in cc
        ]
      ]
    ]

-- After a password was reset and the request ended well, no token of a session of that user gives
-- access: it is refused as unauthorized.
pub reset_user_password-revokes :
    (host : Host) (user : Account) (pk : ℕ) (password token : Text) (db db' : AccountDb)
    (s : LoginSession)
    → reset_user_password host user pk password db ≡ ok (true, db')
    → find_session_model_by_token host token db' ≡ some s
    → s.user_id ≡ pk
    → get_user_by_token host token db' ≡ error unauthorized
unfolding reset_user_password find_session_model_by_token
reset_user_password-revokes host user pk password token db db' s e found owned =
    let (a1, x1, e1) =
      bind_ok (require (has_permission user.role (codes "users:read")) forbidden) _ e in
    let (target, row, e2) = bind_ok (find_target_user pk db) _ e1 in
    let (a3, x3, e3) = bind_ok (require (not (is_foreign user target db)) forbidden) _ e2 in
    let (a4, x4, e4) =
      bind_ok (require (is_admin user.role || is_mentor user.role) forbidden) _ e3 in
    let written : AccountDb = set_account target.id (set_password host password) db in
    let eq = ok_inj (finish_password host target written) (true, db') e4 in
    let id = found_id pk db target (found_user pk db target row) in
    let closed : AllClosed pk db' =
      subst (λ k. AllClosed k db') id (finish-AllClosed host target written db' eq) in
    closed_refused host token db' s found (
      All-first (λ x. text_eq x.token_hash (hash_session_token host token))
        (λ x. x.user_id ≡ pk → IsClosed x) db'.sessions s closed found owned)
