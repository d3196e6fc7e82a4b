-- ===== src/Accounts/Sessions/Login.antt =====
-- A token that a login issues gives access (backend/app/services/auth_service.py,
-- backend/app/core/security.py).
use nebula_grid.Base.{
  is_empty, ℕ, ◌+◌, ◌≡◌, refl, sym, ap, ◌∙◌, subst, Bool, true, false, Option, none, some, List, [],
  ◌∷◌, ◌++◌, ◌==◌, ==-refl, All, any, arith, leb,
}
use mathlib.Core.List.{reverse, append_assoc, append-nil, reverse-cons}
use nebula_grid.Base.Text.{Text, codes, split, split_from, text_eq, text_eq_refl}
use nebula_grid.Base.Table.{first, update_first, sort_by}
use nebula_grid.Base.Table.Laws.{first-update_first, any-sort_by, any-first}
use nebula_grid.Response.{ok}
use nebula_grid.Scheduler.Tick.{is_enabled}
use nebula_grid.Accounts.Store.{Account, LoginSession, AccountDb, Host}
use nebula_grid.Accounts.Tokens.{
  create_session_token, token_digest, verify_session_token, verify_parts, verify_password,
}
use nebula_grid.Accounts.Devices.{
  stale_microseconds, Client, normalize_client, session_is_active, is_viewer, fresh_session,
  is_mergeable,
}
use nebula_grid.Accounts.Sessions.{
  find_session_model_by_token, hash_session_token, find_user_model, check_session, check_user,
  use_username, get_user_by_token, store_session, record_login_session_model,
  find_mergeable_session_model, authenticate_row, authenticate_user, by_id_descending,
}

-- The text has no dot.
abbrev pub NoDot : Text → Type 0
NoDot s = All (λ c. (c == b'.') ≡ false) s

reverse_step : (c : ℕ) (piece s : Text) → reverse (c ∷ piece) ++ s ≡ reverse piece ++ (c ∷ s)
reverse_step c piece s =
    ap (λ r. r ++ s) (reverse-cons c piece) ∙ append_assoc (reverse piece) (c ∷ []) s

split_dot :
    (piece s rest : Text)
    → NoDot s
    → split_from b'.' piece (s ++ (b'.' ∷ rest)) ≡ (reverse piece ++ s) ∷ split b'.' rest
unfolding split split_from
split_dot piece [] rest h = ap (λ r. r ∷ split_from b'.' [] rest) (sym (append-nil (reverse piece)))
split_dot piece (c ∷ s) rest h =
    subst
      (λ (v : Bool).
        elim v as (λ _. List Text) [
          | true ↦ reverse piece ∷ split_from b'.' [] (s ++ (b'.' ∷ rest))
          | false ↦ split_from b'.' (c ∷ piece) (s ++ (b'.' ∷ rest))
        ]
        ≡ (reverse piece ++ (c ∷ s)) ∷ split b'.' rest)
      (sym h.0)
      (split_dot (c ∷ piece) s rest h.1 ∙ ap (λ r. r ∷ split b'.' rest) (reverse_step c piece s))

split_end : (piece s : Text) → NoDot s → split_from b'.' piece s ≡ (reverse piece ++ s) ∷ []
unfolding split_from
split_end piece [] h = ap (λ r. r ∷ []) (sym (append-nil (reverse piece)))
split_end piece (c ∷ s) h =
    subst
      (λ (v : Bool).
        elim v as (λ _. List Text) [
          | true ↦ reverse piece ∷ split_from b'.' [] s
          | false ↦ split_from b'.' (c ∷ piece) s
        ]
        ≡ (reverse piece ++ (c ∷ s)) ∷ [])
      (sym h.0) (split_end (c ∷ piece) s h.1 ∙ ap (λ r. r ∷ []) (reverse_step c piece s))

demo_dots : NoDot (codes "demo")
demo_dots = (refl, (refl, (refl, (refl, tt))))

-- The token has four parts.
split_token :
    (host : Host) (username nonce : Text)
    → NoDot username
    → NoDot nonce
    → NoDot (token_digest host username nonce)
    → split b'.' (create_session_token host username nonce)
      ≡ codes "demo" ∷ username ∷ nonce ∷ token_digest host username nonce ∷ []
unfolding split create_session_token
split_token host username nonce a b d =
    rw
      (
        split_dot [] (codes "demo")
            (username ++ (b'.' ∷ (nonce ++ (b'.' ∷ token_digest host username nonce)))) demo_dots,
        split_dot [] username (nonce ++ (b'.' ∷ token_digest host username nonce)) a,
        split_dot [] nonce (token_digest host username nonce) b,
        split_end [] (token_digest host username nonce) d,
      )
      refl

-- A login leaves one session with the hash of its token, the one just written.
stored :
    (hash : Text) (reusable : Option LoginSession) (user_id : ℕ) (c : Client) (db : AccountDb)
    → All (λ s. text_eq s.token_hash hash ≡ false) db.sessions
    → ((r : LoginSession) → reusable ≡ some r → any (λ s. s.id == r.id) db.sessions ≡ true)
    → (i : ℕ) × (u : ℕ) × (first
          (λ s. text_eq s.token_hash hash)
          (store_session reusable user_id hash c db).sessions
        ≡ some (fresh_session i u hash c db.now))
unfolding store_session first
stored hash none user_id c db unknown known = (db.next_id, user_id, rw (text_eq_refl hash) refl)
stored hash (some r) user_id c db unknown known =
    let (x, e) =
      first-update_first (λ s. text_eq s.token_hash hash) (λ s. s.id == r.id)
        (λ s. fresh_session s.id s.user_id hash c db.now) db.sessions unknown
        (λ s. text_eq_refl hash) (known r refl) in
    (x.id, x.user_id, e)

stored_accounts :
    (reusable : Option LoginSession) (user_id : ℕ) (hash : Text) (c : Client) (db : AccountDb)
    → (store_session reusable user_id hash c db).accounts ≡ db.accounts
unfolding store_session
stored_accounts none user_id hash c db = refl
stored_accounts (some r) user_id hash c db = refl

stored_now :
    (reusable : Option LoginSession) (user_id : ℕ) (hash : Text) (c : Client) (db : AccountDb)
    → (store_session reusable user_id hash c db).now ≡ db.now
unfolding store_session
stored_now none user_id hash c db = refl
stored_now (some r) user_id hash c db = refl

mergeable_known :
    (user_id : ℕ) (never : Bool) (c : Client) (db : AccountDb) (r : LoginSession)
    → find_mergeable_session_model user_id never c db ≡ some r
    → any (λ s. s.id == r.id) db.sessions ≡ true
unfolding find_mergeable_session_model
mergeable_known user_id never c db r e =
    sym (any-sort_by (λ s. s.id == r.id) by_id_descending db.sessions)
    ∙ any-first (λ s. s.id == r.id) (sort_by by_id_descending db.sessions)
        (is_mergeable db.now user_id never c) r e (==-refl r.id)

fresh_active :
    (now : ℕ) (never : Bool) (i u : ℕ) (hash : Text) (c : Client)
    → session_is_active now never (fresh_session i u hash c now) ≡ true
unfolding session_is_active
fresh_active now true i u hash c = refl
fresh_active now false i u hash c =
    let late : leb now (now + stale_microseconds) ≡ true = ground arith in late

-- The session of the token is found in the table that a login leaves, and it is active.
recorded :
    (host : Host) (user : Account) (token : Text) (client : Client) (db : AccountDb)
    → All (λ s. text_eq s.token_hash (hash_session_token host token) ≡ false) db.sessions
    → (s : LoginSession) × (find_session_model_by_token host token
          (record_login_session_model host user token client db)
        ≡ some s)
      × (session_is_active
            (record_login_session_model host user token client db).now
            (is_viewer user.role)
            s
          ≡ true)
unfolding find_session_model_by_token record_login_session_model
recorded host user token client db unknown =
    let c = normalize_client client in
    let hash = hash_session_token host token in
    let reusable = find_mergeable_session_model user.id (is_viewer user.role) c db in
    let (i, u, e) =
      stored hash reusable user.id c db unknown
        (mergeable_known user.id (is_viewer user.role) c db) in
    let now_eq = stored_now reusable user.id hash c db in
    let fresh = fresh_session i u hash c db.now in
    (
      fresh,
      e,
      subst (λ n. session_is_active n (is_viewer user.role) fresh ≡ true) (sym now_eq)
          (fresh_active db.now (is_viewer user.role) i u hash c),
    )

recorded_accounts :
    (host : Host) (user : Account) (token : Text) (client : Client) (db : AccountDb)
    → (record_login_session_model host user token client db).accounts ≡ db.accounts
unfolding record_login_session_model
recorded_accounts host user token client db =
    let c = normalize_client client in
    stored_accounts (find_mergeable_session_model user.id (is_viewer user.role) c db) user.id
      (hash_session_token host token) c db

verified :
    (host : Host) (username nonce : Text)
    → NoDot username
    → NoDot nonce
    → is_empty nonce ≡ false
    → NoDot (token_digest host username nonce)
    → verify_session_token host (create_session_token host username nonce) username ≡ true
unfolding verify_session_token verify_parts
verified host username nonce a b full d =
    rw (split_token host username nonce a b d, full)
      (text_eq_refl (create_session_token host username nonce))

same_accounts :
    (name : Text) (db db' : AccountDb)
    → db'.accounts ≡ db.accounts
    → find_user_model name db' ≡ find_user_model name db
unfolding find_user_model
same_accounts name db db' e = rw e refl

admitted :
    (user : Account) (s : LoginSession) (found : Option LoginSession) (db : AccountDb)
    → found ≡ some s
    → session_is_active db.now (is_viewer user.role) s ≡ true
    → (db' : AccountDb) × (check_session user found db ≡ ok (user, db'))
unfolding check_session
admitted user s found db e active =
    subst (λ f. (db' : AccountDb) × (check_session user f db ≡ ok (user, db'))) (sym e)
      (
        record db {
          sessions =
              update_first (λ t. t.id == s.id) (λ t. record t { last_seen_at = some db.now })
                db.sessions;
        },
        rw active refl,
      )

-- When the identity of the login and the user name both name the enabled user, the password is right,
-- the nonce is not empty, no part of the new token has a dot, and no stored session has the hash of the new token, the login
-- returns the token, and the request that brings this token right after is made by that user.
pub authenticate_user-admits :
    (host : Host) (identity password nonce : Text) (client : Client) (user : Account)
    (db : AccountDb)
    → find_user_model identity db ≡ some user
    → find_user_model user.username db ≡ some user
    → is_enabled user.state ≡ true
    → verify_password host password user.password_hash ≡ true
    → NoDot user.username
    → NoDot nonce
    → is_empty nonce ≡ false
    → NoDot (token_digest host user.username nonce)
    → All
        (λ s.
          text_eq s.token_hash
            (hash_session_token host (create_session_token host user.username nonce))
          ≡ false)
        db.sessions
    → (db' : AccountDb) × (authenticate_user host identity password nonce client db
        ≡ ok (create_session_token host user.username nonce, db'))
      × (db'' : AccountDb) × (get_user_by_token host
            (create_session_token host user.username nonce)
            db'
          ≡ ok (user, db''))
unfolding authenticate_user authenticate_row get_user_by_token use_username check_user
authenticate_user-admits host identity password nonce client user db found again enabled right a b
      full d unknown =
    let token = create_session_token host user.username nonce in
    let after = record_login_session_model host user token client db in
    let (s, e, active) = recorded host user token client db unknown in
    let (db'', admits) =
      admitted user s (find_session_model_by_token host token after) after e active in
    let there =
      same_accounts user.username db after (recorded_accounts host user token client db) ∙ again in
    let checks : check_user host token (some user) after ≡ ok (user, db'') =
      rw (verified host user.username nonce a b full d, enabled) admits in
    (
      after,
      rw (found, enabled, right) refl,
      db'',
      rw (split_token host user.username nonce a b d, there) checks,
    )
