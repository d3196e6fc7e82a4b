-- ===== src/Accounts/Users/LastAdmin.antt =====
-- The administrators who are enabled, under the requests of the user page
-- (backend/app/services/user_service.py).
use nebula_grid.Base.{
  ℕ, ◌+◌, ◌≤◌, ◌≡◌, refl, sym, ap, subst, inl, inr, Bool, true, false, ◌&&◌, ◌||◌, not, Option,
  none, some, List, [], ◌∷◌, ◌==◌, ==_iff, ◌⊎◌, ◌∙◌, leb, length, arith, Bool-cases, Option-cases,
  if_ind, or_else,
}
use nebula_grid.Base.Text.{Text, codes}
use nebula_grid.Base.Table.{first, select, update_first, delete_first}
use nebula_grid.Model.{Role, UserState, first-holds}
use nebula_grid.Scheduler.Tick.{is_enabled}
use nebula_grid.Response.Laws.{bind_ok, ok_inj, required}
use nebula_grid.Response.{
  value_error, Response, ok, error, require, forbidden, not_found, validation_error,
}
use nebula_grid.Access.{has_permission, is_admin, is_mentor}
use nebula_grid.Tasks.Update.{is_null, patch, Patch, unset, null, given}
use nebula_grid.Accounts.Store.{Account, AccountDb, Host, get_account, set_account}
use nebula_grid.Accounts.Sessions.{revoke_user_sessions}
use nebula_grid.Accounts.Devices.{is_viewer}
use nebula_grid.Accounts.Users.{
  count_admin_users, UserCreateRequest, create_user, find_target_user, replace_supervisors,
  is_student, is_taken, new_account, is_foreign, may_create, username_exists,
  resolve_supervisor_ids, linux_account_for_role,
}
use nebula_grid.Accounts.Users.Edit.{
  UserUpdateRequest, check_role, edit_account, write_supervision, write_user, update_user,
  check_username, check_state, check_supervision, check_samba, check_linux_name,
}
use nebula_grid.Accounts.Users.Passwords.{
  set_password, has_samba, finish_password, reset_user_password,
}
use nebula_grid.Accounts.Users.Requests.{
  delete_account, delete_user, handle, Request, create, edit, reset, remove, leaves_traces,
}

-- The guards of the page count the administrators, enabled or not; only the enabled ones can log in.
abbrev can_administer : Account → Bool
can_administer a = is_admin a.role && is_enabled a.state

abbrev pub count_enabled_admins : AccountDb → ℕ
count_enabled_admins db = length (select can_administer db.accounts)

-- How writes to one account change the number of accounts that pass a test.
module _ (g : Account → Bool) where
  abbrev holders : List Account → ℕ
  holders xs = length (select g xs)

  holders-cons-le : (a : Account) (xs : List Account) → holders xs ≤ holders (a ∷ xs)
  unfolding select
  holders-cons-le a xs = ground arith

  -- A write that keeps the test.
  update_first-same :
      (p : Account → Bool) (f : Account → Account)
      → ((a : Account) → g (f a) ≡ g a)
      → (xs : List Account) → holders (update_first p f xs) ≡ holders xs
  unfolding select update_first
  update_first-same p f same [] = refl
  update_first-same p f same (x ∷ xs) = ground (arith, same x, update_first-same p f same xs)

  module _ (p : Account → Bool) where
    update_first-le :
        (f : Account → Account) (xs : List Account) → holders xs ≤ holders (update_first p f xs) + 1
    unfolding select update_first
    update_first-le f [] = omega arith
    update_first-le f (x ∷ xs) = ground (arith, update_first-le f xs)

    update_first-keeps :
        (f : Account → Account) (xs : List Account) (a : Account)
        → first p xs ≡ some a
        → (g a ≡ true → g (f a) ≡ true)
        → holders xs ≤ holders (update_first p f xs)
    unfolding select update_first first
    update_first-keeps f [] a e keep = omega arith
    update_first-keeps f (x ∷ xs) a e keep = elim (Bool-cases (p x)) [
      | inl y ↦
          let e' : some x ≡ some a = rw y at e in
          let same : x ≡ a = cc in
          let k : g x ≡ true → g (f x) ≡ true =
            subst (λ z. g z ≡ true → g (f z) ≡ true) (sym same) keep in
          elim (Bool-cases (g x)) [ inl b ↦ ground (arith, k b) | inr b ↦ ground arith ]
      | inr n ↦
          let e' : first p xs ≡ some a = rw n at e in
          ground (arith, update_first-keeps f xs a e' keep)
    ]

    delete_first-le : (xs : List Account) → holders xs ≤ holders (delete_first p xs) + 1
    unfolding select delete_first
    delete_first-le [] = omega arith
    delete_first-le (x ∷ xs) = ground (arith, delete_first-le xs)

    delete_first-keeps :
        (xs : List Account) (a : Account)
        → first p xs ≡ some a
        → g a ≡ false
        → holders xs ≤ holders (delete_first p xs)
    unfolding select delete_first first
    delete_first-keeps [] a e other = omega arith
    delete_first-keeps (x ∷ xs) a e other = elim (Bool-cases (p x)) [
      | inl y ↦
          let e' : some x ≡ some a = rw y at e in let same : x ≡ a = cc in ground (arith, ap g same)
      | inr n ↦
          let e' : first p xs ≡ some a = rw n at e in
          ground (arith, delete_first-keeps xs a e' other)
    ]

abbrev rows_of : Response AccountDb → List Account
rows_of (ok db) = db.accounts
rows_of (error e) = []

-- What a successful lookup found.
pub found_user :
    (pk : ℕ) (db : AccountDb) (t : Account)
    → find_target_user pk db ≡ ok t
    → get_account pk db ≡ some t
unfolding find_target_user
found_user pk db t e = elim (Option-cases (get_account pk db)) [
  | inl n ↦
      let bad : ◌≡◌ {A = Response Account} (error not_found) (ok t) =
        rw (n, find_target_user) at e in
      cc
  | inr (a, y) ↦
      let e' : ok a ≡ ok t = rw (y, find_target_user) at e in
      let same : a ≡ t = cc in y ∙ ap some same
]

pub found_id : (pk : ℕ) (db : AccountDb) (t : Account) → get_account pk db ≡ some t → t.id ≡ pk
unfolding get_account
found_id pk db t e = (==_iff t.id pk).0 (first-holds (λ a. a.id == pk) db.accounts t e)

-- Where there is one administrator, an accepted edit of its role leaves the role.
check_role-keeps :
    (user target : Account) (p : Patch Role) (db : AccountDb) (next_role : Role)
    → count_admin_users db ≤ 1
    → check_role user target p db ≡ ok next_role
    → is_admin target.role ≡ true
    → is_admin next_role ≡ true
unfolding check_role
check_role-keeps user target (given r) db next_role few e y =
    let (a, e1, e2) = bind_ok (require (is_admin user.role) forbidden) _ e in
    let (b, e3, e4) =
      bind_ok
        (require (not (is_admin target.role && not (is_admin r) && leb (count_admin_users db) 1))
          forbidden)
        (λ _. ok r) e2 in
    let passed = required _ forbidden b e3 in
    let same : r ≡ next_role = cc in subst (λ z. is_admin z ≡ true) same (ground (arith, passed))
check_role-keeps user target null db next_role few e y =
    let same : target.role ≡ next_role = cc in subst (λ z. is_admin z ≡ true) same y
check_role-keeps user target unset db next_role few e y =
    let same : target.role ≡ next_role = cc in subst (λ z. is_admin z ≡ true) same y

-- And one of its state leaves it enabled.
check_state-keeps :
    (target : Account) (p : Patch UserState) (db : AccountDb) (b : Bool)
    → count_admin_users db ≤ 1
    → check_state target p db ≡ ok b
    → is_admin target.role ≡ true
    → is_enabled target.state ≡ true
    → is_enabled (patch p target.state) ≡ true
unfolding check_state
check_state-keeps target (given state) db b few e y on =
    let passed = required _ forbidden b e in ground (arith, passed)
check_state-keeps target null db b few e y on = on
check_state-keeps target unset db b few e y on = on

write_user-accounts :
    (host : Host) (target : Account) (p : UserUpdateRequest) (next_role : Role)
    (changed : Option (List ℕ)) (name : Option Text) (db : AccountDb)
    → (write_user host target p next_role changed name db).accounts
      ≡ update_first (λ a. a.id == target.id) (edit_account host p next_role name) db.accounts
unfolding write_user write_supervision replace_supervisors set_account revoke_user_sessions
write_user-accounts host target p next_role none name db = ground arith
write_user-accounts host target p next_role (some ids) name db = ground arith

-- An administrator is enabled, and it is not the only enabled one beside others that are disabled.
abbrev pub IsManaged : AccountDb → Type 0
IsManaged db =
    (1 ≤ count_enabled_admins db) × ((2 ≤ count_enabled_admins db) ⊎ (count_admin_users db ≤ 1))

module _ (host : Host) (user : Account) (db db' : AccountDb) (managed : IsManaged db) where
  edited-keeps :
      (p : UserUpdateRequest) (target : Account) (next_role : Role) (name : Option Text) (b : Bool)
      → get_account target.id db ≡ some target
      → check_role user target p.role db ≡ ok next_role
      → check_state target p.state db ≡ ok b
      → 1
        ≤ holders can_administer
            (update_first (λ a. a.id == target.id) (edit_account host p next_role name) db.accounts)
  unfolding edit_account get_account
  edited-keeps p target next_role name b here chosen allowed = elim managed.1 [
    | inl many ↦ omega (
      arith,
      many,
      update_first-le can_administer (λ a. a.id == target.id) (edit_account host p next_role name)
          db.accounts,
    )
    | inr few ↦ omega (
      arith,
      managed.0,
      update_first-keeps can_administer (λ a. a.id == target.id)
          (edit_account host p next_role name) db.accounts target here
          (λ y.
            let role = check_role-keeps user target p.role db next_role few chosen (ground arith) in
            let state =
              check_state-keeps target p.state db b few allowed (ground arith) (ground arith) in
            ground (arith, role, state)),
    )
  ]

  update_user-keeps :
      (p : UserUpdateRequest) → update_user host user p db ≡ ok db' → 1 ≤ count_enabled_admins db'
  unfolding update_user
  update_user-keeps p e =
      let (a1, x1, e1) =
        bind_ok (require (has_permission user.role (codes "users:read")) forbidden) _ e in
      let (target, found, e2) = bind_ok (find_target_user p.user_id db) _ e1 in
      let (a3, x3, e3) = bind_ok (require (not (is_foreign user target db)) forbidden) _ e2 in
      let (a4, x4, e4) =
        bind_ok
          (require (is_admin user.role || (user.id == target.id || is_student target.role))
            forbidden)
          _ e3 in
      let (a5, x5, e5) = bind_ok (check_username user target p.username db) _ e4 in
      let (next_role, chosen, e6) = bind_ok (check_role user target p.role db) _ e5 in
      let (a7, x7, e7) = bind_ok (check_state target p.state db) _ e6 in
      let (a8, y8, e75) = bind_ok (require (not (is_null p.role)) value_error) _ e7 in
      let (changed, x8, e8) = bind_ok (check_supervision user next_role p db) _ e75 in
      let (a9, x9, e9) = bind_ok (check_samba host target p.samba_enabled) _ e8 in
      let (name, x10, e10) = bind_ok (check_linux_name host target next_role p) _ e9 in
      let eq = ok_inj (write_user host target p next_role changed name db) db' e10 in
      let row = found_user p.user_id db target found in
      let here : get_account target.id db ≡ some target =
        rw (found_id p.user_id db target row) row in
      subst (λ d. 1 ≤ count_enabled_admins d) eq
        (subst (λ xs. 1 ≤ holders can_administer xs)
          (sym (write_user-accounts host target p next_role changed name db))
          (edited-keeps p target next_role name a7 here chosen x7))

  finish_password-accounts :
      (target : Account) (d : AccountDb)
      → count_enabled_admins (finish_password host target d).1 ≡ count_enabled_admins d
  unfolding finish_password revoke_user_sessions set_account
  finish_password-accounts target d =
      if_ind same (not (is_viewer target.role || host.linux_call target.username)) (λ _. refl)
        (λ _.
          if_ind same (not (has_samba target)) (λ _. refl)
            (λ _.
              if_ind same (host.samba_call target.username)
                (λ _. noted (host.samba_report target.username)) (λ _. noted (codes "failed"))))
    where
      same : Bool × AccountDb → Type 0
      same r = count_enabled_admins r.1 ≡ count_enabled_admins d

      noted :
          (status : Text)
          → holders can_administer (
              update_first
                (λ a. a.id == target.id)
                (λ a. record a { samba_status = status })
                d.accounts)
            ≡ count_enabled_admins d
      noted status = update_first-same can_administer _ _ (λ a. refl) d.accounts

  reset_user_password-keeps :
      (pk : ℕ) (password : Text) (finished : Bool)
      → reset_user_password host user pk password db ≡ ok (finished, db')
      → 1 ≤ count_enabled_admins db'
  unfolding reset_user_password set_password set_account
  reset_user_password-keeps pk password finished e =
      let (a1, x1, e1) =
        bind_ok (require (has_permission user.role (codes "users:read")) forbidden) _ e in
      let (target, found, e2) = bind_ok (find_target_user pk db) _ e1 in
      let (a3, x3, e3) = bind_ok (require (not (is_foreign user target db)) forbidden) _ e2 in
      let (a4, x4, e4) =
        bind_ok (require (is_admin user.role || is_mentor user.role) forbidden) _ e3 in
      let written : AccountDb = set_account target.id (set_password host password) db in
      let eq = ok_inj (finish_password host target written) (finished, db') e4 in
      subst (λ (r : Bool × AccountDb). 1 ≤ count_enabled_admins r.1) eq
        (rw (finish_password-accounts target written) (
          rw
            (update_first-same can_administer (λ a. a.id == target.id) (set_password host password)
              (λ a. refl) db.accounts)
            managed.0))

  deleted-keeps :
      (target : Account)
      → get_account target.id db ≡ some target
      → not (is_admin target.role && leb (count_admin_users db) 1) ≡ true
      → 1 ≤ holders can_administer (delete_first (λ a. a.id == target.id) db.accounts)
  unfolding get_account
  deleted-keeps target here passed = elim managed.1 [
    | inl many ↦
        omega (arith, many, delete_first-le can_administer (λ a. a.id == target.id) db.accounts)
    | inr few ↦ omega (
      arith,
      managed.0,
      delete_first-keeps can_administer (λ a. a.id == target.id) db.accounts target here
          (ground (arith, passed)),
    )
  ]

  delete_user-keeps : (pk : ℕ) → delete_user host user pk db ≡ ok db' → 1 ≤ count_enabled_admins db'
  unfolding delete_user delete_account
  delete_user-keeps pk e =
      let (a1, x1, e1) =
        bind_ok (require (has_permission user.role (codes "users:delete")) forbidden) _ e in
      let (target, found, e2) = bind_ok (find_target_user pk db) _ e1 in
      let (a3, x3, e3) =
        bind_ok (require (not (is_admin target.role && leb (count_admin_users db) 1)) forbidden) _
          e2 in
      let (a4, x4, e4) =
        bind_ok
          (require
            (is_viewer target.role
              || (not (leaves_traces target) || host.samba_call target.username)
                && host.linux_call target.username)
            validation_error)
          _ e3 in
      let passed =
        required (not (is_admin target.role && leb (count_admin_users db) 1)) forbidden a3 x3 in
      let row = found_user pk db target found in
      let here : get_account target.id db ≡ some target = rw (found_id pk db target row) row in
      subst (λ d. 1 ≤ count_enabled_admins d) (ok_inj (delete_account target db) db' e4)
        (deleted-keeps target here passed)

  create_user-keeps :
      (p : UserCreateRequest) → create_user host user p db ≡ ok db' → 1 ≤ count_enabled_admins db'
  unfolding create_user
  create_user-keeps p e =
      let (a1, x1, e1) = bind_ok (may_create user p.role) _ e in
      let (a2, x2, e2) =
        bind_ok (require (not (username_exists p.username none db)) validation_error) _ e1 in
      let (a3, x3, e3) = bind_ok (require (not (is_taken p.user_id db)) validation_error) _ e2 in
      let (ids, x4, e4) = bind_ok (resolve_supervisor_ids user p.role p.supervisor_ids db) _ e3 in
      let (name, x5, e5) = bind_ok (linux_account_for_role host p.username p.role) _ e4 in
      let (a6, x6, e6) =
        bind_ok (require (is_viewer p.role || host.linux_call p.username) validation_error) _ e5 in
      let made : Account = new_account host (or_else p.user_id db.next_id) p name in
      let eq : holders can_administer (made ∷ db.accounts) ≡ count_enabled_admins db' =
        ap (λ r. holders can_administer (rows_of r)) e6 in
      subst (λ n. 1 ≤ n) eq
        (omega (arith, managed.0, holders-cons-le can_administer made db.accounts))

-- A request of the user page that succeeds leaves an administrator who is enabled, where there was one
-- before that was not the only enabled one beside administrators that are disabled.
pub handle-keeps :
    (host : Host) (user : Account) (request : Request) (db db' : AccountDb)
    → IsManaged db
    → handle host user request db ≡ ok db'
    → 1 ≤ count_enabled_admins db'
unfolding handle
handle-keeps host user (create p) db db' managed e = create_user-keeps host user db db' managed p e
handle-keeps host user (edit p) db db' managed e = update_user-keeps host user db db' managed p e
handle-keeps host user (reset pk password) db db' managed e =
    let (r, e1, e2) = bind_ok (reset_user_password host user pk password db) _ e in
    let same = ok_inj r.1 db' e2 in
    reset_user_password-keeps host user db db' managed pk password r.0
      (subst (λ d. reset_user_password host user pk password db ≡ ok (r.0, d)) same e1)
handle-keeps host user (remove pk) db db' managed e =
    delete_user-keeps host user db db' managed pk e
