-- ===== src/Envs/Lock.antt =====
-- The lock of an environment, which its active jobs and the deletion of its packages share (backend/app/services/env_service.py, backend/app/workers/env_install_worker.py).
use nebula_grid.Base.{
  ℕ, ◌+◌, ◌≤◌, ◌≡◌, refl, sym, ap, subst, ◌⊎◌, inl, inr, Bool, true, false, not, List, [], ◌∷◌,
  ◌++◌, ◌==◌, ==_iff, any, length, arith, Bool-cases, if◌then◌else◌,
}
use nebula_grid.Base.Text.{Text}
use nebula_grid.Base.Table.{first, select, update_first, delete_first, delete_where}
use nebula_grid.Response.{ok, require, validation_error}
use nebula_grid.Response.Laws.{bind_ok}
use nebula_grid.Response.Laws.{ok_inj, required}
use nebula_grid.Envs.Store.{
  EnvState, Environment, EnvInstallJob, EnvDb, get_environment, set_state, is_installing, works_on,
  installing_environment, env_has_active_package_operation,
}
use nebula_grid.Envs.Install.{EnvPackageInstallRequest, new_job, add_job}

abbrev pub active : ℕ → List EnvInstallJob → ℕ
active e jobs = length (select (works_on e) jobs)

abbrev pub is_held : ℕ → EnvDb → Bool
is_held e db = installing_environment (get_environment e db)

-- An environment has at most one active job, and none while a deletion of packages holds it.
pub record IsExclusive (db : EnvDb) : Type 0 where
  pub one : (e : ℕ) → active e db.jobs ≤ 1
  pub held : (e : ℕ) → is_held e db ≡ true → active e db.jobs ≡ 0

module _ (e : ℕ) where
  active-append :
      (jobs : List EnvInstallJob) (j : EnvInstallJob)
      → active e (jobs ++ (j ∷ [])) ≡ active e jobs + (if works_on e j then 1 else 0)
  unfolding select
  active-append [] j = ground arith
  active-append (i ∷ jobs) j = ground (arith, active-append jobs j)

  pub active-update_first :
      (q : EnvInstallJob → Bool) (f : EnvInstallJob → EnvInstallJob) (jobs : List EnvInstallJob)
      → ((j : EnvInstallJob) → q j ≡ true → works_on e (f j) ≡ true → works_on e j ≡ true)
      → active e (update_first q f jobs) ≤ active e jobs
  unfolding select update_first
  active-update_first q f [] h = omega arith
  active-update_first q f (j ∷ jobs) h = elim (Bool-cases (q j)) [
    | inl y ↦ elim (Bool-cases (works_on e (f j))) [
      | inl w ↦ let k = h j y w in ground (arith, y, w, k)
      | inr w ↦ ground (arith, y, w)
    ]
    | inr n ↦ ground (arith, n, active-update_first q f jobs h)
  ]

  pub active-delete_where :
      (q : EnvInstallJob → Bool) (jobs : List EnvInstallJob)
      → active e (delete_where q jobs) ≤ active e jobs
  unfolding select delete_where
  active-delete_where q [] = omega arith
  active-delete_where q (j ∷ jobs) = ground (arith, active-delete_where q jobs)

  pub active-delete_env :
      (jobs : List EnvInstallJob) → active e (delete_where (λ j. j.env_id == e) jobs) ≡ 0
  unfolding select delete_where
  active-delete_env [] = refl
  active-delete_env (j ∷ jobs) = ground (arith, active-delete_env jobs)

  pub active-none : (jobs : List EnvInstallJob) → any (works_on e) jobs ≡ false → active e jobs ≡ 0
  unfolding select
  active-none [] h = refl
  active-none (j ∷ jobs) h = ground (arith, h, active-none jobs)

  installing-update_first :
      (pk : ℕ) (state : EnvState) (xs : List Environment)
      → installing_environment (
          first
            (λ x. x.id == e)
            (update_first (λ x. x.id == pk) (λ x. record x { state = state }) xs))
        ≡ true
      → (installing_environment (first (λ x. x.id == e) xs) ≡ true)
        ⊎ (e ≡ pk) × (is_installing state ≡ true)
  unfolding first update_first
  installing-update_first pk state [] h = cc
  installing-update_first pk state (x ∷ xs) h = elim (Bool-cases (x.id == pk)) [
    | inl y ↦ elim (Bool-cases (x.id == e)) [
      | inl z ↦ inr (ground (arith, y, z), rw (y, z) at h)
      | inr z ↦ inl (rw z (rw (y, z) at h))
    ]
    | inr n ↦ elim (Bool-cases (x.id == e)) [
      | inl z ↦ inl (rw z (rw (n, z) at h))
      | inr z ↦ rw z (installing-update_first pk state xs (rw (n, z) at h))
    ]
  ]

  pub installing-delete_first :
      (pk : ℕ) (xs : List Environment)
      → installing_environment (first (λ x. x.id == e) (delete_first (λ x. x.id == pk) xs)) ≡ true
      → (installing_environment (first (λ x. x.id == e) xs) ≡ true) ⊎ (e ≡ pk)
  unfolding first delete_first
  installing-delete_first pk [] h = cc
  installing-delete_first pk (x ∷ xs) h = elim (Bool-cases (x.id == pk)) [
    | inl y ↦ elim (Bool-cases (x.id == e)) [
      | inl z ↦ inr (ground (arith, y, z))
      | inr z ↦ inl (rw z (rw y at h))
    ]
    | inr n ↦ elim (Bool-cases (x.id == e)) [
      | inl z ↦ inl (rw z (rw (n, z) at h))
      | inr z ↦ rw z (installing-delete_first pk xs (rw (n, z) at h))
    ]
  ]

  pub installing-append :
      (xs : List Environment) (x : Environment)
      → is_installing x.state ≡ false
      → installing_environment (first (λ y. y.id == e) (xs ++ (x ∷ []))) ≡ true
      → installing_environment (first (λ y. y.id == e) xs) ≡ true
  unfolding first
  installing-append [] x idle h = elim (Bool-cases (x.id == e)) [
    | inl z ↦ let bad : is_installing x.state ≡ true = rw z at h in ground (arith, idle, bad)
    | inr z ↦ let bad : false ≡ true = rw z at h in cc
  ]
  installing-append (y ∷ xs) x idle h = elim (Bool-cases (y.id == e)) [
    | inl z ↦ rw z (rw z at h)
    | inr z ↦ rw z (installing-append xs x idle (rw z at h))
  ]

module _ (db db' : EnvDb) (h : IsExclusive db) where
  -- A transaction that adds no active job and lets no deletion of packages begin.
  pub fewer-IsExclusive :
      ((e : ℕ) → active e db'.jobs ≤ active e db.jobs)
      → ((e : ℕ) → is_held e db' ≡ true → (is_held e db ≡ true) ⊎ (active e db'.jobs ≡ 0))
      → IsExclusive db'
  fewer-IsExclusive less stay = record {
    one = λ e. omega (arith, less e, h.one e);
    held = λ e k. elim (stay e k) [
      | inl before ↦ omega (arith, less e, h.held e before)
      | inr none_left ↦ none_left
    ];
  }

  -- One that changes only a job, which it does not make active.
  pub job-IsExclusive :
      (q : EnvInstallJob → Bool) (f : EnvInstallJob → EnvInstallJob)
      → db'.jobs ≡ update_first q f db.jobs
      → db'.environments ≡ db.environments
      → ((e : ℕ) (j : EnvInstallJob) → q j ≡ true → works_on e (f j) ≡ true → works_on e j ≡ true)
      → IsExclusive db'
  unfolding get_environment
  job-IsExclusive q f jobs same k =
      fewer-IsExclusive (λ e. rw jobs (active-update_first e q f db.jobs (k e)))
        (λ e there. inl (rw same at there))

  pub same-IsExclusive : db'.jobs ≡ db.jobs → db'.environments ≡ db.environments → IsExclusive db'
  unfolding get_environment
  same-IsExclusive jobs same =
      fewer-IsExclusive (λ e. rw jobs (omega arith)) (λ e there. inl (rw same at there))

  pub free :
      (env_id : ℕ) (a : Bool)
      → require (not (env_has_active_package_operation env_id db)) validation_error ≡ ok a
      → (is_held env_id db ≡ false) × (any (works_on env_id) db.jobs ≡ false)
  unfolding env_has_active_package_operation
  free env_id a e =
      let clear =
        required (not (env_has_active_package_operation env_id db)) validation_error a e in
      (ground (arith, clear), ground (arith, clear))

  held_before :
      db'.environments ≡ db.environments → (k : ℕ) → is_held k db' ≡ true → is_held k db ≡ true
  unfolding get_environment
  held_before same k there = rw same at there

  pub add_job-IsExclusive :
      (item env_id : ℕ) (p : EnvPackageInstallRequest) (command : Text) (by : ℕ)
      → add_job item env_id p command by db ≡ ok db'
      → IsExclusive db'
  unfolding add_job
  add_job-IsExclusive item env_id p command by e =
      let (a, passed, e1) =
        bind_ok (require (not (env_has_active_package_operation env_id db)) validation_error) _ e in
      let same = ok_inj _ db' e1 in
      let jobs : db'.jobs ≡ db.jobs ++ (new_job db item env_id p command by ∷ []) =
        sym (ap (λ d. d.jobs) same) in
      let environments : db'.environments ≡ db.environments = sym (ap (λ d. d.environments) same) in
      let (not_held, not_active) = free env_id a passed in
      record {
        one = λ k.
            rw (jobs, active-append k db.jobs (new_job db item env_id p command by))
              (elim (Bool-cases (env_id == k)) [
                | inl y ↦
                    let here : env_id ≡ k = (==_iff env_id k).0 y in
                    let idle : active k db.jobs ≡ 0 =
                      subst (λ i. active i db.jobs ≡ 0) here
                        (active-none env_id db.jobs not_active) in
                    ground (arith, y, idle)
                | inr n ↦ ground (arith, n, h.one k)
              ]);
        held = λ k there.
            rw (jobs, active-append k db.jobs (new_job db item env_id p command by))
              (let before : is_held k db ≡ true = held_before environments k there in
                elim (Bool-cases (env_id == k)) [
                  | inl y ↦
                      let here : env_id ≡ k = (==_iff env_id k).0 y in
                      let no_hold : is_held k db ≡ false =
                        subst (λ i. is_held i db ≡ false) here not_held in
                      ground (arith, before, no_hold)
                  | inr n ↦ ground (arith, n, h.held k before)
                ]);
      }

  pub set_state-IsExclusive :
      (pk : ℕ) (state : EnvState)
      → (is_installing state ≡ true → active pk db.jobs ≡ 0)
      → db' ≡ set_state pk state db
      → IsExclusive db'
  unfolding set_state get_environment
  set_state-IsExclusive pk state k e =
      let jobs : db'.jobs ≡ db.jobs = ap (λ d. d.jobs) e in
      fewer-IsExclusive (λ i. rw jobs (omega arith))
        (λ i there. elim (installing-update_first i pk state db.environments (rw e at there)) [
          | inl before ↦ inl before
          | inr now ↦ inr (rw (jobs, now.0) (k now.1))
        ])
