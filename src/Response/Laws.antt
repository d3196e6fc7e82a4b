-- ===== src/Response/Laws.antt =====
-- What a successful response tells of its parts.
use nebula_grid.Base.{◌≡◌, refl, Bool, true, false}
use nebula_grid.Response.{ServiceError, Response, ok, error, ◌>>=◌, require}

-- A chain of checks succeeds only if each check does.
pub bind_ok {ℓ κ} :
    {A : Type ℓ} {B : Type κ} (r : Response A) (f : A → Response B) {b : B}
    → (r >>= f) ≡ ok b
    → (a : A) × (r ≡ ok a) × (f a ≡ ok b)
bind_ok (ok a) f e = (a, refl, e)
bind_ok (error x) f e = cc

pub ok_inj : {A : Type 0} (a b : A) → ok a ≡ ok b → a ≡ b
ok_inj a b e = cc

-- A test that passed.
pub required : (c : Bool) (e : ServiceError) (b : Bool) → require c e ≡ ok b → c ≡ true
required true e b h = refl
required false e b h = cc
