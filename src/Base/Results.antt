-- ===== src/Base/Results.antt =====
-- What a chain of fallible steps that succeeds has passed.
use mathlib.Core.Path.{◌≡◌, refl}
use mathlib.Core.Bool.{Bool, true, false}
use mathlib.Core.Option.{Option, none, some}
use project_hermes.Base.AppError.{AppError, Result, ok, err, ◌>>=◌, ◌>>◌, guard, ok_or}

pub bind_ok {ℓ κ} :
    {T : Type ℓ} {U : Type κ} (m : Result T) (f : T → Result U) {u : U}
    → (m >>= f) ≡ ok u
    → (t : T) × (m ≡ ok t) × (f t ≡ ok u)
bind_ok (ok t) f h = (t, refl, h)
bind_ok (err e) f h = absurd (cc)

pub some_bind {ℓ κ} :
    {A : Type ℓ} {U : Type κ} (e : AppError) (o : Option A) (f : A → Result U) {u : U}
    → (ok_or e o >>= f) ≡ ok u
    → (a : A) × (o ≡ some a) × (f a ≡ ok u)
some_bind e none f h = absurd (cc)
some_bind e (some a) f h = (a, refl, h)

pub guard_bind {κ} :
    {U : Type κ} (b : Bool) (e : AppError) (m : Result U) {u : U}
    → (guard b e >> m) ≡ ok u
    → (b ≡ true) × (m ≡ ok u)
guard_bind true e m h = (refl, h)
guard_bind false e m h = absurd (cc)

pub unit_bind {κ} :
    {U : Type κ} (p : Result (Unit {0})) (m : Result U) {u : U}
    → (p >> m) ≡ ok u
    → (p ≡ ok tt) × (m ≡ ok u)
unit_bind (ok tt) m h = (refl, h)
unit_bind (err e) m h = absurd (cc)
