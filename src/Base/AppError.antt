-- ===== src/Base/AppError.antt =====
-- backend/src/utils/error.rs: the error type that every handler returns, as a result monad.
-- A message made by `format!` is the list of its literal and interpolated pieces.
use Prim.Native.String.{String}
use mathlib.Core.Bool.{Bool, true, false}
use mathlib.Core.Option.{Option, none, some}
use mathlib.Core.List.{List, [], ◌∷◌}
use project_hermes.Base.Int.{ℤ}

pub data Piece : Type 0 where
  text : String → Piece
  num : ℤ → Piece

abbrev pub Message : Type 0
Message = List Piece

-- A message that is one literal.
abbrev pub literal : String → Message
literal s = text s ∷ []

pub data AppError : Type 0 where
  validation auth permission not_found conflict rate_limited infrastructure fatal :
      Message → AppError

pub data Result {ℓ} (T : Type ℓ) : Type ℓ where
  ok : T → Result T
  err : AppError → Result T

infixl 5 ◌>>=◌ ◌>>◌
-- `m?`
abbrev pub ◌>>=◌ {ℓ κ} : {T : Type ℓ} {U : Type κ} → Result T → (T → Result U) → Result U
ok value >>= next = next value
err error >>= next = err error

abbrev pub ◌>>◌ {ℓ} : {U : Type ℓ} → Result (Unit {0}) → Result U → Result U
check >> next = check >>= λ _. next

-- `if !b { return Err(e) }`
abbrev pub guard : Bool → AppError → Result (Unit {0})
guard true error = ok tt
guard false error = err error

-- `opt.ok_or_else(|| e)?`
abbrev pub ok_or {ℓ} : {A : Type ℓ} → AppError → Option A → Result A
ok_or e none = err e
ok_or e (some a) = ok a
