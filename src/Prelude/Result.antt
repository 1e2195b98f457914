-- ===== src/Prelude/Result.antt =====
-- A Go function that returns `(value, error)` with the value unused on an error.
use mathlib.Core.Path.{◌≡◌, refl}
use mathlib.Core.Option.{Option, none, some}

pub data Result {ℓ κ} (E : Type κ) (A : Type ℓ) : Type (ℓ ⊔ κ) where
  ok : A → Result E A
  err : E → Result E A

infixl 5 ◌>>=◌
abbrev pub ◌>>=◌ {ℓ ℓ' κ} :
    {E : Type κ} {A : Type ℓ} {B : Type ℓ'} → Result E A → (A → Result E B) → Result E B
ok a >>= f = f a
err e >>= f = err e

-- `if err != nil { return wrap(err) }` after a call whose own error is only wrapped.
abbrev pub or_fail {ℓ κ} : {E : Type κ} {A : Type ℓ} → Option A → E → Result E A
or_fail none e = err e
or_fail (some a) e = ok a

-- The call in front of a check of `err`, and what is done with its value, where neither returns an
-- error.
pub checked_call {ℓ ℓ' κ} :
    {E : Type κ} {A : Type ℓ} {B : Type ℓ'} (call : Result E A) (go_on : A → Result E B)
    (result : B)
    → (call >>= go_on) ≡ ok result
    → (value : A) × (ok value ≡ call) × (go_on value ≡ ok result)
checked_call (ok value) go_on result done = (value, refl, done)
checked_call (err why) go_on result done = cc done
