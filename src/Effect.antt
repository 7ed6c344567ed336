-- ===== src/Effect.antt =====
-- Asynchronous code as it is run: a state that is passed on, and a result that is a value or the
-- error that was thrown. What is written before a throw stays written.
pub mod Laws
pub mod Keeps
use aisdlc.Prelude.{Bool, true, false}

pub data Result {ℓ κ} (E : Type ℓ) (A : Type κ) : Type (ℓ ⊔ κ) where
  ok : A → Result E A
  err : E → Result E A

abbrev pub Action : Type 0 → Type 0 → Type 0 → Type 0
Action W E A = W → Result E A × W

-- What follows an `await`: it sees the state that the awaited call left behind.
abbrev pub and_then {ℓ} :
    {W E A : Type 0} {B : Type ℓ} → Result E A → (A → W → Result E B × W) → W → Result E B × W
and_then (ok a) f w = f a w
and_then (err e) f w = (err e, w)

infixl 5 ◌>>=◌ ◌>>◌
abbrev pub ◌>>=◌ : {W E A B : Type 0} → Action W E A → (A → Action W E B) → Action W E B
◌>>=◌ m f w = let (r, w') = m w in and_then r f w'

abbrev pub ◌>>◌ : {W E B : Type 0} → Action W E (Unit {0}) → Action W E B → Action W E B
m >> k = m >>= λ _. k

abbrev pub pure : {W E A : Type 0} → A → Action W E A
pure a w = (ok a, w)

abbrev pub throw : {W E A : Type 0} → E → Action W E A
throw e w = (err e, w)

-- `if (!test) throw e`.
abbrev pub require : {W E : Type 0} → Bool → E → Action W E (Unit {0})
require true e w = (ok tt, w)
require false e w = (err e, w)

-- The steps that other clients of the database take while a call is awaited.
abbrev pub others : {W E : Type 0} → (W → W) → Action W E (Unit {0})
others step w = (ok tt, step w)
