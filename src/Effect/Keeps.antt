-- ===== src/Effect/Keeps.antt =====
-- What an action keeps, whether it returns or throws: one rule for each way to build an action.
use aisdlc.Prelude.{Bool, true, false, if◌then◌else◌}
use aisdlc.Effect.{Result, ok, err, Action, and_then, ◌>>=◌, pure}

module _ {W : Type 0} (P : W → Type 0) where
  -- Tactics and patterns do not look inside, so that the rules fit by the action.
  pub record Keeps {E A : Type 0} (m : Action W E A) : Type 0 where
    pub at : (w : W) → P w → P (m w).1

module _ {W : Type 0} {P : W → Type 0} {E A : Type 0} where
  pub Keeps-pure : (a : A) → Keeps P {E = E} (pure a)
  Keeps-pure a = record { at = λ w h. h }

  pub Keeps-if :
      (b : Bool) (m n : Action W E A) → Keeps P m → Keeps P n → Keeps P (if b then m else n)
  Keeps-if true m n km kn = km
  Keeps-if false m n km kn = kn

module _ {W : Type 0} {P : W → Type 0} {E A B : Type 0} where
  and_then-Keeps :
      (r : Result E A) (f : A → Action W E B)
      → ((a : A) → Keeps P (f a))
      → (w : W) → P w
      → P (and_then r f w).1
  and_then-Keeps (ok a) f kf w h = (kf a).at w h
  and_then-Keeps (err e) f kf w h = h

  pub Keeps-then :
      (m : Action W E A) (f : A → Action W E B)
      → Keeps P m
      → ((a : A) → Keeps P (f a))
      → Keeps P (m >>= f)
  Keeps-then m f km kf = record { at = λ w h. and_then-Keeps (m w).0 f kf (m w).1 (km.at w h) }

  pub Keeps-map : (g : A → B) (m : Action W E A) → Keeps P m → Keeps P (m >>= λ a. pure (g a))
  Keeps-map g m km = Keeps-then m (λ a. pure (g a)) km (λ a. Keeps-pure (g a))

-- An action that leads from a world with `P` to one with `Q`, whether it returns or throws.
pub record Leads {W E A : Type 0} (P Q : W → Type 0) (m : Action W E A) : Type 0 where
  pub at : (w : W) → P w → Q (m w).1

module _ {W : Type 0} {P Q : W → Type 0} (weaken : (w : W) → P w → Q w) where
  pub Leads-pure : {E A : Type 0} (a : A) → Leads {E = E} P Q (pure a)
  Leads-pure a = record { at = weaken }

  and_then-Leads :
      {E A B : Type 0} (r : Result E A) (f : A → Action W E B)
      → ((a : A) → Leads P Q (f a))
      → (w : W) → P w
      → Q (and_then r f w).1
  and_then-Leads (ok a) f kf w h = (kf a).at w h
  and_then-Leads (err e) f kf w h = weaken w h

  -- First an action that keeps `P`, then one that leads to `Q`.
  pub Leads-then :
      {E A B : Type 0} (m : Action W E A) (f : A → Action W E B)
      → Keeps P m
      → ((a : A) → Leads P Q (f a))
      → Leads P Q (m >>= f)
  Leads-then m f km kf = record { at = λ w h. and_then-Leads (m w).0 f kf (m w).1 (km.at w h) }

pub Leads-if :
    {W E A : Type 0} {P Q : W → Type 0} (b : Bool) {m n : Action W E A}
    → Leads P Q m
    → Leads P Q n
    → Leads P Q (if b then m else n)
Leads-if true km kn = km
Leads-if false km kn = kn

module _ {W : Type 0} {P Q : W → Type 0} where
  -- First an action that leads to `Q`, then one that keeps it.
  pub Leads-Keeps :
      {E A B : Type 0} (m : Action W E A) (f : A → Action W E B)
      → Leads P Q m
      → ((a : A) → Keeps Q (f a))
      → Leads P Q (m >>= f)
  Leads-Keeps m f km kf = record { at = λ w h. and_then-Keeps (m w).0 f kf (m w).1 (km.at w h) }
