-- ===== src/Effect/Laws.antt =====
-- Inversion of a sequence of awaited calls.
use aisdlc.Prelude.{◌≡◌, refl, ◌⊎◌, inl, inr}
use aisdlc.Effect.{Result, ok, err, Action, and_then, ◌>>=◌}

module _ {W E A B : Type 0} where
  pub and_then-ok :
      (r : Result E A) (f : A → Action W E B) (w : W) {b : B} {w' : W}
      → and_then r f w ≡ (ok b, w')
      → (a : A) × (r ≡ ok a) × (f a w ≡ (ok b, w'))
  and_then-ok (ok a) f w h = (a, refl, h)
  and_then-ok (err e) f w h = cc

  pub >>=-ok :
      (m : Action W E A) (f : A → Action W E B) (w : W) {b : B} {w'' : W}
      → (m >>= f) w ≡ (ok b, w'')
      → (a : A) × (w' : W) × (m w ≡ (ok a, w')) × (f a w' ≡ (ok b, w''))
  >>=-ok m f w h = let (a, ra, fa) = and_then-ok (m w).0 f (m w).1 h in (a, (m w).1, cc, fa)

pub Result-cases :
    {E A : Type 0} (r : Result E A) → ((a : A) × (r ≡ ok a)) ⊎ ((e : E) × (r ≡ err e))
Result-cases (ok a) = inl (a, refl)
Result-cases (err e) = inr (e, refl)
