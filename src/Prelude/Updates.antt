-- ===== src/Prelude/Updates.antt =====
-- Two lists of the same length, related element by element: what one update makes of a collection.
use mathlib.Core.Path.{◌≡◌}
use mathlib.Core.Bool.{Bool, true}
use mathlib.Core.Logic.{inl, inr}
use mathlib.Core.List.{List, [], ◌∷◌}
use aisdlc.Prelude.Tests.{Bool-cases}
use aisdlc.Prelude.Lists.{update_first, All}

pub data Pointwise {A : Type 0} (R : A → A → Type 0) : List A → List A → Type 0 where
  done : Pointwise R [] []
  next : {x y : A} {xs ys : List A} → R x y → Pointwise R xs ys → Pointwise R (x ∷ xs) (y ∷ ys)

module _ {A : Type 0} (R : A → A → Type 0) (same : (a : A) → R a a) where
  pub Pointwise-refl : (xs : List A) → Pointwise R xs xs
  Pointwise-refl [] = done
  Pointwise-refl (x ∷ xs) = next (same x) (Pointwise-refl xs)

  pub update_first-Pointwise :
      (p : A → Bool) (f : A → A) (xs : List A)
      → ((a : A) → p a ≡ true → R a (f a))
      → Pointwise R xs (update_first p f xs)
  unfolding update_first
  update_first-Pointwise p f [] step = done
  update_first-Pointwise p f (x ∷ xs) step = elim (Bool-cases (p x)) [
    | inl met ↦ rw met (next (step x met) (Pointwise-refl xs))
    | inr other ↦ rw other (next (same x) (update_first-Pointwise p f xs step))
  ]

-- An update that needs something of the element that it meets.
pub update_first-All {ℓ κ μ} :
    {A : Type ℓ} (P : A → Type κ) (Q : A → Type μ) (p : A → Bool) (f : A → A) (xs : List A)
    → All P xs
    → All Q xs
    → ((a : A) → p a ≡ true → Q a → P (f a))
    → All P (update_first p f xs)
unfolding update_first
update_first-All P Q p f [] hp hq step = tt
update_first-All P Q p f (x ∷ xs) hp hq step = elim (Bool-cases (p x)) [
  | inl met ↦ rw met (step x met hq.0, hp.1)
  | inr other ↦ rw other (hp.0, update_first-All P Q p f xs hp.1 hq.1 step)
]
