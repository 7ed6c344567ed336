-- ===== src/Prelude/Lists.antt =====
-- Lists: length, searches by a Boolean test, and predicates over all elements.
use Prim.Native.Nat.{ℕ, zero, suc, ◌+◌}
use mathlib.Core.Path.{◌≡◌, refl}
use mathlib.Core.Bool.{Bool, true, false, ◌||◌, ◌&&◌}
use mathlib.Core.List.{List, [], ◌∷◌, ◌++◌}
use mathlib.Core.Option.{Option, none, some}
use native.Mathlib.Omega.{arith}
use aisdlc.Prelude.Tests.{if◌then◌else◌, &&-split}

module _ {ℓ} {A : Type ℓ} where
  abbrev pub length : List A → ℕ
  length [] = 0
  length (x ∷ xs) = suc (length xs)

  -- `Array.prototype.some`.
  unfoldable pub any : (A → Bool) → List A → Bool
  any p [] = false
  any p (x ∷ xs) = p x || any p xs

  -- `Array.prototype.every`.
  unfoldable pub every : (A → Bool) → List A → Bool
  every p [] = true
  every p (x ∷ xs) = p x && every p xs

  -- `Array.prototype.find`.
  unfoldable pub first : (A → Bool) → List A → Option A
  first p [] = none
  first p (x ∷ xs) = if p x then some x else first p xs

  -- Replaces the first element that passes the test.
  unfoldable pub update_first : (A → Bool) → (A → A) → List A → List A
  update_first p f [] = []
  update_first p f (x ∷ xs) = if p x then f x ∷ xs else x ∷ update_first p f xs

  -- `Array.prototype.filter`.
  unfoldable pub keep : (A → Bool) → List A → List A
  keep p [] = []
  keep p (x ∷ xs) = if p x then x ∷ keep p xs else keep p xs

  abbrev pub take : ℕ → List A → List A
  take zero xs = []
  take (suc n) [] = []
  take (suc n) (x ∷ xs) = x ∷ take n xs

  abbrev pub All {κ} : (A → Type κ) → List A → Type κ
  All P [] = Unit
  All P (x ∷ xs) = P x × All P xs

module _ {ℓ} {A : Type ℓ} where
  pub length-append : (xs ys : List A) → length (xs ++ ys) ≡ length xs + length ys
  length-append [] ys = omega arith
  length-append (x ∷ xs) ys = omega (arith, length-append xs ys)

  pub any-append : (p : A → Bool) (xs ys : List A) → any p (xs ++ ys) ≡ (any p xs || any p ys)
  unfolding any
  any-append p [] ys = refl
  any-append p (x ∷ xs) ys = ground (arith, any-append p xs ys)

  pub first-none→any : (p : A → Bool) (xs : List A) → first p xs ≡ none → any p xs ≡ false
  unfolding first any
  first-none→any p [] h = refl
  first-none→any p (x ∷ xs) h = ground (arith, first-none→any p xs)

  pub first-some→test : (p : A → Bool) (xs : List A) {a : A} → first p xs ≡ some a → p a ≡ true
  unfolding first
  first-some→test p [] h = cc
  first-some→test p (x ∷ xs) {a} h = ground (arith, first-some→test p xs {a = a})

  pub first-some→any : (p : A → Bool) (xs : List A) {a : A} → first p xs ≡ some a → any p xs ≡ true
  unfolding first any
  first-some→any p [] h = cc
  first-some→any p (x ∷ xs) {a} h = ground (arith, first-some→any p xs {a = a})

  pub first-append_none :
      (p : A → Bool) (xs : List A) (y : A)
      → any p xs ≡ false
      → p y ≡ true
      → first p (xs ++ y ∷ []) ≡ some y
  unfolding first any
  first-append_none p [] y h k = ground arith
  first-append_none p (x ∷ xs) y h k = ground (arith, first-append_none p xs y)

module _ {ℓ} {A : Type ℓ} (p : A → Bool) (f : A → A) where
  pub update_first-none : (xs : List A) → first p xs ≡ none → update_first p f xs ≡ xs
  unfolding first update_first
  update_first-none [] h = refl
  update_first-none (x ∷ xs) h = ground (arith, update_first-none xs)

module _ {ℓ κ} {A : Type ℓ} (P : A → Type κ) where
  pub All-append : (xs ys : List A) → All P xs → All P ys → All P (xs ++ ys)
  All-append [] ys hx hy = hy
  All-append (x ∷ xs) ys hx hy = (hx.0, All-append xs ys hx.1 hy)

  pub All-first : (p : A → Bool) (xs : List A) {a : A} → All P xs → first p xs ≡ some a → P a
  unfolding first
  All-first p [] h e = cc
  All-first p (x ∷ xs) {a} h e = ground (arith, All-first p xs {a = a} h.1)

  pub All-update_first :
      (p : A → Bool) (f : A → A) (xs : List A)
      → All P xs
      → ((a : A) → p a ≡ true → P a → P (f a))
      → All P (update_first p f xs)
  unfolding update_first
  All-update_first p f [] h step = tt
  All-update_first p f (x ∷ xs) h step = ground (arith, step x, All-update_first p f xs h.1 step)

pub every→All {ℓ} :
    {A : Type ℓ} (p : A → Bool) (xs : List A) → every p xs ≡ true → All (λ x. p x ≡ true) xs
unfolding every
every→All p [] h = tt
every→All p (x ∷ xs) h =
    let (now, later) = &&-split (p x) (every p xs) h in (now, every→All p xs later)
