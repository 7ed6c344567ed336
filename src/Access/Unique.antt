-- ===== src/Access/Unique.antt =====
-- The condition that a unique index puts on the documents of a collection.
use aisdlc.Prelude.{◌≡◌, refl, arith, Bool, false, List, ◌∷◌, [], ◌++◌, any, any-append}

module _ {D : Type 0} (clash : D → D → Bool) where
  -- No two documents agree on the key.
  abbrev pub Distinct : List D → Type 0
  Distinct [] = Unit
  Distinct (d ∷ ds) = (any (clash d) ds ≡ false) × Distinct ds

  pub Distinct-append :
      (clash_sym : (a b : D) → clash a b ≡ clash b a) (x : D) (ds : List D)
      → any (clash x) ds ≡ false
      → Distinct ds
      → Distinct (ds ++ x ∷ [])
  unfolding any
  Distinct-append clash_sym x [] free distinct = (refl, tt)
  Distinct-append clash_sym x (d ∷ ds) free distinct =
      let tail : any (clash x) ds ≡ false = ground arith in
      let head : clash x d ≡ false = ground arith in
      let flipped = clash_sym x d in
      (
        ground (arith, any-append (clash d) ds (x ∷ [])),
        Distinct-append clash_sym x ds tail distinct.1,
      )
