-- ===== src/Access/Once.antt =====
-- insert_or_winner of Access, as what a unique index makes of it.
use aisdlc.Prelude.{
  ◌≡◌, refl, arith, ◌⊎◌, inl, inr, Bool, List, first, some, any, false, true, ◌∙◌, ◌∷◌, [],
  first-append_none, first-some→any, sym,
}
use aisdlc.Store.{ObjectId, Collection}
use aisdlc.Effect.{Result, ok, err}
use aisdlc.Errors.{Error, driver_error}
use aisdlc.Access.{Stored, insert_or_winner}
use aisdlc.Access.Laws.{docs, Placed, fresh, raced, vanished, broken, insert_or_winner-Placed}
use aisdlc.Access.Unique.{Distinct, Distinct-append}

any-ext : {D : Type 0} (p q : D → Bool) (ds : List D) → ((d : D) → p d ≡ q d) → any p ds ≡ any q ds
unfolding any
any-ext p q [] h = refl
any-ext p q (d ∷ ds) h = ground (arith, any-ext p q ds h, h d)

module _ {D W : Type 0} {clash : D → D → Bool} (C : Collection D clash) (get : W → C.State)
    (put : C.State → W → W) (get_put : (s : C.State) (w : W) → get (put s w) ≡ s)
    (mk : ObjectId → D) (p : D → Bool) where
  abbrev run : (W → W) → W → Result Error (Stored C get put) × W
  run step w = insert_or_winner C get put step mk p w

  Placed-Distinct :
      (clash_sym : (a b : D) → clash a b ≡ clash b a) (step : W → W) (w : W)
      {r : Result Error (Stored C get put)} {w' : W}
      → Placed C get put get_put step mk p w r w'
      → Distinct clash (docs C get put w)
      → Distinct clash (docs C get put (step w))
      → Distinct clash (docs C get put w')
  Placed-Distinct clash_sym step w (fresh id free result written) before after =
      rw written (Distinct-append clash clash_sym (mk id) _ free before)
  Placed-Distinct clash_sym step w (raced id winner taken found result end) before after =
      rw end after
  Placed-Distinct clash_sym step w (vanished id taken gone result end) before after = rw end after
  Placed-Distinct clash_sym step w (broken result end) before after = rw end before

  -- The index stays unique, whatever the result.
  pub insert_or_winner-Distinct :
      (clash_sym : (a b : D) → clash a b ≡ clash b a) (step : W → W) (w : W)
      → Distinct clash (docs C get put w)
      → Distinct clash (docs C get put (step w))
      → Distinct clash (docs C get put (run step w).1)
  insert_or_winner-Distinct clash_sym step w =
      Placed-Distinct clash_sym step w (insert_or_winner-Placed C get put get_put step mk p w)

  -- The look-up is by the unique key.
  module _ (keyed : (id : ObjectId) (d : D) → clash (mk id) d ≡ p d)
      (own : (id : ObjectId) → p (mk id) ≡ true) where
    Placed-first :
        (step : W → W) (w : W) {s : Stored C get put} {w' : W}
        → Placed C get put get_put step mk p w (ok s) w'
        → first p (docs C get put w') ≡ some s.doc
    Placed-first step w {s} (fresh id free result written) =
        let none_yet : any p (docs C get put w) ≡ false =
          sym (any-ext (clash (mk id)) p (docs C get put w) (keyed id)) ∙ free in
        let last = first-append_none p (docs C get put w) (mk id) none_yet (own id) in
        let doc : s.doc ≡ mk id = cc in rw (written, doc) last
    Placed-first step w {s} (raced id winner taken found result end) =
        let doc : s.doc ≡ winner = cc in rw (end, doc) found
    Placed-first step w (vanished id taken gone result end) = cc
    Placed-first step w (broken result end) = cc

    -- What a successful call returns is the first document under the key afterwards.
    pub insert_or_winner-first :
        (step : W → W) (w : W) {s : Stored C get put} {w' : W}
        → run step w ≡ (ok s, w')
        → first p (docs C get put w') ≡ some s.doc
    insert_or_winner-first step w h =
        Placed-first step w (rw h at (insert_or_winner-Placed C get put get_put step mk p w))

    Placed-found :
        (w : W) (d : D) {r : Result Error (Stored C get put)} {w' : W}
        → first p (docs C get put w) ≡ some d
        → Placed C get put get_put (λ v. v) mk p w r w'
        → ((r ≡ ok (record { doc = d; was_created = false })) ⊎ (r ≡ err driver_error)) × (w' ≡ w)
    Placed-found w d there (fresh id free result written) =
        let some_there = first-some→any p _ there in
        let free' : any p (docs C get put w) ≡ false =
          sym (any-ext (clash (mk id)) p (docs C get put w) (keyed id)) ∙ free in
        cc
    Placed-found w d there (raced id winner taken found result end) =
        let same : winner ≡ d = cc in (inl (rw same at result), end)
    Placed-found w d there (vanished id taken gone result end) = cc
    Placed-found w d there (broken result end) = (inr result, end)

    -- With a document under the key, and nobody else at work, nothing is written, and that document
    -- is returned, unless the driver fails.
    pub insert_or_winner-found :
        (w : W) (d : D)
        → first p (docs C get put w) ≡ some d
        → (((run (λ v. v) w).0 ≡ ok (record { doc = d; was_created = false }))
            ⊎ ((run (λ v. v) w).0 ≡ err driver_error))
          × ((run (λ v. v) w).1 ≡ w)
    insert_or_winner-found w d there =
        Placed-found w d there (insert_or_winner-Placed C get put get_put (λ v. v) mk p w)
