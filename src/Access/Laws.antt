-- ===== src/Access/Laws.antt =====
-- The laws of the driver, for the awaited actions.
use aisdlc.Prelude.{
  ◌≡◌, refl, arith, inl, inr, Bool, List, first, Option-cases, Option, none, some, update_first, ap,
  any, false, ◌∙◌, update_first-none, true, ◌++◌, ◌∷◌, [],
}
use aisdlc.Store.{ObjectId, Inserted, inserted, duplicate_key, refused, Collection}
use aisdlc.Effect.{Result, ok, err}
use aisdlc.Access.{find_one, find_one_and_update, Stored, insert_or_winner}
use aisdlc.Errors.{Error, duplicate_key_error, driver_error}

module _ {D W : Type 0} {clash : D → D → Bool} (C : Collection D clash) (get : W → C.State)
    (put : C.State → W → W) where
  abbrev pub docs : W → List D
  docs w = C.docs (get w)

  pub find_one-eq : (p : D → Bool) (w : W) → find_one C get put p w ≡ (ok (first p (docs w)), w)
  unfolding find_one
  find_one-eq p w = rw C.find_one_lem

  module _ (get_put : (s : C.State) (w : W) → get (put s w) ≡ s) where
    -- A compare-and-set: nothing is written where no document passes the test.
    pub data Updated (p : D → Bool) (f : D → D) (w : W) (r : Result Error (Option D)) (w' : W)
        : Type 0 where
      missed : first p (docs w) ≡ none → r ≡ ok none → docs w' ≡ docs w → Updated p f w r w'
      hit :
          (old : D)
          → first p (docs w) ≡ some old
          → r ≡ ok (some (f old))
          → docs w' ≡ update_first p f (docs w)
          → Updated p f w r w'

    pub find_one_and_update-Updated :
        (p : D → Bool) (f : D → D) (w : W)
        → Updated p f w
            (find_one_and_update C get put p f w).0
            (find_one_and_update C get put p f w).1
    unfolding find_one_and_update
    find_one_and_update-Updated p f w =
        let result = C.find_one_and_update_result p f (get w) in
        let written = C.find_one_and_update_docs p f (get w) in
        let stored = get_put (C.find_one_and_update p f (get w)).1 w in
        elim (Option-cases (first p (docs w))) [
          | inl gone ↦
              missed gone (ap ok (rw gone at result))
                (ap C.docs stored ∙ written ∙ update_first-none p f _ gone)
          | inr (old, found) ↦
              hit old found (ap ok (rw found at result)) (ap C.docs stored ∙ written)
        ]

    -- Inserting, or finding the winner of the race.
    pub data Placed (step : W → W) (mk : ObjectId → D) (p : D → Bool) (w : W)
        (r : Result Error (Stored C get put)) (w' : W) : Type 0 where
      fresh :
          (id : ObjectId)
          → any (clash (mk id)) (docs w) ≡ false
          → r ≡ ok (record { doc = mk id; was_created = true })
          → docs w' ≡ docs w ++ mk id ∷ []
          → Placed step mk p w r w'
      raced :
          (id : ObjectId) (winner : D)
          → any (clash (mk id)) (docs w) ≡ true
          → first p (docs (step w)) ≡ some winner
          → r ≡ ok (record { doc = winner; was_created = false })
          → w' ≡ step w
          → Placed step mk p w r w'
      vanished :
          (id : ObjectId)
          → any (clash (mk id)) (docs w) ≡ true
          → first p (docs (step w)) ≡ none
          → r ≡ err duplicate_key_error
          → w' ≡ step w
          → Placed step mk p w r w'
      broken : r ≡ err driver_error → w' ≡ w → Placed step mk p w r w'

    insert_or_winner-by :
        (step : W → W) (mk : ObjectId → D) (p : D → Bool) (w : W) (i : Inserted C.State)
        → C.insert_one mk (get w) ≡ i
        → Placed step mk p w
            (insert_or_winner C get put step mk p w).0
            (insert_or_winner C get put step mk p w).1
    unfolding insert_or_winner
    insert_or_winner-by step mk p w (inserted id s) e =
        let (added, free) = C.insert_one-inserted mk (get w) s id e in
        let stored = get_put s w in
        let shape : (insert_or_winner C get put step mk p w).1 ≡ put s w = ground arith in
        fresh id free (ground arith) (ap docs shape ∙ ap C.docs stored ∙ added)
    insert_or_winner-by step mk p w duplicate_key e =
        let (id, taken) = C.insert_one-duplicate mk (get w) e in
        let look = C.find_one_lem p (get (step w)) in
        elim (Option-cases (first p (docs (step w)))) [
          | inl gone ↦ vanished id taken gone (ground arith) (ground arith)
          | inr (winner, found) ↦ raced id winner taken found (ground arith) (ground arith)
        ]
    insert_or_winner-by step mk p w refused e = broken (ground arith) (ground arith)

    pub insert_or_winner-Placed :
        (step : W → W) (mk : ObjectId → D) (p : D → Bool) (w : W)
        → Placed step mk p w
            (insert_or_winner C get put step mk p w).0
            (insert_or_winner C get put step mk p w).1
    insert_or_winner-Placed step mk p w =
        insert_or_winner-by step mk p w (C.insert_one mk (get w)) refl
