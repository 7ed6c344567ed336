-- ===== src/Access.antt =====
-- The calls of the driver as awaited actions on one collection of the world, and the way in which
-- every repository of src/ inserts a document: the duplicate-key error of a lost race is caught,
-- and what the winner wrote is returned.
pub mod Laws
pub mod Unique
pub mod Once
pub mod Audited
use aisdlc.Prelude.{Bool, true, false, Option, some, none}
use aisdlc.Store.{ObjectId, inserted, duplicate_key, refused, Collection}
use aisdlc.Effect.{ok, err, Action, ◌>>=◌, ◌>>◌, pure, throw, others}
use aisdlc.Errors.{Error, duplicate_key_error, driver_error}

module _ {D W : Type 0} {clash : D → D → Bool} (C : Collection D clash) (get : W → C.State)
    (put : C.State → W → W) where
  unfoldable pub find_one : (D → Bool) → Action W Error (Option D)
  find_one p w = (ok (C.find_one p (get w)), w)

  unfoldable pub find_one_and_update : (D → Bool) → (D → D) → Action W Error (Option D)
  find_one_and_update p f w =
      (ok (C.find_one_and_update p f (get w)).0, put (C.find_one_and_update p f (get w)).1 w)

  -- `none` is the duplicate-key error, which every caller catches.
  unfoldable pub insert_one : (ObjectId → D) → Action W Error (Option ObjectId)
  insert_one mk w = elim (C.insert_one mk (get w)) [
    | inserted id s ↦ (ok (some id), put s w)
    | duplicate_key ↦ (ok none, w)
    | refused ↦ (err driver_error, w)
  ]

  -- A document, and whether this call created it.
  pub record Stored : Type 0 where
    pub doc : D
    pub was_created : Bool

  winner_or_rethrow : Option D → Action W Error Stored
  winner_or_rethrow none = throw duplicate_key_error
  winner_or_rethrow (some winner) = pure (record { doc = winner; was_created = false })

  after_insert : (W → W) → (ObjectId → D) → (D → Bool) → Option ObjectId → Action W Error Stored
  unfolding find_one winner_or_rethrow
  after_insert step mk p (some id) = pure (record { doc = mk id; was_created = true })
  after_insert step mk p none = do others step; winner ← find_one p; winner_or_rethrow winner

  -- `step` is what other clients do between the refused insert and the look-up of the winner.
  unfoldable pub insert_or_winner : (W → W) → (ObjectId → D) → (D → Bool) → Action W Error Stored
  unfolding insert_one after_insert
  insert_or_winner step mk p = do inserted_id ← insert_one mk; after_insert step mk p inserted_id
