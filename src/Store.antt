-- ===== src/Store.antt =====
-- The MongoDB driver as the repositories call it. The driver is not part of this repository: a
-- collection is a parameter, with what the driver documents of findOne, insertOne and
-- findOneAndUpdate as laws over the documents that the collection holds.
pub mod Memory
use mathlib.Core.Option
use aisdlc.Prelude.{
  ℕ, Bool, true, false, ◌≡◌, List, [], ◌∷◌, ◌++◌, Option, any, first, update_first,
}

-- The value of an ObjectId.
abbrev pub ObjectId : Type 0
ObjectId = ℕ

-- What insertOne gives: the new id, a duplicate-key error (code 11000), or another error.
pub data Inserted (S : Type 0) : Type 0 where
  inserted : ObjectId → S → Inserted S
  duplicate_key refused : Inserted S

-- A collection of `D` under a unique index: `clash d e` says that `d` and `e` agree on its key.
pub record Collection (D : Type 0) (clash : D → D → Bool) : Type 1 where
  pub State : Type 0
  pub docs : State → List D
  pub find_one : (D → Bool) → State → Option D
  -- The document to insert, given the `_id` that the driver generates.
  pub insert_one : (ObjectId → D) → State → Inserted State
  pub find_one_and_update : (D → Bool) → (D → D) → State → Option D × State
  pub find_one_lem : (p : D → Bool) (s : State) → find_one p s ≡ first p (docs s)
  pub insert_one-inserted :
      (mk : ObjectId → D) (s s' : State) (id : ObjectId)
      → insert_one mk s ≡ inserted id s'
      → (docs s' ≡ docs s ++ mk id ∷ []) × (any (clash (mk id)) (docs s) ≡ false)
  pub insert_one-duplicate :
      (mk : ObjectId → D) (s : State)
      → insert_one mk s ≡ duplicate_key
      → (id : ObjectId) × (any (clash (mk id)) (docs s) ≡ true)
  pub find_one_and_update_result :
      (p : D → Bool) (f : D → D) (s : State)
      → (find_one_and_update p f s).0 ≡ Option.map f (first p (docs s))
  pub find_one_and_update_docs :
      (p : D → Bool) (f : D → D) (s : State)
      → docs (find_one_and_update p f s).1 ≡ update_first p f (docs s)
