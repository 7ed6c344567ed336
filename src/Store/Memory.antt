-- ===== src/Store/Memory.antt =====
-- A collection in memory: a list under a unique index. It meets the driver's laws.
use mathlib.Core.Option
use aisdlc.Prelude.{
  ◌+◌, ◌≡◌, refl, arith, Bool, true, false, List, [], ◌∷◌, ◌++◌, length, any, first, update_first,
  if◌then◌else◌,
}
use aisdlc.Store.{ObjectId, Inserted, inserted, duplicate_key, Collection}

module _ {D : Type 0} (clash : D → D → Bool) where
  abbrev pub next_id : List D → ObjectId
  next_id ds = length ds + 1

  abbrev pub insert_memory : (ObjectId → D) → List D → Inserted (List D)
  insert_memory mk ds =
      if any (clash (mk (next_id ds))) ds
      then duplicate_key
      else inserted (next_id ds) (ds ++ mk (next_id ds) ∷ [])

  pub insert_memory-inserted :
      (mk : ObjectId → D) (s s' : List D) (id : ObjectId)
      → insert_memory mk s ≡ inserted id s'
      → (s' ≡ s ++ mk id ∷ []) × (any (clash (mk id)) s ≡ false)
  insert_memory-inserted mk s s' id h = ground arith

  pub insert_memory-duplicate :
      (mk : ObjectId → D) (s : List D)
      → insert_memory mk s ≡ duplicate_key
      → (id : ObjectId) × (any (clash (mk id)) s ≡ true)
  insert_memory-duplicate mk s h = (next_id s, ground arith)

  unfoldable pub memory : Collection D clash
  unfolding first update_first any
  memory = record {
    State = List D;
    docs = λ ds. ds;
    find_one = first;
    insert_one = insert_memory;
    find_one_and_update = λ p f ds. (Option.map f (first p ds), update_first p f ds);
    find_one_lem = λ p ds. refl;
    insert_one-inserted = insert_memory-inserted;
    insert_one-duplicate = insert_memory-duplicate;
    find_one_and_update_result = λ p f ds. refl;
    find_one_and_update_docs = λ p f ds. refl;
  }
