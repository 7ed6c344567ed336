-- ===== src/Intake/Keys.antt =====
-- create of src/intake/repository.ts, and the well-formedness of the stored items.
use aisdlc.Prelude.{◌≡◌, List, ◌++◌, ◌∷◌, [], All, All-append, ℕ, any, false}
use aisdlc.Effect.{Result}
use aisdlc.Errors.{Error}
use aisdlc.Text.{Text}
use aisdlc.Text.Laws.{same_sym}
use aisdlc.Store.{ObjectId}
use aisdlc.Db.{Db, World, issue_key_unique}
use aisdlc.Documents.{IntakeItem}
use aisdlc.Access.Unique.{Distinct, Distinct-append}
use aisdlc.Intake.Repository.{create, CreateIntakeInput, CreateIntakeResult, new_item}
use aisdlc.Intake.Transition.{items}
use aisdlc.Intake.History.{IsSound}
use aisdlc.Intake.Creation.{
  Created, create-Created, existed, unhashed, made, unaudited, lost, deleted, unwritten,
}

-- No two items share a key, and every approved item names a human operator.
pub record WellFormed (ds : List IntakeItem) : Type 0 where
  pub distinct : Distinct issue_key_unique ds
  pub sound : All IsSound ds

module _ (db : Db) (quote sha256 : Text → Text) (step step' : World db → World db)
    (now audit_now : ℕ) (input : CreateIntakeInput) (w : World db) where
  abbrev after : World db
  after = (create db quote sha256 step step' now audit_now input w).1

  new_item-IsSound :
      (source_hash : Text) (id : ObjectId) → IsSound (new_item now input source_hash id)
  unfolding new_item
  new_item-IsSound source_hash id = record { approver = λ e. cc; approved_when = λ e. cc }

  grown :
      (source_hash : Text) (id : ObjectId) (ds : List IntakeItem)
      → any (issue_key_unique (new_item now input source_hash id)) ds ≡ false
      → WellFormed ds
      → WellFormed (ds ++ new_item now input source_hash id ∷ [])
  grown source_hash id ds free h = record {
    distinct =
        Distinct-append issue_key_unique (λ a b. same_sym b.issue_key a.issue_key) _ ds free
          h.distinct;
    sound = All-append IsSound ds _ h.sound (new_item-IsSound source_hash id, tt);
  }

  Created-WellFormed :
      {r : Result Error CreateIntakeResult} {w' : World db}
      → Created db quote sha256 step step' now audit_now input w r w'
      → WellFormed (items db w)
      → WellFormed (items db (step w))
      → WellFormed (items db (step' (step w)))
      → WellFormed (items db w')
  Created-WellFormed (existed _ _ _ end) before between later = rw end before
  Created-WellFormed (unhashed _ _ _ _ end) before between later = rw end before
  Created-WellFormed (made hash id _ _ _ free _ written _ _) before between later =
      rw written (grown hash id _ free between)
  Created-WellFormed (unaudited hash id _ _ free _ written _ _) before between later =
      rw written (grown hash id _ free between)
  Created-WellFormed (lost _ _ _ _ end) before between later = rw end later
  Created-WellFormed (deleted _ _ _ end) before between later = rw end later
  Created-WellFormed (unwritten _ _ end) before between later = rw end between

  -- If no two stored items share a key and every approved item names a human operator and a time
  -- of approval, before a create and after each step of the other clients, then so it is after
  -- the call, whatever its result.
  pub create-WellFormed :
      WellFormed (items db w)
      → WellFormed (items db (step w))
      → WellFormed (items db (step' (step w)))
      → WellFormed (items db after)
  create-WellFormed =
      Created-WellFormed (create-Created db quote sha256 step step' now audit_now input w)
