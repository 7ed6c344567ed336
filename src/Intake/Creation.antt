-- ===== src/Intake/Creation.antt =====
-- Laws of create of src/intake/repository.ts, by the branches of the code.
use aisdlc.Prelude.{
  ℕ, ◌≡◌, refl, arith, ap, inl, inr, true, false, some, first, none, sym, ◌∙◌, [], ◌++◌, ◌∷◌, any,
  Option-cases,
}
use aisdlc.Effect.{Result, ok, err, and_then, pure}
use aisdlc.Effect.Laws.{Result-cases}
use aisdlc.Db.{Db, World, issue_key_unique}
use aisdlc.Store.{ObjectId, Inserted, inserted, duplicate_key, refused}
use aisdlc.Text.{Text}
use aisdlc.Documents.{IntakeItem}
use aisdlc.Errors.{Error, Do, driver_error, intake_not_found}
use aisdlc.AuditLog.{append}
use aisdlc.AuditLog.Laws.{append-ok, append-err, stored, entries, all_but_audit}
use aisdlc.Intake.Hash.{hash_snapshot}
use aisdlc.Intake.Repository.{
  create, CreateIntakeInput, CreateIntakeResult, new_item, received_entry, key_is, insert_item,
  create_after, take_winner, require_by_issue_key, find_by_issue_key,
}
use aisdlc.Intake.Transition.{items}

-- The worlds agree on all that `create` does not write.
abbrev pub all_but_intake : {db : Db} → World db → World db → World db
all_but_intake w w' = record w { audit_log = w'.audit_log; intake_items = w'.intake_items }

module _ (db : Db) (quote sha256 : Text → Text) (step step' : World db → World db)
    (now audit_now : ℕ) (input : CreateIntakeInput) (w : World db) where
  -- The item that is inserted, and its audit entry.
  abbrev pub item_of : Text → ObjectId → IntakeItem
  item_of source_hash id = new_item now input source_hash id

  pub data Created (r : Result Error CreateIntakeResult) (w' : World db) : Type 0 where
    existed :
        (item : IntakeItem)
        → first (key_is input.issue_key) (items db w) ≡ some item
        → r ≡ ok (record { id = item.id; was_created = false; item = item })
        → w' ≡ w
        → Created r w'
    unhashed :
        (e : Error)
        → first (key_is input.issue_key) (items db w) ≡ none
        → hash_snapshot quote sha256 input.snapshot ≡ err e
        → r ≡ err e
        → w' ≡ w
        → Created r w'
    -- Inserted, and the entry of the audit log appended.
    made :
        (source_hash : Text) (id entry_id : ObjectId)
        → first (key_is input.issue_key) (items db w) ≡ none
        → hash_snapshot quote sha256 input.snapshot ≡ ok source_hash
        → any (issue_key_unique (item_of source_hash id)) (items db (step w)) ≡ false
        → r ≡ ok (record { id = id; was_created = true; item = item_of source_hash id })
        → items db w' ≡ items db (step w) ++ item_of source_hash id ∷ []
        → entries db w'
          ≡ entries db (step w)
            ++ stored audit_now (received_entry input source_hash id) entry_id ∷ []
        → w' ≡ all_but_intake (step w) w'
        → Created r w'
    -- Inserted, and then the audit entry was refused.
    unaudited :
        (source_hash : Text) (id : ObjectId) (e : Error)
        → first (key_is input.issue_key) (items db w) ≡ none
        → any (issue_key_unique (item_of source_hash id)) (items db (step w)) ≡ false
        → r ≡ err e
        → items db w' ≡ items db (step w) ++ item_of source_hash id ∷ []
        → entries db w' ≡ entries db (step w)
        → w' ≡ all_but_intake (step w) w'
        → Created r w'
    -- Another client inserted the key first.
    lost :
        (winner : IntakeItem)
        → first (key_is input.issue_key) (items db w) ≡ none
        → first (key_is input.issue_key) (items db (step' (step w))) ≡ some winner
        → r ≡ ok (record { id = winner.id; was_created = false; item = winner })
        → w' ≡ step' (step w)
        → Created r w'
    deleted :
        first (key_is input.issue_key) (items db w) ≡ none
        → first (key_is input.issue_key) (items db (step' (step w))) ≡ none
        → r ≡ err (intake_not_found input.issue_key)
        → w' ≡ step' (step w)
        → Created r w'
    unwritten :
        first (key_is input.issue_key) (items db w) ≡ none
        → r ≡ err driver_error
        → w' ≡ step w
        → Created r w'

  module _ (source_hash : Text) (none_yet : first (key_is input.issue_key) (items db w) ≡ none)
      (hashed : hash_snapshot quote sha256 input.snapshot ≡ ok source_hash) where
    -- The world after the insert, before the audit entry.
    abbrev with_items : db.intake_items.State → World db
    with_items s = record (step w) { intake_items = s }

    abbrev report : ObjectId → ObjectId → Do db CreateIntakeResult
    report id _ = pure (record { id = id; was_created = true; item = item_of source_hash id })

    rest-frame :
        (s : db.intake_items.State) (v : World db)
        → v ≡ all_but_audit (with_items s) v
        → v ≡ all_but_intake (step w) v
    rest-frame s v frame =
        frame
        ∙ ap (λ i. record (step w) { audit_log = v.audit_log; intake_items = i })
            (sym (ap (λ u. u.intake_items) frame))

    finished :
        (id : ObjectId) (s : db.intake_items.State)
        → db.intake_items.insert_one (item_of source_hash) ((step w).intake_items) ≡ inserted id s
        → (r : Result Error ObjectId) (v : World db)
        → append db audit_now (received_entry input source_hash id) (with_items s) ≡ (r, v)
        → Created (and_then r (report id) v).0 (and_then r (report id) v).1
    finished id s e (ok entry_id) v h =
        let (added, free) =
          db.intake_items.insert_one-inserted (item_of source_hash) ((step w).intake_items) s id
            e in
        let (logged, frame) =
          append-ok db audit_now (received_entry input source_hash id) (with_items s) h in
        made source_hash id entry_id none_yet hashed free refl (ap (items db) frame ∙ added) logged
          (rest-frame s v frame)
    finished id s e (err error) v h =
        let (added, free) =
          db.intake_items.insert_one-inserted (item_of source_hash) ((step w).intake_items) s id
            e in
        let same = append-err db audit_now (received_entry input source_hash id) (with_items s) h in
        unaudited source_hash id error none_yet free refl (ap (items db) same ∙ added)
          (ap (entries db) same) (rest-frame s v (ground arith))

    inserted-by :
        (i : Inserted db.intake_items.State)
        → db.intake_items.insert_one (item_of source_hash) ((step w).intake_items) ≡ i
        → Created
            (insert_item db step' now audit_now input source_hash (step w)).0
            (insert_item db step' now audit_now input source_hash (step w)).1
    unfolding insert_item take_winner require_by_issue_key
    inserted-by (inserted id s) e =
        rw (insert_item, e)
          (finished id s e
            (append db audit_now (received_entry input source_hash id) (with_items s)).0
            (append db audit_now (received_entry input source_hash id) (with_items s)).1 refl)
    inserted-by duplicate_key e =
        let look =
          db.intake_items.find_one_lem (key_is input.issue_key) (step' (step w)).intake_items in
        elim (Option-cases (first (key_is input.issue_key) (items db (step' (step w))))) [
          | inl gone ↦
              rw (insert_item, e, take_winner, require_by_issue_key, look, gone)
                (deleted none_yet gone refl refl)
          | inr (winner, found) ↦
              rw (insert_item, e, take_winner, require_by_issue_key, look, found)
                (lost winner none_yet found refl refl)
        ]
    inserted-by refused e = rw (insert_item, e) (unwritten none_yet refl refl)

  -- Creating an intake item ends in one of seven ways: an item with the key exists and is
  -- returned unchanged; the snapshot cannot be hashed; inserted, with the one audit entry, and
  -- nothing but the items and the log written; inserted with the audit entry refused; lost the
  -- race, and the winner is returned; the winner has gone; or the driver failed.
  pub create-Created :
      Created
        (create db quote sha256 step step' now audit_now input w).0
        (create db quote sha256 step step' now audit_now input w).1
  unfolding create find_by_issue_key create_after
  create-Created =
      let look = db.intake_items.find_one_lem (key_is input.issue_key) w.intake_items in
      elim (Option-cases (first (key_is input.issue_key) (items db w))) [
        | inr (item, found) ↦ rw (look, found) (existed item found refl refl)
        | inl none_yet ↦ elim (Result-cases (hash_snapshot quote sha256 input.snapshot)) [
          | inl (source_hash, hashed) ↦
              rw (look, none_yet, hashed) (inserted-by source_hash none_yet hashed _ refl)
          | inr (e, thrown) ↦ rw (look, none_yet, thrown) (unhashed e none_yet thrown refl refl)
        ]
      ]
