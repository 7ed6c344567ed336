-- ===== src/Intake/Outcome.antt =====
-- Laws of transition of src/intake/repository.ts, by the branches of the code.
use aisdlc.Prelude.{
  ℕ, ◌≡◌, arith, ap, ◌⊎◌, inl, inr, Option-cases, Bool-cases, [], first, none, some, true, false,
  update_first, ◌∙◌, update_first-none,
}
use aisdlc.Intake.Transition.{items, Moved, transition-Moved, HasOperator}
use aisdlc.Db.{Db, World}
use aisdlc.Text.{Text, starts_with}
use aisdlc.Collections.{IntakeStatus, approved, operator_principal_prefix}
use aisdlc.Intake.Repository.{
  TransitionOptions, or_else, transition, require_by_issue_key, key_is, require_operator,
  compare_and_set, key_status_are, apply_update, transition_entry,
}
use aisdlc.Effect.{Result, err, and_then, ok, ◌>>◌, others, ◌>>=◌, pure}
use aisdlc.Documents.{IntakeItem}
use aisdlc.Errors.{
  Error, intake_not_found, invalid_transition, Do, intake_conflict, approval_requires_operator,
}
use aisdlc.Intake.State.{assert_transition, can_transition}
use aisdlc.Store.{ObjectId}
use aisdlc.AuditLog.Laws.{entries, append-err, append-error, is_append_error}
use aisdlc.AuditLog.{append}
use aisdlc.Effect.Laws.{Result-cases}

module _ (db : Db) (step : World db → World db) (now audit_now : ℕ) (issue_key : Text)
    (to : IntakeStatus) (opts : TransitionOptions) (w : World db) where
  abbrev approver : Text
  approver = or_else opts.approved_by []

  abbrev run : Result Error IntakeItem × World db
  run = transition db step now audit_now issue_key to opts w

  pub data Outcome (r : Result Error IntakeItem) (w' : World db) : Type 0 where
    -- No such item.
    absent :
        first (key_is issue_key) (items db w) ≡ none
        → r ≡ err (intake_not_found issue_key)
        → w' ≡ w
        → Outcome r w'
    -- The state machine has no such edge.
    illegal :
        (item : IntakeItem)
        → first (key_is issue_key) (items db w) ≡ some item
        → can_transition item.status to ≡ false
        → r ≡ err (invalid_transition item.status to)
        → w' ≡ w
        → Outcome r w'
    -- An approval by a principal that is no operator.
    no_operator :
        to ≡ approved
        → starts_with approver operator_principal_prefix ≡ false
        → r ≡ err (approval_requires_operator approver)
        → w' ≡ w
        → Outcome r w'
    -- Another client moved the item after it was read: nothing is written.
    lost :
        (item : IntakeItem)
        → first (key_is issue_key) (items db w) ≡ some item
        → first (key_status_are issue_key item.status) (items db (step w)) ≡ none
        → r ≡ err (intake_conflict issue_key)
        → items db w' ≡ items db (step w)
        → entries db w' ≡ entries db (step w)
        → Outcome r w'
    moved :
        (item : IntakeItem)
        → r ≡ ok item
        → Moved db step now audit_now issue_key to opts w item w'
        → Outcome r w'
    -- The item was moved, and then the audit entry was refused: the two writes are no transaction.
    unaudited :
        (item old : IntakeItem) (e : Error)
        → first (key_is issue_key) (items db w) ≡ some item
        → can_transition item.status to ≡ true
        → (to ≡ approved → HasOperator (some approver))
        → first (key_status_are issue_key item.status) (items db (step w)) ≡ some old
        → items db w'
          ≡ update_first
              (key_status_are issue_key item.status)
              (apply_update now to opts)
              (items db (step w))
        → entries db w' ≡ entries db (step w)
        → is_append_error e ≡ true
        → r ≡ err e
        → Outcome r w'

  compare_and_set-none :
      (from : IntakeStatus) (update : IntakeItem → IntakeItem) (v : World db)
      → first (key_status_are issue_key from) (items db v) ≡ none
      → ((compare_and_set db issue_key from update v).0 ≡ err (intake_conflict issue_key))
        × (items db (compare_and_set db issue_key from update v).1 ≡ items db v)
        × (entries db (compare_and_set db issue_key from update v).1 ≡ entries db v)
  unfolding compare_and_set
  compare_and_set-none from update v none_left =
      let p = key_status_are issue_key from in
      let result = db.intake_items.find_one_and_update_result p update v.intake_items in
      let written = db.intake_items.find_one_and_update_docs p update v.intake_items in
      let same = update_first-none p update (items db v) none_left in
      let nothing : (db.intake_items.find_one_and_update p update v.intake_items).0 ≡ none =
        rw none_left at result in
      (ground arith, ground arith, ground arith)

  compare_and_set-some :
      (from : IntakeStatus) (update : IntakeItem → IntakeItem) (v : World db) (old : IntakeItem)
      → first (key_status_are issue_key from) (items db v) ≡ some old
      → ((compare_and_set db issue_key from update v).0 ≡ ok (update old))
        × (items db (compare_and_set db issue_key from update v).1
            ≡ update_first (key_status_are issue_key from) update (items db v))
        × (entries db (compare_and_set db issue_key from update v).1 ≡ entries db v)
  unfolding compare_and_set
  compare_and_set-some from update v old found =
      let p = key_status_are issue_key from in
      let result = db.intake_items.find_one_and_update_result p update v.intake_items in
      let written = db.intake_items.find_one_and_update_docs p update v.intake_items in
      let hit : (db.intake_items.find_one_and_update p update v.intake_items).0
          ≡ some (update old) =
        rw found at result in
      (ground arith, ground arith, ground arith)

  abbrev swap : IntakeItem → Result Error IntakeItem × World db
  swap item = compare_and_set db issue_key item.status (apply_update now to opts) (step w)

  abbrev record_entry : IntakeItem → Do db ObjectId
  record_entry item = append db audit_now (transition_entry issue_key item.status to item.id opts)

  abbrev settle : IntakeItem → Result Error IntakeItem × World db
  settle item =
      and_then (swap item).0
        (λ result v.
          and_then (record_entry item v).0 (λ _ v'. (ok result, v')) (record_entry item v).1)
        (swap item).1

  finish_swap :
      (item old : IntakeItem)
      → first (key_is issue_key) (items db w) ≡ some item
      → can_transition item.status to ≡ true
      → (to ≡ approved → HasOperator (some approver))
      → first (key_status_are issue_key item.status) (items db (step w)) ≡ some old
      → items db (swap item).1
        ≡ update_first
            (key_status_are issue_key item.status)
            (apply_update now to opts)
            (items db (step w))
      → entries db (swap item).1 ≡ entries db (step w)
      → run
        ≡ and_then
            (record_entry item (swap item).1).0
            (λ _ v'. (ok (apply_update now to opts old), v'))
            (record_entry item (swap item).1).1
      → ((id : ObjectId) × ((record_entry item (swap item).1).0 ≡ ok id))
        ⊎ ((e : Error) × ((record_entry item (swap item).1).0 ≡ err e))
      → Outcome run.0 run.1
  finish_swap item old seen allowed operator found written log end (inl (id, done)) =
      let value : run.0 ≡ ok (apply_update now to opts old) = ap (λ x. x.0) end ∙ (rw done) in
      moved _ value
        (transition-Moved db step now audit_now issue_key to opts w (λ i. (value i, run.1)))
  finish_swap item old seen allowed operator found written log end (inr (e, thrown)) =
      let stays =
        append-err db audit_now (transition_entry issue_key item.status to item.id opts)
          (swap item).1 (λ i. (thrown i, (record_entry item (swap item).1).1)) in
      let final : run ≡ (err e, (record_entry item (swap item).1).1) = end ∙ (rw thrown) in
      let kept : run.1 ≡ (swap item).1 = ap (λ x. x.1) final ∙ stays in
      unaudited item old e seen allowed operator found (ap (items db) kept ∙ written)
        (ap (entries db) kept ∙ log)
        (append-error db audit_now (transition_entry issue_key item.status to item.id opts)
          (swap item).1 e (record_entry item (swap item).1).1
          (λ i. (thrown i, (record_entry item (swap item).1).1)))
        (ap (λ x. x.0) final)

  after_swap :
      (item : IntakeItem)
      → first (key_is issue_key) (items db w) ≡ some item
      → can_transition item.status to ≡ true
      → (to ≡ approved → HasOperator (some approver))
      → run ≡ settle item
      → Outcome run.0 run.1
  after_swap item seen allowed operator e =
      elim (Option-cases (first (key_status_are issue_key item.status) (items db (step w)))) [
        | inl gone ↦
            let (thrown, kept, log) =
              compare_and_set-none item.status (apply_update now to opts) (step w) gone in
            let stopped : settle item ≡ (err (intake_conflict issue_key), (swap item).1) =
              rw thrown in
            let end = e ∙ stopped in
            lost item seen gone (ap (λ x. x.0) end) (rw end kept) (rw end log)
        | inr (old, found) ↦
            let (hit, written, log) =
              compare_and_set-some item.status (apply_update now to opts) (step w) old found in
            let swapped : settle item
                ≡ and_then (record_entry item (swap item).1).0
                    (λ _ v'. (ok (apply_update now to opts old), v'))
                    (record_entry item (swap item).1).1 =
              rw hit in
            finish_swap item old seen allowed operator found written log (e ∙ swapped)
              (Result-cases (record_entry item (swap item).1).0)
      ]

  require_operator-cases :
      (v : World db)
      → (require_operator to opts v ≡ (ok tt, v)) × (to ≡ approved → HasOperator (some approver))
        ⊎ ((to ≡ approved)
            × (starts_with approver operator_principal_prefix ≡ false)
            × (require_operator to opts v ≡ (err (approval_requires_operator approver), v)))
  unfolding require_operator
  require_operator-cases v = ground arith

  abbrev tail : IntakeItem → Do db IntakeItem
  tail item = do
    others step
    result ← compare_and_set db issue_key item.status (apply_update now to opts)
    _ ← record_entry item
    pure result

  before_swap :
      (item : IntakeItem)
      → first (key_is issue_key) (items db w) ≡ some item
      → can_transition item.status to ≡ true
      → run ≡ (require_operator to opts >> tail item) w
      → Outcome run.0 run.1
  before_swap item seen allowed e = elim (require_operator-cases w) [
    | inl (fine, operator) ↦ after_swap item seen allowed operator (e ∙ (rw fine))
    | inr (approves, other, thrown) ↦
        let end : run ≡ (err (approval_requires_operator approver), w) = e ∙ (rw thrown) in
        no_operator approves other (ap (λ x. x.0) end) (ap (λ x. x.1) end)
  ]

  -- transition of an intake item, for every state of the database and whatever other clients do
  -- between its read and its write, ends in one of six ways: item not found; no such edge in the
  -- state machine; approval by a principal that is no operator (these three write nothing); lost
  -- race (the items and the log are as the others left them); moved, with the item updated, the
  -- log extended by the one entry and the result the new item; or moved with the audit entry
  -- refused.
  pub transition-Outcome : Outcome run.0 run.1
  unfolding transition require_by_issue_key assert_transition
  transition-Outcome =
      let look = db.intake_items.find_one_lem (key_is issue_key) w.intake_items in
      elim (Option-cases (first (key_is issue_key) (items db w))) [
        | inl missing ↦ absent missing (ground arith) (ground arith)
        | inr (item, seen) ↦ elim (Bool-cases (can_transition item.status to)) [
          | inl allowed ↦
              before_swap item seen allowed
                (rw (transition, require_by_issue_key, look, seen, assert_transition, allowed))
          | inr refused ↦ illegal item seen refused (ground arith) (ground arith)
        ]
      ]
