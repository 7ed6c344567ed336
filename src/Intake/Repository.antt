-- ===== src/Intake/Repository.antt =====
-- src/intake/repository.ts: create and transition. The other clients of the database act where the
-- code awaits between its read and its write: `step` is what they do there. Clock readings are
-- arguments.
use aisdlc.Prelude.{ℕ, ◌++◌, Bool, Option, List, some, none, [], false, true, ◌&&◌, ◌∷◌}
use aisdlc.Store.{ObjectId, inserted, duplicate_key, refused}
use aisdlc.Effect.{ok, err, Action, and_then, ◌>>=◌, ◌>>◌, pure, others, require}
use aisdlc.Collections.{
  IntakeStatus, approved, IntakeSource, operator_principal_prefix, intake_item, webhook, manual,
  backfill,
}
use aisdlc.Db.{Db, World}
use aisdlc.Text.{Text, codes, same, starts_with}
use aisdlc.Documents.{IntakeItem, IntakeSnapshot, Datum, IntakeSnapshotMeta, a_text}
use aisdlc.Intake.State.{status_name, initial_intake_status, assert_transition, same_status}
use aisdlc.Errors.{
  Error, Do, driver_error, intake_not_found, intake_conflict, approval_requires_operator,
}
use aisdlc.AuditLog.{AuditEntryInput, append}
use aisdlc.Intake.Hash.{hash_snapshot}

pub record CreateIntakeInput : Type 0 where
  pub issue_key : Text
  pub source : IntakeSource
  pub snapshot : IntakeSnapshot
  pub snapshot_meta : Option IntakeSnapshotMeta
  pub delivery_ref : Option ObjectId
  pub received_at : Option ℕ

pub record CreateIntakeResult : Type 0 where
  pub id : ObjectId
  pub was_created : Bool
  pub item : IntakeItem

-- TransitionOptions, and ApprovalOptions with `approvedBy`.
pub record TransitionOptions : Type 0 where
  pub actor : Text
  pub reason : Option Text
  pub approved_by : Option Text

abbrev pub or_else {ℓ} : {A : Type ℓ} → Option A → A → A
or_else none d = d
or_else (some a) d = a

unfoldable pub source_name : IntakeSource → Text
source_name webhook = codes "webhook"
source_name manual = codes "manual"
source_name backfill = codes "backfill"

abbrev pub key_is : Text → IntakeItem → Bool
key_is issue_key item = same item.issue_key issue_key

abbrev pub key_status_are : Text → IntakeStatus → IntakeItem → Bool
key_status_are issue_key status item =
    same item.issue_key issue_key && same_status item.status status

-- The document that `create` inserts.
unfoldable pub new_item : ℕ → CreateIntakeInput → Text → ObjectId → IntakeItem
new_item now input source_hash id = record {
  id = id;
  issue_key = input.issue_key;
  source = input.source;
  delivery_ref = input.delivery_ref;
  snapshot = input.snapshot;
  snapshot_meta = input.snapshot_meta;
  source_hash = source_hash;
  status = initial_intake_status;
  status_reason = none;
  approved_by = none;
  approved_at = none;
  received_at = or_else input.received_at now;
  created_at = now;
  updated_at = now;
}

-- The `$set` of `transition`.
unfoldable pub apply_update : ℕ → IntakeStatus → TransitionOptions → IntakeItem → IntakeItem
apply_update now approved opts item = record item {
  status = approved;
  status_reason = opts.reason;
  approved_by = some (or_else opts.approved_by []);
  approved_at = some now;
  updated_at = now;
}
apply_update now to opts item = record item {
  status = to;
  status_reason = opts.reason;
  updated_at = now;
}

-- Approval needs a human operator; the other statuses do not.
unfoldable pub require_operator :
    {W : Type 0} → IntakeStatus → TransitionOptions → Action W Error (Unit {0})
unfolding operator_principal_prefix
require_operator approved opts =
    let approved_by = or_else opts.approved_by [] in
    require (starts_with approved_by operator_principal_prefix)
      (approval_requires_operator approved_by)
require_operator to opts = pure tt

abbrev reason_detail : Option Text → List (Text × Datum)
reason_detail none = []
reason_detail (some reason) = (codes "reason", a_text reason) ∷ []

abbrev approved_by_detail : IntakeStatus → TransitionOptions → List (Text × Datum)
approved_by_detail approved opts = (codes "approvedBy", a_text (or_else opts.approved_by [])) ∷ []
approved_by_detail to opts = []

unfoldable pub transition_entry :
    Text → IntakeStatus → IntakeStatus → ObjectId → TransitionOptions → AuditEntryInput
unfolding status_name
transition_entry issue_key from to subject_id opts = record {
  actor = opts.actor;
  action = codes "intake." ++ status_name to;
  subject_type = intake_item;
  subject_id = subject_id;
  detail = some (
      (codes "issueKey", a_text issue_key)
      ∷ (codes "from", a_text (status_name from))
      ∷ (codes "to", a_text (status_name to))
      ∷ (reason_detail opts.reason ++ approved_by_detail to opts));
  occurred_at = none;
}

unfoldable pub received_entry : CreateIntakeInput → Text → ObjectId → AuditEntryInput
unfolding source_name
received_entry input source_hash id = record {
  actor = codes "source:" ++ source_name input.source;
  action = codes "intake.received";
  subject_type = intake_item;
  subject_id = id;
  detail =
      some (
        (codes "issueKey", a_text input.issue_key) ∷ (codes "sourceHash", a_text source_hash) ∷ []);
  occurred_at = none;
}

module _ (db : Db) where
  unfoldable pub find_by_issue_key : Text → Do db (Option IntakeItem)
  find_by_issue_key issue_key w =
      (ok (db.intake_items.find_one (key_is issue_key) w.intake_items), w)

  unfoldable pub require_by_issue_key : Text → Do db IntakeItem
  require_by_issue_key issue_key w =
      elim (db.intake_items.find_one (key_is issue_key) w.intake_items) [
        | none ↦ (err (intake_not_found issue_key), w)
        | some item ↦ (ok item, w)
      ]

  -- `findOneAndUpdate({ issueKey, status: from }, …)`: a compare-and-set on the observed status.
  unfoldable pub compare_and_set :
      Text → IntakeStatus → (IntakeItem → IntakeItem) → Do db IntakeItem
  compare_and_set issue_key from update w =
      let (result, s) =
        db.intake_items.find_one_and_update (key_status_are issue_key from) update w.intake_items in
      elim result [
        | none ↦ (err (intake_conflict issue_key), record w { intake_items = s })
        | some item ↦ (ok item, record w { intake_items = s })
      ]

  unfoldable pub transition :
      (World db → World db) → ℕ → ℕ → Text → IntakeStatus → TransitionOptions → Do db IntakeItem
  transition step now audit_now issue_key to opts = do
    current ← require_by_issue_key issue_key
    assert_transition current.status to
    require_operator to opts
    others step
    result ← compare_and_set issue_key current.status (apply_update now to opts)
    _ ← append db audit_now (transition_entry issue_key current.status to current.id opts)
    pure result

  -- Lost a race on the unique index: what the winner wrote is returned.
  unfoldable pub take_winner : Text → Do db CreateIntakeResult
  unfolding require_by_issue_key
  take_winner issue_key = do
    winner ← require_by_issue_key issue_key
    pure (record { id = winner.id; was_created = false; item = winner })

  unfoldable pub insert_item :
      (World db → World db) → ℕ → ℕ → CreateIntakeInput → Text → Do db CreateIntakeResult
  unfolding take_winner
  insert_item step now audit_now input source_hash w =
      elim (db.intake_items.insert_one (new_item now input source_hash) w.intake_items) [
        | refused ↦ (err driver_error, w)
        | duplicate_key ↦ take_winner input.issue_key (step w)
        | inserted id s ↦
            and_then
              (append db audit_now (received_entry input source_hash id)
                (record w { intake_items = s })).0
              (λ _ w'. (
                ok (record {
                  id = id;
                  was_created = true;
                  item = new_item now input source_hash id;
                }),
                w',
              ))
              (append db audit_now (received_entry input source_hash id)
                (record w { intake_items = s })).1
      ]

  module _ (quote sha256 : Text → Text) where
    unfoldable pub create_after :
        (World db → World db)
        → (World db → World db)
        → ℕ
        → ℕ
        → CreateIntakeInput
        → Option IntakeItem
        → Do db CreateIntakeResult
    unfolding insert_item hash_snapshot
    create_after step step' now audit_now input (some item) =
        pure (record { id = item.id; was_created = false; item = item })
    create_after step step' now audit_now input none = do
      source_hash ← (λ w. (hash_snapshot quote sha256 input.snapshot, w))
      others step
      insert_item step' now audit_now input source_hash

    -- `step` is what others do between the look-up and the insert, `step'` what they do between a
    -- refused insert and the second look-up.
    unfoldable pub create :
        (World db → World db)
        → (World db → World db)
        → ℕ
        → ℕ
        → CreateIntakeInput
        → Do db CreateIntakeResult
    unfolding find_by_issue_key create_after
    create step step' now audit_now input = do
      existing ← find_by_issue_key input.issue_key
      create_after step step' now audit_now input existing
