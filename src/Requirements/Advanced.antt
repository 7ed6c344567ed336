-- ===== src/Requirements/Advanced.antt =====
-- Laws of advanceToPendingApproval of src/requirements/approval-transition.ts, by its branches.
use aisdlc.Prelude.{◌≡◌, first, some, ℕ, ◌≢◌, none, true, update_first}
use aisdlc.Effect.{Result, ok, err}
use aisdlc.Errors.{Error, intake_not_found}
use aisdlc.Collections.{IntakeStatus}
use aisdlc.Documents.{IntakeItem}
use aisdlc.Db.{Db, World}
use aisdlc.Intake.Repository.{key_is, key_status_are, apply_update}
use aisdlc.Intake.Transition.{items, Moved}
use aisdlc.Intake.Outcome.{Outcome}
use aisdlc.Requirements.Repository.{RequirementsOutcome, outcome_completed}
use aisdlc.Requirements.Agent.{
  ApprovalAdvanceOutcome, transitioned, skipped_no_fresh_completion, skipped_not_received, conflict,
  advance_options,
}
use aisdlc.AuditLog.Laws.{is_append_error, entries}

module _ (db : Db) (step : World db → World db) (now audit_now : ℕ) (item : IntakeItem)
    (w : World db) where
  pub data Advanced (outcome : RequirementsOutcome) (r : Result Error ApprovalAdvanceOutcome)
      (w' : World db) : Type 0 where
    not_completed :
        outcome ≢ outcome_completed
        → r ≡ ok skipped_no_fresh_completion
        → w' ≡ w
        → Advanced outcome r w'
    not_received :
        (stored : IntakeItem)
        → outcome ≡ outcome_completed
        → first (key_is item.issue_key) (items db w) ≡ some stored
        → stored.status ≢ IntakeStatus.received
        → r ≡ ok skipped_not_received
        → w' ≡ w
        → Advanced outcome r w'
    -- No item has the key.
    missing :
        outcome ≡ outcome_completed
        → first (key_is item.issue_key) (items db w) ≡ none
        → r ≡ err (intake_not_found item.issue_key)
        → w' ≡ w
        → Advanced outcome r w'
    -- Another client moved the item after it was read.
    raced :
        (stored : IntakeItem)
        → outcome ≡ outcome_completed
        → first (key_is item.issue_key) (items db w) ≡ some stored
        → first (key_status_are item.issue_key stored.status) (items db (step w)) ≡ none
        → r ≡ ok conflict
        → items db w' ≡ items db (step w)
        → entries db w' ≡ entries db (step w)
        → Advanced outcome r w'
    advanced :
        (moved_item : IntakeItem)
        → outcome ≡ outcome_completed
        → Moved db step now audit_now item.issue_key IntakeStatus.pending_approval advance_options w
            moved_item w'
        → r ≡ ok transitioned
        → Advanced outcome r w'
    -- The item moved, and then the audit entry was refused: that very error is thrown.
    unrecorded :
        (stored : IntakeItem) (e : Error)
        → outcome ≡ outcome_completed
        → first (key_is item.issue_key) (items db w) ≡ some stored
        → items db w'
          ≡ update_first
              (key_status_are item.issue_key stored.status)
              (apply_update now IntakeStatus.pending_approval advance_options)
              (items db (step w))
        → entries db w' ≡ entries db (step w)
        → is_append_error e ≡ true
        → r ≡ err e
        → Advanced outcome r w'
