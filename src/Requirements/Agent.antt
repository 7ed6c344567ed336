-- ===== src/Requirements/Agent.antt =====
-- src/requirements/worker.ts, validation.ts and approval-transition.ts. The analyzer is a parameter:
-- its result, or the message of the error that it threw.
use aisdlc.Prelude.{Bool, false, ◌++◌, if◌then◌else◌, List, ℕ, Option, none, ◌∷◌, [], some}
use aisdlc.Effect.{Result, ok, err, ◌>>=◌, ◌>>◌, pure}
use aisdlc.Db.{Db, World}
use aisdlc.Collections.{RequirementsAnalysisStatus, AuditSubjectType, IntakeStatus}
use aisdlc.Intake.Repository.{transition, TransitionOptions}
use aisdlc.Text.{Text, trim, same, is_empty, codes}
use aisdlc.Documents.{
  IntakeSnapshot, RequirementsAnalysis, RequirementsResult, IntakeItem, Datum, a_text,
}
use aisdlc.Requirements.Repository.{
  RequirementsOutcome, mark_failed, mark_completed, create_pending, failed_analysis,
  failed_validation, skipped_up_to_date, outcome_completed,
}
use aisdlc.Errors.{Error, Do, invalid_transition, intake_conflict}
use aisdlc.Store.{ObjectId}
use aisdlc.AuditLog.{AuditEntryInput, append}
use aisdlc.Intake.Hash.{hash_snapshot}

-- validateSnapshotForRequirements: the required fields that are blank.
abbrev blank_field : Text → Text → List Text
blank_field name value = if is_empty (trim value) then name ∷ [] else []

unfoldable pub missing_fields : IntakeSnapshot → List Text
unfolding trim is_empty
missing_fields s =
    blank_field (codes "title") s.title
    ++ (blank_field (codes "description") s.description
        ++ blank_field (codes "issueType") s.issue_type)

unfoldable pub join_fields : List Text → Text
join_fields [] = []
join_fields (s ∷ []) = s
join_fields (s ∷ t ∷ ts) = s ++ (codes ", " ++ join_fields (t ∷ ts))

abbrev missing_reason : List Text → Option Text
missing_reason [] = none
missing_reason (f ∷ fs) =
    some (codes "intake snapshot is missing required field(s): " ++ join_fields (f ∷ fs))

-- `none` is `{ ok: true }`; otherwise the reason.
unfoldable pub validate_snapshot : IntakeSnapshot → Option Text
unfolding missing_fields join_fields
validate_snapshot s = missing_reason (missing_fields s)

unfoldable pub requirements_actor : Text
requirements_actor = codes "svc:requirements-agent"

unfoldable pub agent_entry : Text → ObjectId → List (Text × Datum) → AuditEntryInput
unfolding requirements_actor
agent_entry action intake_item_id detail = record {
  actor = requirements_actor;
  action = action;
  subject_type = AuditSubjectType.intake_item;
  subject_id = intake_item_id;
  detail = some detail;
  occurred_at = none;
}

pub record RequirementsAgentResult : Type 0 where
  pub outcome : RequirementsOutcome
  pub document : RequirementsAnalysis

unfoldable pub is_up_to_date : RequirementsAnalysis → Text → Bool
unfolding same
is_up_to_date row input_hash = elim row.status [
  | RequirementsAnalysisStatus.completed ↦ same row.input_hash input_hash
  | _ ↦ false
]

module _ (db : Db) (quote sha256 : Text → Text)
    (analyze : IntakeSnapshot → Result Text RequirementsResult) (agent_version : Text)
    (step step' : World db → World db) (now audit_now : ℕ) where
  unfoldable pub note_pending : IntakeItem → Bool → Do db (Unit {0})
  unfolding agent_entry
  note_pending item created =
      if created
      then (do
        _ ← append db audit_now (
            agent_entry (codes "requirements.pending") item.id
              ((codes "issueKey", a_text item.issue_key) ∷ []))
        pure tt)
      else pure tt

  -- markFailed, the audit entry and the outcome, for a failed validation or a throwing analyzer.
  unfoldable pub fail_with :
      IntakeItem → Text → Text → RequirementsOutcome → Do db RequirementsAgentResult
  unfolding agent_entry mark_failed
  fail_with item input_hash message outcome = do
    failed ← mark_failed db item.id (record {
      message = message;
      input_hash = input_hash;
      agent_version = agent_version;
      now = now;
    })
    _ ← append db audit_now (
        agent_entry (codes "requirements.failed") item.id
          ((codes "issueKey", a_text item.issue_key) ∷ (codes "reason", a_text message) ∷ []))
    pure (record { outcome = outcome; document = failed })

  unfoldable pub complete_with :
      IntakeItem → Text → RequirementsResult → Do db RequirementsAgentResult
  unfolding agent_entry mark_completed
  complete_with item input_hash result = do
    completed ← mark_completed db item.id (record {
      result = result;
      input_hash = input_hash;
      agent_version = agent_version;
      now = now;
    })
    _ ← append db audit_now (
        agent_entry (codes "requirements.completed") item.id (
          (codes "issueKey", a_text item.issue_key)
          ∷ (codes "agentVersion", a_text agent_version)
          ∷ []))
    pure (record { outcome = outcome_completed; document = completed })

  unfoldable pub after_analysis :
      IntakeItem → Text → Result Text RequirementsResult → Do db RequirementsAgentResult
  unfolding fail_with complete_with
  after_analysis item input_hash (ok result) = complete_with item input_hash result
  after_analysis item input_hash (err message) = fail_with item input_hash message failed_analysis

  unfoldable pub after_validation : IntakeItem → Text → Option Text → Do db RequirementsAgentResult
  unfolding after_analysis fail_with
  after_validation item input_hash (some reason) =
      fail_with item input_hash reason failed_validation
  after_validation item input_hash none = after_analysis item input_hash (analyze item.snapshot)

  unfoldable pub after_pending :
      IntakeItem → Text → RequirementsAnalysis → Do db RequirementsAgentResult
  unfolding is_up_to_date validate_snapshot after_validation
  after_pending item input_hash pending =
      if is_up_to_date pending input_hash
      then pure (record { outcome = skipped_up_to_date; document = pending })
      else after_validation item input_hash (validate_snapshot item.snapshot)

  unfoldable pub run_requirements_agent : IntakeItem → Do db RequirementsAgentResult
  unfolding create_pending note_pending after_pending
  run_requirements_agent item = do
    input_hash ← (λ w. (hash_snapshot quote sha256 item.snapshot, w))
    placed ←
        create_pending db step step' now
          (record { intake_item_id = item.id; issue_key = item.issue_key; input_hash = input_hash })
    note_pending item placed.was_created
    after_pending item input_hash placed.doc

pub data ApprovalAdvanceOutcome : Type 0 where
  transitioned skipped_no_fresh_completion skipped_not_received conflict : ApprovalAdvanceOutcome

unfoldable pub requirements_agent_system_actor : Text
requirements_agent_system_actor = codes "system:requirements-agent"

abbrev pub advance_options : TransitionOptions
advance_options = record {
  actor = requirements_agent_system_actor;
  reason = none;
  approved_by = none;
}

-- The `catch` of advanceToPendingApproval: two errors become outcomes, the others are thrown again.
unfoldable pub advance_result : Result Error IntakeItem → Result Error ApprovalAdvanceOutcome
advance_result (ok item) = ok transitioned
advance_result (err (invalid_transition from to)) = ok skipped_not_received
advance_result (err (intake_conflict key)) = ok conflict
advance_result (err e) = err e

module _ (db : Db) (step : World db → World db) (now audit_now : ℕ) where
  unfoldable pub try_advance : IntakeItem → Do db ApprovalAdvanceOutcome
  unfolding transition advance_result
  try_advance item w = (
    advance_result
        (transition db step now audit_now item.issue_key IntakeStatus.pending_approval
          advance_options w).0,
    (transition db step now audit_now item.issue_key IntakeStatus.pending_approval advance_options
        w).1,
  )

  unfoldable pub advance_to_pending_approval :
      IntakeItem → RequirementsOutcome → Do db ApprovalAdvanceOutcome
  unfolding try_advance
  advance_to_pending_approval item outcome_completed = try_advance item
  advance_to_pending_approval item outcome = pure skipped_no_fresh_completion
