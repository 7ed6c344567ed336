-- ===== src/Execution/Executions.antt =====
-- src/change-execution/execution-repository.ts and types.ts
use aisdlc.Prelude.{
  Bool, true, false, ◌&&◌, ◌==◌, length, if◌then◌else◌, ℕ, Option, List, some, [], ◌∷◌, none,
}
use aisdlc.Effect.{◌>>=◌, pure}
use aisdlc.Db.{Db, World}
use aisdlc.Collections.{ChangeExecutionStatus, AuditSubjectType}
use aisdlc.Documents.{
  ExecutionFailureCategory, ValidationSummary, ChangeExecution, AppliedChange, Datum, an_id, a_text,
  a_number,
}
use aisdlc.Store.{ObjectId}
use aisdlc.Text.{Text, codes}
use aisdlc.Access.{Stored, find_one, insert_or_winner}
use aisdlc.AuditLog.{AuditEntryInput, append}
use aisdlc.Errors.{Do}

unfoldable pub is_validation_successful : ValidationSummary → Bool
is_validation_successful v = v.tests.passed && v.typecheck.passed && v.build.passed

unfoldable pub is_retryable_execution_category : ExecutionFailureCategory → Bool
is_retryable_execution_category ExecutionFailureCategory.repository_access_failure = true
is_retryable_execution_category _ = false

pub record RecordExecutionInput : Type 0 where
  pub run_id : ObjectId
  pub review_id : ObjectId
  pub proposal_hash : Text
  pub status : ChangeExecutionStatus
  pub applied_changes : List AppliedChange
  pub validation : Option ValidationSummary
  pub failure_category : Option ExecutionFailureCategory
  pub failure_message : Option Text

unfoldable pub new_execution : ℕ → RecordExecutionInput → ObjectId → ChangeExecution
new_execution now input id = record {
  id = id;
  run_id = input.run_id;
  review_id = input.review_id;
  proposal_hash = input.proposal_hash;
  status = input.status;
  applied_changes = input.applied_changes;
  validation = input.validation;
  failure_category = input.failure_category;
  failure_message = input.failure_message;
  created_at = now;
  completed_at = some now;
}

abbrev pub of_review : ObjectId → ChangeExecution → Bool
of_review review_id execution = execution.review_id == review_id

abbrev status_action : ChangeExecutionStatus → Text
status_action ChangeExecutionStatus.succeeded = codes "change-execution.completed"
status_action ChangeExecutionStatus.failed = codes "change-execution.failed"

abbrev status_text : ChangeExecutionStatus → Text
status_text ChangeExecutionStatus.succeeded = codes "succeeded"
status_text ChangeExecutionStatus.failed = codes "failed"

unfoldable pub category_name : ExecutionFailureCategory → Text
category_name ExecutionFailureCategory.review_not_found = codes "review_not_found"
category_name ExecutionFailureCategory.review_not_approved = codes "review_not_approved"
category_name ExecutionFailureCategory.approval_expired = codes "approval_expired"
category_name ExecutionFailureCategory.review_superseded = codes "review_superseded"
category_name ExecutionFailureCategory.repository_access_failure = codes "repository_access_failure"
category_name ExecutionFailureCategory.repository_mismatch = codes "repository_mismatch"
category_name ExecutionFailureCategory.branch_mismatch = codes "branch_mismatch"
category_name ExecutionFailureCategory.stale_file = codes "stale_file"
category_name ExecutionFailureCategory.invalid_path = codes "invalid_path"
category_name ExecutionFailureCategory.unauthorized_file = codes "unauthorized_file"
category_name ExecutionFailureCategory.apply_failed = codes "apply_failed"
category_name ExecutionFailureCategory.validation_failed = codes "validation_failed"
category_name ExecutionFailureCategory.unexpected_error = codes "unexpected_error"

abbrev category_detail : Option ExecutionFailureCategory → List (Text × Datum)
category_detail none = []
category_detail (some category) = (codes "failureCategory", a_text (category_name category)) ∷ []

unfoldable pub change_execution_system_actor : Text
change_execution_system_actor = codes "system:change-execution"

unfoldable pub execution_entry : RecordExecutionInput → ObjectId → AuditEntryInput
unfolding category_name change_execution_system_actor
execution_entry input id = record {
  actor = change_execution_system_actor;
  action = status_action input.status;
  subject_type = AuditSubjectType.change_execution;
  subject_id = id;
  detail = some (
      (codes "runId", an_id input.run_id)
      ∷ (codes "reviewId", an_id input.review_id)
      ∷ (codes "status", a_text (status_text input.status))
      ∷ (codes "appliedFileCount", a_number (length input.applied_changes))
      ∷ category_detail input.failure_category);
  occurred_at = none;
}

module _ (db : Db) where
  abbrev pub get_executions : World db → db.change_executions.State
  get_executions w = w.change_executions

  abbrev pub put_executions : db.change_executions.State → World db → World db
  put_executions s w = record w { change_executions = s }

  abbrev pub StoredExecution : Type 0
  StoredExecution = Stored db.change_executions get_executions put_executions

  unfoldable pub find_by_review_id : ObjectId → Do db (Option ChangeExecution)
  find_by_review_id review_id =
      find_one db.change_executions get_executions put_executions (of_review review_id)

  unfoldable pub after_place : ℕ → RecordExecutionInput → StoredExecution → Do db StoredExecution
  after_place audit_now input result =
      if result.was_created
      then (do _ ← append db audit_now (execution_entry input result.doc.id); pure result)
      else pure result

  -- createIfAbsent, on the unique review id.
  unfoldable pub record_execution :
      (World db → World db) → ℕ → ℕ → RecordExecutionInput → Do db StoredExecution
  unfolding after_place
  record_execution step now audit_now input = do
    result ←
        insert_or_winner db.change_executions get_executions put_executions step
          (new_execution now input) (of_review input.review_id)
    after_place audit_now input result
