-- ===== src/Documents.antt =====
-- The documents of the collections, from the repository files of each component. A date is its
-- time in milliseconds. An optional field that the code reads only through `?? null` is an Option.
use aisdlc.Prelude.{ℕ, List, Option, Bool}
use aisdlc.Text.{Text}
use aisdlc.Json.{Value}
use aisdlc.Store.{ObjectId}
use aisdlc.Collections.{
  IntakeStatus, IntakeSource, WebhookEvent, WebhookDeliveryStatus, RunStatus, RunTrigger,
  RequirementsAnalysisStatus, RepositorySelectionStatus, ChangeReviewStatus, ChangeExecutionStatus,
  AuditSubjectType,
}

-- A value in the `detail` of an audit entry.
pub data Datum : Type 0 where
  a_text : Text → Datum
  an_id : ObjectId → Datum
  a_number : ℕ → Datum
  a_flag : Bool → Datum
  a_null : Datum

-- db/audit-log.ts
pub record AuditEntry : Type 0 where
  pub id : ObjectId
  pub occurred_at : ℕ
  pub actor : Text
  pub action : Text
  pub subject_type : AuditSubjectType
  pub subject_id : ObjectId
  pub detail : Option (List (Text × Datum))

-- intake/repository.ts
pub record IntakeSnapshot : Type 0 where
  pub title : Text
  pub description : Text
  pub issue_type : Text
  pub priority : Option Text
  pub reporter : Option Text
  pub project : Option Text
  pub labels : Option (List Text)
  pub parent_key : Option Text

pub record IntakeSnapshotMeta : Type 0 where
  pub created_at : Option Text
  pub cf_key : Option Text
  pub status : Option Text
  pub assignee : Option Text
  pub space_name : Option Text
  pub description_truncated : Option Bool
  pub fetched_at : Option ℕ

pub record IntakeItem : Type 0 where
  pub id : ObjectId
  pub issue_key : Text
  pub source : IntakeSource
  pub delivery_ref : Option ObjectId
  pub snapshot : IntakeSnapshot
  pub snapshot_meta : Option IntakeSnapshotMeta
  pub source_hash : Text
  pub status : IntakeStatus
  pub status_reason : Option Text
  pub approved_by : Option Text
  pub approved_at : Option ℕ
  pub received_at : ℕ
  pub created_at : ℕ
  pub updated_at : ℕ

pub record LastError : Type 0 where
  pub message : Text
  pub at : ℕ

-- db/webhook-deliveries.ts
pub record WebhookDelivery : Type 0 where
  pub id : ObjectId
  pub delivery_id : Text
  pub event : Option WebhookEvent
  pub issue_key : Option Text
  pub event_timestamp : Option ℕ
  pub payload : Option Value
  pub status : WebhookDeliveryStatus
  pub invalid_reason : Option Text
  pub attempts : ℕ
  pub max_attempts : ℕ
  pub next_attempt_at : ℕ
  pub last_error : Option LastError
  pub intake_item_id : Option ObjectId
  pub received_at : ℕ
  pub updated_at : ℕ

-- orchestrator/repository.ts
pub record Run : Type 0 where
  pub id : ObjectId
  pub intake_item_id : ObjectId
  pub issue_key : Text
  pub status : RunStatus
  pub trigger : RunTrigger
  pub created_at : ℕ
  pub started_at : Option ℕ
  pub completed_at : Option ℕ
  pub updated_at : ℕ

-- requirements/analyzer.ts
pub record RequirementsResult : Type 0 where
  pub summary : Text
  pub problem_statement : Text
  pub functional_requirements : List Text
  pub acceptance_criteria : List Text
  pub assumptions : List Text
  pub risks : List Text
  pub suggested_area : Option Text

-- requirements/repository.ts
pub record AnalysisUsage : Type 0 where
  pub prompt_tokens : ℕ
  pub completion_tokens : ℕ
  pub total_tokens : ℕ

pub record RequirementsAnalysis : Type 0 where
  pub id : ObjectId
  pub intake_item_id : ObjectId
  pub issue_key : Text
  pub status : RequirementsAnalysisStatus
  pub input_hash : Text
  pub result : Option RequirementsResult
  pub error : Option LastError
  pub attempts : ℕ
  pub agent_version : Text
  pub usage : Option AnalysisUsage
  pub created_at : ℕ
  pub updated_at : ℕ
  pub completed_at : Option ℕ

-- repository-selection/repository.ts
pub record RepositorySelection : Type 0 where
  pub id : ObjectId
  pub run_id : ObjectId
  pub intake_item_id : ObjectId
  pub issue_key : Text
  pub project_identifier : Text
  pub candidate_repository_ids : List Text
  pub selected_repository_id : Option Text
  pub selected_repository_url : Option Text
  pub selected_default_branch : Option Text
  pub selected_allowed_branches : Option (List Text)
  pub selected_access_policy : Option Value
  pub status : RepositorySelectionStatus
  pub failure_reason : Option Text
  pub attempts : ℕ
  pub next_attempt_at : ℕ
  pub confirmed_by : Option Text
  pub confirmed_at : Option ℕ
  pub last_notified_status : Option RepositorySelectionStatus
  pub created_at : ℕ
  pub updated_at : ℕ

-- coding-agent/types.ts
pub data ProposedChangeOperation : Type 0 where
  create modify : ProposedChangeOperation

pub record ImplementationPlanItem : Type 0 where
  pub id : Text
  pub file_path : Text
  pub operation : ProposedChangeOperation
  pub change_description : Text

pub record ImplementationPlan : Type 0 where
  pub summary : Text
  pub requirements_understanding : Text
  pub relevant_files : List Text
  pub items : List ImplementationPlanItem
  pub dependencies_and_impact : List Text
  pub tests_required : List Text
  pub assumptions : List Text
  pub risks : List Text

pub record ProposedChange : Type 0 where
  pub file_path : Text
  pub operation : ProposedChangeOperation
  pub original_content_hash : Option Text
  pub proposed_content : Text
  pub reason : Text
  pub related_plan_item_id : Text

pub record RepositoryContextFile : Type 0 where
  pub path : Text
  pub content : Text

-- change-execution/review-repository.ts
pub record ChangeReview : Type 0 where
  pub id : ObjectId
  pub run_id : ObjectId
  pub intake_item_id : ObjectId
  pub repository_id : Text
  pub owner : Text
  pub repo : Text
  pub branch : Text
  pub plan : ImplementationPlan
  pub proposed_changes : List ProposedChange
  pub proposal_hash : Text
  pub status : ChangeReviewStatus
  pub reviewed_by : Option Text
  pub reviewed_at : Option ℕ
  pub review_comment : Option Text
  pub created_at : ℕ
  pub updated_at : ℕ

-- change-execution/types.ts
pub record AppliedChange : Type 0 where
  pub path : Text
  pub operation : ProposedChangeOperation

pub record ValidationStepResult : Type 0 where
  pub passed : Bool
  pub summary : Text

pub record ValidationSummary : Type 0 where
  pub tests : ValidationStepResult
  pub typecheck : ValidationStepResult
  pub build : ValidationStepResult

pub data ExecutionFailureCategory : Type 0 where
  review_not_found review_not_approved approval_expired : ExecutionFailureCategory
  review_superseded repository_access_failure repository_mismatch : ExecutionFailureCategory
  branch_mismatch stale_file invalid_path unauthorized_file : ExecutionFailureCategory
  apply_failed validation_failed unexpected_error : ExecutionFailureCategory

-- change-execution/execution-repository.ts
pub record ChangeExecution : Type 0 where
  pub id : ObjectId
  pub run_id : ObjectId
  pub review_id : ObjectId
  pub proposal_hash : Text
  pub status : ChangeExecutionStatus
  pub applied_changes : List AppliedChange
  pub validation : Option ValidationSummary
  pub failure_category : Option ExecutionFailureCategory
  pub failure_message : Option Text
  pub created_at : ℕ
  pub completed_at : Option ℕ
