-- ===== src/Execution/Eligibility.antt =====
-- execute of src/change-execution/execution-service.ts up to the point where the attempt starts: who
-- may be executed, and the refusal with its audit entry. `latest` is findLatestByRunId, a sorted read
-- of the driver; `access` is what the access service answers for a run; `hex` is toHexString.
use aisdlc.Prelude.{
  Bool, true, false, ◌==◌, ◌+◌, ◌&&◌, not, leb, ℕ, Option, List, some, none, [], ◌∷◌, if◌then◌else◌,
}
use aisdlc.Effect.{ok, ◌>>=◌, pure}
use aisdlc.Db.{Db, World}
use aisdlc.Collections.{AuditSubjectType, ChangeReviewStatus}
use aisdlc.Store.{ObjectId}
use aisdlc.Text.{Text, codes, same}
use aisdlc.Documents.{
  ChangeReview, ChangeExecution, ExecutionFailureCategory, Datum, a_text, a_flag,
}
use aisdlc.AuditLog.{AuditEntryInput, append}
use aisdlc.Errors.{Do}
use aisdlc.Execution.Reviews.{has_id}
use aisdlc.Execution.Executions.{of_review, is_retryable_execution_category, category_name}

-- The repository that a run resolves to now, or a failure and whether it is worth a retry.
pub data AccessResult : Type 0 where
  accessed : (owner repo branch : Text) → AccessResult
  access_failed : (retryable : Bool) → AccessResult

pub data Eligibility : Type 0 where
  already_recorded : ChangeExecution → Eligibility
  ineligible : ExecutionFailureCategory → (retryable : Bool) → Eligibility
  eligible : ChangeReview → Eligibility

unfoldable pub change_execution_service_actor : Text
change_execution_service_actor = codes "system:change-execution"

unfoldable pub is_approved : ChangeReviewStatus → Bool
is_approved ChangeReviewStatus.approved = true
is_approved _ = false

abbrev hash_detail : Option Text → List (Text × Datum)
hash_detail none = []
hash_detail (some hash) = (codes "proposalHash", a_text hash) ∷ []

-- `status !== 'approved' || reviewedAt === null`, and the age of the approval.
unfoldable pub check_approval : ℕ → ℕ → ChangeReview → Option ExecutionFailureCategory
unfolding is_approved
check_approval now validity review =
    if is_approved review.status
    then elim review.reviewed_at [
      | none ↦ some ExecutionFailureCategory.review_not_approved
      | some at ↦
          if leb (at + validity) now then some ExecutionFailureCategory.approval_expired else none
    ]
    else some ExecutionFailureCategory.review_not_approved

unfoldable pub is_same_review : ChangeReview → Option ChangeReview → Bool
is_same_review review none = false
is_same_review review (some latest) = latest.id == review.id

unfoldable pub check_identity :
    ChangeReview → AccessResult → Option (ExecutionFailureCategory × Bool)
unfolding same is_retryable_execution_category
check_identity review (access_failed retryable) =
    some (ExecutionFailureCategory.repository_access_failure, retryable)
check_identity review (accessed owner repo branch) =
    if not (same owner review.owner && same repo review.repo)
    then some (ExecutionFailureCategory.repository_mismatch, false)
    else if not (same branch review.branch)
    then some (ExecutionFailureCategory.branch_mismatch, false)
    else none

module _ (db : Db) (hex : ObjectId → Text) (latest : World db → ObjectId → Option ChangeReview)
    (access : ObjectId → AccessResult) (now validity audit_now : ℕ)
    (run_id review_id : ObjectId) where
  unfoldable pub refusal_entry : Option Text → ExecutionFailureCategory → Bool → AuditEntryInput
  unfolding change_execution_service_actor category_name
  refusal_entry hash category retryable = record {
    actor = change_execution_service_actor;
    action = codes "change-execution.failed";
    subject_type = AuditSubjectType.run;
    subject_id = run_id;
    detail = some (
        (codes "category", a_text (category_name category))
        ∷ (codes "retryable", a_flag retryable)
        ∷ (codes "reviewId", a_text (hex review_id))
        ∷ hash_detail hash);
    occurred_at = none;
  }

  -- eligibilityFailure: the message goes to the caller and the logger only.
  unfoldable pub refuse : Option Text → ExecutionFailureCategory → Bool → Do db Eligibility
  unfolding refusal_entry
  refuse hash category retryable = do
    _ ← append db audit_now (refusal_entry hash category retryable)
    pure (ineligible category retryable)

  unfoldable pub verify_identity :
      ChangeReview → Option (ExecutionFailureCategory × Bool) → Do db Eligibility
  unfolding refuse
  verify_identity review none = pure (eligible review)
  verify_identity review (some (category, retryable)) =
      refuse (some review.proposal_hash) category retryable

  unfoldable pub verify_latest : ChangeReview → Bool → Do db Eligibility
  unfolding refuse verify_identity check_identity
  verify_latest review false =
      refuse (some review.proposal_hash) ExecutionFailureCategory.review_superseded false
  verify_latest review true = verify_identity review (check_identity review (access run_id))

  unfoldable pub verify_approval :
      ChangeReview → Option ExecutionFailureCategory → Do db Eligibility
  unfolding refuse verify_latest is_same_review
  verify_approval review (some category) w = refuse (some review.proposal_hash) category false w
  verify_approval review none w = verify_latest review (is_same_review review (latest w run_id)) w

  unfoldable pub verify_review : Option ChangeReview → Do db Eligibility
  unfolding refuse verify_approval check_approval
  verify_review none = refuse none ExecutionFailureCategory.review_not_found false
  verify_review (some review) =
      if review.run_id == run_id
      then verify_approval review (check_approval now validity review)
      else refuse (some review.proposal_hash) ExecutionFailureCategory.review_not_found false

  unfoldable pub verify_new : Option ChangeExecution → Do db Eligibility
  unfolding verify_review
  verify_new (some execution) w = (ok (already_recorded execution), w)
  verify_new none w =
      verify_review (db.change_reviews.find_one (has_id review_id) w.change_reviews) w

  unfoldable pub verify_eligibility : Do db Eligibility
  unfolding verify_new
  verify_eligibility w =
      verify_new (db.change_executions.find_one (of_review review_id) w.change_executions) w
