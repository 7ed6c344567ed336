-- ===== src/Selection/Repository.antt =====
-- src/repository-selection/repository.ts
use mathlib.Core.Option
use aisdlc.Prelude.{
  Bool, true, false, ◌==◌, ◌+◌, List, ℕ, any, ◌||◌, Option, none, some, ◌&&◌, ◌∷◌, [],
}
use aisdlc.Effect.{◌>>=◌, ◌>>◌, pure, throw, others, require}
use aisdlc.Db.{Db, World}
use aisdlc.Collections.{RepositorySelectionStatus, AuditSubjectType}
use aisdlc.Store.{ObjectId}
use aisdlc.Text.{Text, same, codes}
use aisdlc.Documents.{RepositorySelection, a_text}
use aisdlc.Access.{Stored, find_one, insert_or_winner, find_one_and_update}
use aisdlc.AuditLog.{AuditEntryInput, append}
use aisdlc.Errors.{Do, selection_not_found, selection_conflict, selection_validation}
use aisdlc.Json.{Value}
use aisdlc.Intake.Repository.{or_else}

-- The statuses that a match attempt may produce: MatchOutcomeStatus.
pub data MatchOutcomeStatus : Type 0 where
  match_pending match_failed match_ambiguous : MatchOutcomeStatus

unfoldable pub as_selection_status : MatchOutcomeStatus → RepositorySelectionStatus
as_selection_status match_pending = RepositorySelectionStatus.pending
as_selection_status match_failed = RepositorySelectionStatus.failed
as_selection_status match_ambiguous = RepositorySelectionStatus.ambiguous

unfoldable pub same_selection_status : RepositorySelectionStatus → RepositorySelectionStatus → Bool
same_selection_status RepositorySelectionStatus.pending RepositorySelectionStatus.pending = true
same_selection_status RepositorySelectionStatus.selected RepositorySelectionStatus.selected = true
same_selection_status RepositorySelectionStatus.failed RepositorySelectionStatus.failed = true
same_selection_status RepositorySelectionStatus.ambiguous RepositorySelectionStatus.ambiguous = true
same_selection_status _ _ = false

pub record CreateInitialSelectionInput : Type 0 where
  pub run_id : ObjectId
  pub intake_item_id : ObjectId
  pub issue_key : Text
  pub project_identifier : Text
  pub candidate_repository_ids : List Text
  pub status : MatchOutcomeStatus
  pub failure_reason : Option Text
  pub next_attempt_at : ℕ
  pub last_notified_status : Option MatchOutcomeStatus

-- `last_notified_status` is `none` where the property is absent (`undefined`).
pub record RecordMatchResultInput : Type 0 where
  pub candidate_repository_ids : List Text
  pub status : MatchOutcomeStatus
  pub failure_reason : Option Text
  pub next_attempt_at : ℕ
  pub last_notified_status : Option MatchOutcomeStatus

pub record ConfirmSelectionInput : Type 0 where
  pub repository_id : Text
  pub repository_url : Text
  pub default_branch : Text
  pub allowed_branches : List Text
  pub access_policy : Option Value
  pub confirmed_by : Text
  pub confirm_now : Option ℕ

unfoldable pub new_selection : ℕ → CreateInitialSelectionInput → ObjectId → RepositorySelection
new_selection now input id = record {
  id = id;
  run_id = input.run_id;
  intake_item_id = input.intake_item_id;
  issue_key = input.issue_key;
  project_identifier = input.project_identifier;
  candidate_repository_ids = input.candidate_repository_ids;
  selected_repository_id = none;
  selected_repository_url = none;
  selected_default_branch = none;
  selected_allowed_branches = none;
  selected_access_policy = none;
  status = as_selection_status input.status;
  failure_reason = input.failure_reason;
  attempts = 0;
  next_attempt_at = input.next_attempt_at;
  confirmed_by = none;
  confirmed_at = none;
  last_notified_status = Option.map as_selection_status input.last_notified_status;
  created_at = now;
  updated_at = now;
}

-- The update of recordMatchResult.
unfoldable pub apply_match_result :
    ℕ → RecordMatchResultInput → RepositorySelection → RepositorySelection
apply_match_result now input row = record row {
  candidate_repository_ids = input.candidate_repository_ids;
  status = as_selection_status input.status;
  failure_reason = input.failure_reason;
  next_attempt_at = input.next_attempt_at;
  last_notified_status = elim input.last_notified_status [
    | none ↦ row.last_notified_status
    | some s ↦ some (as_selection_status s)
  ];
  attempts = row.attempts + 1;
  updated_at = now;
}

-- The update of confirm.
unfoldable pub apply_confirmation :
    ℕ → ConfirmSelectionInput → RepositorySelection → RepositorySelection
apply_confirmation now input row = record row {
  selected_repository_id = some input.repository_id;
  selected_repository_url = some input.repository_url;
  selected_default_branch = some input.default_branch;
  selected_allowed_branches = some input.allowed_branches;
  selected_access_policy = input.access_policy;
  status = RepositorySelectionStatus.selected;
  confirmed_by = some input.confirmed_by;
  confirmed_at = some now;
  updated_at = now;
}

abbrev pub of_run : ObjectId → RepositorySelection → Bool
of_run run_id row = row.run_id == run_id

-- `status: { $in: ['failed', 'ambiguous'] }`
unfoldable pub is_retryable : RepositorySelectionStatus → Bool
is_retryable RepositorySelectionStatus.failed = true
is_retryable RepositorySelectionStatus.ambiguous = true
is_retryable _ = false

unfoldable pub is_confirmable : RepositorySelectionStatus → Bool
unfolding same_selection_status
is_confirmable status =
    same_selection_status status RepositorySelectionStatus.pending
    || same_selection_status status RepositorySelectionStatus.ambiguous

unfoldable pub confirmed_entry : ConfirmSelectionInput → RepositorySelection → AuditEntryInput
confirmed_entry input row = record {
  actor = input.confirmed_by;
  action = codes "repository-selection.confirmed";
  subject_type = AuditSubjectType.repository_selection;
  subject_id = row.id;
  detail = some (
      (codes "issueKey", a_text row.issue_key)
      ∷ (codes "repositoryId", a_text input.repository_id)
      ∷ []);
  occurred_at = none;
}

module _ (db : Db) where
  abbrev pub get_selections : World db → db.repository_selections.State
  get_selections w = w.repository_selections

  abbrev pub put_selections : db.repository_selections.State → World db → World db
  put_selections s w = record w { repository_selections = s }

  abbrev pub StoredSelection : Type 0
  StoredSelection = Stored db.repository_selections get_selections put_selections

  unfoldable pub find_by_run_id : ObjectId → Do db (Option RepositorySelection)
  find_by_run_id run_id =
      find_one db.repository_selections get_selections put_selections (of_run run_id)

  -- createInitial
  unfoldable pub create_initial :
      (World db → World db) → ℕ → CreateInitialSelectionInput → Do db StoredSelection
  create_initial step now input =
      insert_or_winner db.repository_selections get_selections put_selections step
        (new_selection now input) (of_run input.run_id)

  -- recordMatchResult: `none` if the row is no longer failed or ambiguous.
  unfoldable pub record_match_result :
      ℕ → ObjectId → RecordMatchResultInput → Do db (Option RepositorySelection)
  record_match_result now run_id input =
      find_one_and_update db.repository_selections get_selections put_selections
        (λ row. of_run run_id row && is_retryable row.status) (apply_match_result now input)

  unfoldable pub require_selection :
      ObjectId → Option RepositorySelection → Do db RepositorySelection
  require_selection run_id none = throw (selection_not_found run_id)
  require_selection run_id (some existing) = pure existing

  unfoldable pub require_updated : ObjectId → Option RepositorySelection → Do db RepositorySelection
  require_updated run_id none = throw (selection_conflict run_id)
  require_updated run_id (some updated) = pure updated

  -- confirm: `step` is what other clients do between the read and the write.
  unfoldable pub confirm :
      (World db → World db) → ℕ → ℕ → ObjectId → ConfirmSelectionInput → Do db RepositorySelection
  unfolding require_selection require_updated is_confirmable any same
  confirm step now audit_now run_id input = do
    found ← find_one db.repository_selections get_selections put_selections (of_run run_id)
    existing ← require_selection run_id found
    require (is_confirmable existing.status) (selection_conflict run_id)
    require (any (λ id. same id input.repository_id) existing.candidate_repository_ids)
        (selection_validation (codes "repositoryId"))
    others step
    result ←
        find_one_and_update db.repository_selections get_selections put_selections
          (λ row. of_run run_id row && same_selection_status row.status existing.status)
          (apply_confirmation (or_else input.confirm_now now) input)
    updated ← require_updated run_id result
    _ ← append db audit_now (confirmed_entry input updated)
    pure updated
