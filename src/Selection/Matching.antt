-- ===== src/Selection/Matching.antt =====
-- src/repository-selection/worker.ts: what one matching attempt makes of a queued run or of a row
-- that is due for a retry. `now()` is read once for an attempt.
use aisdlc.Prelude.{
  Bool, true, false, ◌==◌, ◌+◌, ◌*◌, ◌^◌, ◌&&◌, not, length, ℕ, List, Option, [], some,
  if◌then◌else◌, none, ◌++◌, ◌∷◌,
}
use Prim.Native.Nat.{min}
use aisdlc.Effect.{◌>>=◌, pure}
use aisdlc.Db.{Db, World}
use aisdlc.Collections.{RepositorySelectionStatus, AuditSubjectType}
use aisdlc.Selection.Repository.{
  MatchOutcomeStatus, same_selection_status, CreateInitialSelectionInput, create_initial,
  record_match_result, match_pending, match_failed, as_selection_status, RecordMatchResultInput,
  StoredSelection, match_ambiguous,
}
use aisdlc.Text.{Text, codes}
use aisdlc.Store.{ObjectId}
use aisdlc.Documents.{Run, RepositorySelection, Datum, IntakeItem, a_null, a_text}
use aisdlc.AuditLog.{AuditEntryInput, append}
use aisdlc.Errors.{Do}
use aisdlc.Intake.Repository.{or_else}

abbrev pub retry_base_ms : ℕ
retry_base_ms = 60000

abbrev pub retry_max_ms : ℕ
retry_max_ms = 60 * 60000

-- `attempts` is a counter of the database, so Math.max(0, attempts) is the counter itself.
unfoldable pub backoff_ms : ℕ → ℕ
backoff_ms attempts = min retry_max_ms (retry_base_ms * 2 ^ attempts)

unfoldable pub classify_candidates : List Text → MatchOutcomeStatus
classify_candidates ids =
    if length ids == 0
    then match_failed
    else if length ids == 1
    then match_pending
    else match_ambiguous

unfoldable pub is_match_pending : MatchOutcomeStatus → Bool
is_match_pending match_pending = true
is_match_pending _ = false

unfoldable pub match_status_name : MatchOutcomeStatus → Text
match_status_name match_pending = codes "pending"
match_status_name match_failed = codes "failed"
match_status_name match_ambiguous = codes "ambiguous"

unfoldable pub no_mapping_reason : Text → Text
no_mapping_reason project =
    codes "no active repository is mapped to project '" ++ project ++ codes "'"

-- The project of a run, `null` and the empty string taken together.
abbrev pub project_of : Option Text → Option Text
project_of none = none
project_of (some []) = none
project_of (some (c ∷ s)) = some (c ∷ s)

-- `registry` is findActiveByProjectIdentifier: the ids of the active repositories of a project.
abbrev pub candidates : (Text → List Text) → Option Text → List Text
candidates registry none = []
candidates registry (some project) = registry project

unfoldable pub initial_failure_reason : MatchOutcomeStatus → Option Text → Option Text
unfolding no_mapping_reason
initial_failure_reason match_failed none = some (codes "intake item has no project identifier")
initial_failure_reason match_failed (some project) = some (no_mapping_reason project)
initial_failure_reason _ _ = none

-- The row that the first pass creates for a queued run.
unfoldable pub initial_input :
    (Text → List Text) → ℕ → Run → IntakeItem → CreateInitialSelectionInput
unfolding backoff_ms classify_candidates is_match_pending initial_failure_reason
initial_input registry at run item =
    let project = project_of item.snapshot.project in
    let ids = candidates registry project in
    let status = classify_candidates ids in
    record {
      run_id = run.id;
      intake_item_id = run.intake_item_id;
      issue_key = run.issue_key;
      project_identifier = or_else item.snapshot.project [];
      candidate_repository_ids = ids;
      status = status;
      failure_reason = initial_failure_reason status project;
      next_attempt_at = if is_match_pending status then at else at + backoff_ms 0;
      last_notified_status = if is_match_pending status then none else some status;
    }

unfoldable pub retry_failure_reason : MatchOutcomeStatus → Text → Option Text
unfolding no_mapping_reason
retry_failure_reason match_failed project = some (no_mapping_reason project)
retry_failure_reason _ project = none

-- `status !== 'pending' && selection.lastNotifiedStatus !== status`
unfoldable pub should_notify : MatchOutcomeStatus → Option RepositorySelectionStatus → Bool
unfolding is_match_pending same_selection_status
should_notify status none = not (is_match_pending status)
should_notify status (some last) =
    not (is_match_pending status) && not (same_selection_status last (as_selection_status status))

-- The update that the second pass makes to a row that is due.
unfoldable pub retry_input : (Text → List Text) → ℕ → RepositorySelection → RecordMatchResultInput
unfolding backoff_ms classify_candidates is_match_pending should_notify
retry_input registry at selection =
    let ids = registry selection.project_identifier in
    let status = classify_candidates ids in
    record {
      candidate_repository_ids = ids;
      status = status;
      failure_reason = retry_failure_reason status selection.project_identifier;
      next_attempt_at = if is_match_pending status then at else at + backoff_ms selection.attempts;
      last_notified_status =
          if is_match_pending status
          then none
          else if should_notify status selection.last_notified_status
          then some status
          else none;
    }

unfoldable pub repository_selection_system_actor : Text
repository_selection_system_actor = codes "system:repository-selection"

abbrev or_null : Option Text → Datum
or_null none = a_null
or_null (some s) = a_text s

unfoldable pub notification_entry :
    ObjectId → Text → Text → MatchOutcomeStatus → Option Text → AuditEntryInput
unfolding repository_selection_system_actor match_status_name
notification_entry selection_id issue_key project status failure_reason = record {
  actor = repository_selection_system_actor;
  action = codes "repository-selection.notification";
  subject_type = AuditSubjectType.repository_selection;
  subject_id = selection_id;
  detail = some (
      (codes "issueKey", a_text issue_key)
      ∷ (codes "projectIdentifier", a_text project)
      ∷ (codes "status", a_text (match_status_name status))
      ∷ (codes "failureReason", or_null failure_reason)
      ∷ []);
  occurred_at = none;
}

-- What an attempt adds to the summary.
pub data MatchCount : Type 0 where
  count_pending count_ambiguous count_failed count_skipped : MatchCount

unfoldable pub count_of : MatchOutcomeStatus → MatchCount
count_of match_pending = count_pending
count_of match_ambiguous = count_ambiguous
count_of match_failed = count_failed

module _ (db : Db) (step : World db → World db) (registry : Text → List Text)
    (at now audit_now : ℕ) where
  unfoldable pub notify_created :
      CreateInitialSelectionInput → StoredSelection db → Do db MatchCount
  unfolding notification_entry count_of is_match_pending
  notify_created input result =
      if result.was_created && not (is_match_pending input.status)
      then (do
        _ ← append db audit_now (
            notification_entry result.doc.id input.issue_key input.project_identifier input.status
              input.failure_reason)
        pure (count_of input.status))
      else pure (count_of input.status)

  -- The body of the first loop, for a run with no selection whose intake item was found.
  unfoldable pub match_new_run : Run → IntakeItem → Do db MatchCount
  unfolding initial_input create_initial notify_created
  match_new_run run item = do
    result ← create_initial db step now (initial_input registry at run item)
    notify_created (initial_input registry at run item) result

  unfoldable pub notify_retried :
      RepositorySelection → RecordMatchResultInput → Option RepositorySelection → Do db MatchCount
  unfolding notification_entry count_of should_notify
  notify_retried selection input none = pure count_skipped
  notify_retried selection input (some updated) =
      if should_notify input.status selection.last_notified_status
      then (do
        _ ← append db audit_now (
            notification_entry updated.id updated.issue_key updated.project_identifier input.status
              input.failure_reason)
        pure (count_of input.status))
      else pure (count_of input.status)

  -- The body of the second loop, for a row that findDueForRetry returned.
  unfoldable pub retry_selection : RepositorySelection → Do db MatchCount
  unfolding retry_input record_match_result notify_retried
  retry_selection selection = do
    updated ← record_match_result db now selection.run_id (retry_input registry at selection)
    notify_retried selection (retry_input registry at selection) updated
