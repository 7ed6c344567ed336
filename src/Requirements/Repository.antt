-- ===== src/Requirements/Repository.antt =====
-- src/requirements/repository.ts
use aisdlc.Prelude.{Bool, true, false, ◌==◌, ◌+◌, Option, ℕ, none, some}
use aisdlc.Effect.{◌>>=◌, ◌>>◌, pure, throw, others}
use aisdlc.Db.{Db, World}
use aisdlc.Collections.{RequirementsAnalysisStatus}
use aisdlc.Store.{ObjectId}
use aisdlc.Documents.{RequirementsResult, RequirementsAnalysis, AnalysisUsage}
use aisdlc.Text.{Text, codes}
use aisdlc.Access.{Stored, insert_or_winner, find_one, find_one_and_update}
use aisdlc.Errors.{Do, requirements_analysis_not_found}

pub record CreatePendingInput : Type 0 where
  pub intake_item_id : ObjectId
  pub issue_key : Text
  pub input_hash : Text

pub record MarkCompletedInput : Type 0 where
  pub result : RequirementsResult
  pub input_hash : Text
  pub agent_version : Text
  pub now : ℕ

pub record MarkFailedInput : Type 0 where
  pub message : Text
  pub input_hash : Text
  pub agent_version : Text
  pub now : ℕ

pub data RequirementsOutcome : Type 0 where
  outcome_completed skipped_up_to_date failed_validation failed_analysis : RequirementsOutcome

-- shouldRecordUsage
unfoldable pub should_record_usage : RequirementsOutcome → Option AnalysisUsage → Bool
should_record_usage outcome_completed (some usage) = true
should_record_usage _ _ = false

unfoldable pub new_analysis : ℕ → CreatePendingInput → ObjectId → RequirementsAnalysis
new_analysis now input id = record {
  id = id;
  intake_item_id = input.intake_item_id;
  issue_key = input.issue_key;
  status = RequirementsAnalysisStatus.pending;
  input_hash = input.input_hash;
  result = none;
  error = none;
  attempts = 0;
  agent_version = codes "unassigned";
  usage = none;
  created_at = now;
  updated_at = now;
  completed_at = none;
}

unfoldable pub apply_completed : MarkCompletedInput → RequirementsAnalysis → RequirementsAnalysis
apply_completed input row = record row {
  status = RequirementsAnalysisStatus.completed;
  result = some input.result;
  error = none;
  input_hash = input.input_hash;
  agent_version = input.agent_version;
  updated_at = input.now;
  completed_at = some input.now;
  attempts = row.attempts + 1;
}

unfoldable pub apply_failed : MarkFailedInput → RequirementsAnalysis → RequirementsAnalysis
apply_failed input row = record row {
  status = RequirementsAnalysisStatus.failed;
  error = some (record { message = input.message; at = input.now });
  input_hash = input.input_hash;
  agent_version = input.agent_version;
  updated_at = input.now;
  attempts = row.attempts + 1;
}

unfoldable pub apply_usage : AnalysisUsage → ℕ → RequirementsAnalysis → RequirementsAnalysis
apply_usage usage now row = record row { usage = some usage; updated_at = now }

abbrev pub of_item : ObjectId → RequirementsAnalysis → Bool
of_item intake_item_id row = row.intake_item_id == intake_item_id

module _ (db : Db) where
  abbrev pub get_analyses : World db → db.requirements_analyses.State
  get_analyses w = w.requirements_analyses

  abbrev pub put_analyses : db.requirements_analyses.State → World db → World db
  put_analyses s w = record w { requirements_analyses = s }

  abbrev pub StoredAnalysis : Type 0
  StoredAnalysis = Stored db.requirements_analyses get_analyses put_analyses

  unfoldable pub reuse_or_insert :
      (World db → World db)
      → (World db → World db)
      → ℕ
      → CreatePendingInput
      → Option RequirementsAnalysis
      → Do db StoredAnalysis
  reuse_or_insert step step' now input (some existing) =
      pure (record { doc = existing; was_created = false })
  reuse_or_insert step step' now input none = do
    others step
    insert_or_winner db.requirements_analyses get_analyses put_analyses step'
        (new_analysis now input) (of_item input.intake_item_id)

  unfoldable pub create_pending :
      (World db → World db) → (World db → World db) → ℕ → CreatePendingInput → Do db StoredAnalysis
  unfolding reuse_or_insert
  create_pending step step' now input = do
    existing ←
        find_one db.requirements_analyses get_analyses put_analyses (of_item input.intake_item_id)
    reuse_or_insert step step' now input existing

  unfoldable pub require_updated :
      ObjectId → Option RequirementsAnalysis → Do db RequirementsAnalysis
  require_updated intake_item_id none = throw (requirements_analysis_not_found intake_item_id)
  require_updated intake_item_id (some updated) = pure updated

  -- The `findOneAndUpdate` that markCompleted, markFailed and recordUsage make.
  unfoldable pub update_analysis :
      ObjectId → (RequirementsAnalysis → RequirementsAnalysis) → Do db RequirementsAnalysis
  unfolding require_updated
  update_analysis intake_item_id update = do
    updated ←
        find_one_and_update db.requirements_analyses get_analyses put_analyses
          (of_item intake_item_id) update
    require_updated intake_item_id updated

  unfoldable pub mark_completed : ObjectId → MarkCompletedInput → Do db RequirementsAnalysis
  unfolding apply_completed update_analysis
  mark_completed intake_item_id input = update_analysis intake_item_id (apply_completed input)

  unfoldable pub mark_failed : ObjectId → MarkFailedInput → Do db RequirementsAnalysis
  unfolding apply_failed update_analysis
  mark_failed intake_item_id input = update_analysis intake_item_id (apply_failed input)

  unfoldable pub record_usage : ObjectId → AnalysisUsage → ℕ → Do db RequirementsAnalysis
  unfolding apply_usage update_analysis
  record_usage intake_item_id usage now = update_analysis intake_item_id (apply_usage usage now)
