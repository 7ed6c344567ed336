-- ===== src/Tests/Fixtures.antt =====
-- Concrete data for the tests: a database in memory, with a few documents.
use aisdlc.Prelude.{ℕ, [], ◌∷◌, none, some}
use aisdlc.Text.{Text, codes}
use aisdlc.Store.Memory.{memory}
use aisdlc.Collections.{
  IntakeStatus, IntakeSource, RunStatus, RunTrigger, ChangeReviewStatus, RepositorySelectionStatus,
  WebhookDeliveryStatus,
}
use aisdlc.Documents.{
  IntakeSnapshot, IntakeItem, Run, ImplementationPlan, ImplementationPlanItem, ChangeReview,
  RepositorySelection, WebhookDelivery, ProposedChange, ProposedChangeOperation,
}
use aisdlc.Db.{
  Db, World, issue_key_unique, delivery_id_unique, run_intake_item_id_unique,
  analysis_intake_item_id_unique, run_id_unique, proposal_hash_unique, review_id_unique, no_unique,
  execution_id_unique, publication_id_unique,
}

unfoldable pub test_db : Db
unfolding memory
test_db = record {
  audit_log = memory no_unique;
  intake_items = memory issue_key_unique;
  webhook_deliveries = memory delivery_id_unique;
  runs = memory run_intake_item_id_unique;
  requirements_analyses = memory analysis_intake_item_id_unique;
  repository_selections = memory run_id_unique;
  change_reviews = memory proposal_hash_unique;
  change_executions = memory review_id_unique;
  github_publications = memory execution_id_unique;
  deployments = memory publication_id_unique;
}

abbrev pub test_snapshot : IntakeSnapshot
test_snapshot = record {
  title = codes "t";
  description = codes "d";
  issue_type = codes "task";
  priority = none;
  reporter = none;
  project = some (codes "p");
  labels = some (codes "b" ∷ codes "a" ∷ []);
  parent_key = none;
}

abbrev pub test_item : ℕ → Text → IntakeStatus → IntakeItem
test_item id key status = record {
  id = id;
  issue_key = key;
  source = IntakeSource.manual;
  delivery_ref = none;
  snapshot = test_snapshot;
  snapshot_meta = none;
  source_hash = codes "h";
  status = status;
  status_reason = none;
  approved_by = none;
  approved_at = none;
  received_at = 1;
  created_at = 1;
  updated_at = 1;
}

abbrev pub test_run : Run
test_run = record {
  id = 7;
  intake_item_id = 1;
  issue_key = codes "A-1";
  status = RunStatus.queued;
  trigger = RunTrigger.approval;
  created_at = 1;
  started_at = none;
  completed_at = none;
  updated_at = 1;
}

abbrev pub test_plan_item : ImplementationPlanItem
test_plan_item = record {
  id = codes "i";
  file_path = codes "a.ts";
  operation = ProposedChangeOperation.create;
  change_description = codes "c";
}

abbrev pub test_plan : ImplementationPlan
test_plan = record {
  summary = [];
  requirements_understanding = [];
  relevant_files = [];
  items = test_plan_item ∷ [];
  dependencies_and_impact = [];
  tests_required = [];
  assumptions = [];
  risks = [];
}

abbrev pub test_change : ProposedChange
test_change = record {
  file_path = codes "a.ts";
  operation = ProposedChangeOperation.create;
  original_content_hash = none;
  proposed_content = codes "x";
  reason = codes "r";
  related_plan_item_id = codes "i";
}

abbrev pub test_review : ChangeReview
test_review = record {
  id = 3;
  run_id = 7;
  intake_item_id = 1;
  repository_id = codes "r";
  owner = codes "o";
  repo = codes "r";
  branch = codes "b";
  plan = test_plan;
  proposed_changes = test_change ∷ [];
  proposal_hash = codes "h";
  status = ChangeReviewStatus.pending;
  reviewed_by = none;
  reviewed_at = none;
  review_comment = none;
  created_at = 1;
  updated_at = 1;
}

abbrev pub test_selection : RepositorySelection
test_selection = record {
  id = 4;
  run_id = 7;
  intake_item_id = 1;
  issue_key = codes "A-1";
  project_identifier = codes "p";
  candidate_repository_ids = codes "r" ∷ codes "s" ∷ [];
  selected_repository_id = none;
  selected_repository_url = none;
  selected_default_branch = none;
  selected_allowed_branches = none;
  selected_access_policy = none;
  status = RepositorySelectionStatus.ambiguous;
  failure_reason = none;
  attempts = 1;
  next_attempt_at = 5;
  confirmed_by = none;
  confirmed_at = none;
  last_notified_status = none;
  created_at = 1;
  updated_at = 1;
}

abbrev pub test_delivery : WebhookDelivery
test_delivery = record {
  id = 5;
  delivery_id = codes "w";
  event = none;
  issue_key = some (codes "A-9");
  event_timestamp = none;
  payload = none;
  status = WebhookDeliveryStatus.pending;
  invalid_reason = none;
  attempts = 1;
  max_attempts = 5;
  next_attempt_at = 1;
  last_error = none;
  intake_item_id = none;
  received_at = 1;
  updated_at = 1;
}

unfoldable pub test_world : World test_db
unfolding test_db
test_world = record {
  audit_log = [];
  intake_items =
      test_item 1 (codes "A-1") IntakeStatus.pending_approval
      ∷ test_item 2 (codes "A-2") IntakeStatus.received
      ∷ [];
  webhook_deliveries = test_delivery ∷ [];
  runs = test_run ∷ [];
  requirements_analyses = [];
  repository_selections = test_selection ∷ [];
  change_reviews = test_review ∷ [];
  change_executions = [];
  github_publications = [];
  deployments = [];
}

-- Nobody else is at work.
abbrev pub alone : World test_db → World test_db
alone w = w

-- Stand-ins for what is not part of the repository.
abbrev pub test_text : Text → Text
test_text s = s
