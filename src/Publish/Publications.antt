-- ===== src/Publish/Publications.antt =====
-- src/github-publish/publish-repository.ts: createIfAbsent, on the unique execution id.
use aisdlc.Prelude.{Bool, ◌==◌, ◌++◌, if◌then◌else◌, ℕ, Option, List, some, none, [], ◌∷◌}
use aisdlc.Effect.{◌>>=◌, pure}
use aisdlc.Db.{Db, World}
use aisdlc.Collections.{GithubPublicationStatus, AuditSubjectType}
use aisdlc.Documents.{Datum, an_id, a_text, a_number}
use aisdlc.Store.{ObjectId}
use aisdlc.Text.{Text, codes, is_empty}
use aisdlc.Access.{Stored, find_one, insert_or_winner}
use aisdlc.AuditLog.{AuditEntryInput, append}
use aisdlc.Errors.{Do}
use aisdlc.Publish.Records.{GithubPublication, PublishFailureCategory}

unfoldable pub github_publish_system_actor : Text
github_publish_system_actor = codes "system:github-publish"

pub record RecordPublicationInput : Type 0 where
  pub run_id : ObjectId
  pub review_id : ObjectId
  pub execution_id : ObjectId
  pub owner : Text
  pub repo : Text
  pub base_branch : Text
  pub branch : Text
  pub base_sha : Option Text
  pub commit_sha : Option Text
  pub status : GithubPublicationStatus
  pub pull_request_number : Option ℕ
  pub pull_request_url : Option Text
  pub failure_category : Option PublishFailureCategory
  pub failure_message : Option Text

unfoldable pub new_publication : ℕ → RecordPublicationInput → ObjectId → GithubPublication
new_publication now input id = record {
  id = id;
  run_id = input.run_id;
  review_id = input.review_id;
  execution_id = input.execution_id;
  owner = input.owner;
  repo = input.repo;
  base_branch = input.base_branch;
  branch = input.branch;
  base_sha = input.base_sha;
  commit_sha = input.commit_sha;
  status = input.status;
  pull_request_number = input.pull_request_number;
  pull_request_url = input.pull_request_url;
  failure_category = input.failure_category;
  failure_message = input.failure_message;
  created_at = now;
  completed_at = some now;
}

abbrev pub of_execution : ObjectId → GithubPublication → Bool
of_execution execution_id publication = publication.execution_id == execution_id

abbrev status_action : GithubPublicationStatus → Text
status_action GithubPublicationStatus.published = codes "github.write.completed"
status_action GithubPublicationStatus.failed = codes "github.write.failed"

abbrev status_text : GithubPublicationStatus → Text
status_text GithubPublicationStatus.published = codes "published"
status_text GithubPublicationStatus.failed = codes "failed"

unfoldable pub publish_category_name : PublishFailureCategory → Text
publish_category_name PublishFailureCategory.execution_not_found = codes "execution_not_found"
publish_category_name PublishFailureCategory.execution_not_succeeded =
    codes "execution_not_succeeded"
publish_category_name PublishFailureCategory.review_not_found = codes "review_not_found"
publish_category_name PublishFailureCategory.review_not_approved = codes "review_not_approved"
publish_category_name PublishFailureCategory.review_superseded = codes "review_superseded"
publish_category_name PublishFailureCategory.proposal_hash_mismatch = codes "proposal_hash_mismatch"
publish_category_name PublishFailureCategory.repository_access_failure =
    codes "repository_access_failure"
publish_category_name PublishFailureCategory.repository_mismatch = codes "repository_mismatch"
publish_category_name PublishFailureCategory.branch_mismatch = codes "branch_mismatch"
publish_category_name PublishFailureCategory.invalid_path = codes "invalid_path"
publish_category_name PublishFailureCategory.unauthorized_file = codes "unauthorized_file"
publish_category_name PublishFailureCategory.stale_file = codes "stale_file"
publish_category_name PublishFailureCategory.base_branch_missing = codes "base_branch_missing"
publish_category_name PublishFailureCategory.base_branch_changed = codes "base_branch_changed"
publish_category_name PublishFailureCategory.invalid_branch_name = codes "invalid_branch_name"
publish_category_name PublishFailureCategory.branch_conflict = codes "branch_conflict"
publish_category_name PublishFailureCategory.tree_creation_failed = codes "tree_creation_failed"
publish_category_name PublishFailureCategory.commit_creation_failed = codes "commit_creation_failed"
publish_category_name PublishFailureCategory.branch_creation_failed = codes "branch_creation_failed"
publish_category_name PublishFailureCategory.push_verification_failed =
    codes "push_verification_failed"
publish_category_name PublishFailureCategory.pull_request_creation_failed =
    codes "pull_request_creation_failed"
publish_category_name PublishFailureCategory.unexpected_error = codes "unexpected_error"

abbrev branch_detail : Text → List (Text × Datum)
branch_detail branch = if is_empty branch then [] else (codes "branch", a_text branch) ∷ []

abbrev number_detail : Option ℕ → List (Text × Datum)
number_detail none = []
number_detail (some number) = (codes "pullRequestNumber", a_number number) ∷ []

abbrev category_detail : Option PublishFailureCategory → List (Text × Datum)
category_detail none = []
category_detail (some category) =
    (codes "failureCategory", a_text (publish_category_name category)) ∷ []

unfoldable pub publication_entry : RecordPublicationInput → ObjectId → AuditEntryInput
unfolding publish_category_name github_publish_system_actor
publication_entry input id = record {
  actor = github_publish_system_actor;
  action = status_action input.status;
  subject_type = AuditSubjectType.github_publication;
  subject_id = id;
  detail = some (
      (codes "runId", an_id input.run_id)
      ∷ (codes "executionId", an_id input.execution_id)
      ∷ (codes "status", a_text (status_text input.status))
      ∷ (branch_detail input.branch
          ++ (number_detail input.pull_request_number ++ category_detail input.failure_category)));
  occurred_at = none;
}

module _ (db : Db) where
  abbrev pub get_publications : World db → db.github_publications.State
  get_publications w = w.github_publications

  abbrev pub put_publications : db.github_publications.State → World db → World db
  put_publications s w = record w { github_publications = s }

  abbrev pub StoredPublication : Type 0
  StoredPublication = Stored db.github_publications get_publications put_publications

  unfoldable pub find_by_execution_id : ObjectId → Do db (Option GithubPublication)
  find_by_execution_id execution_id =
      find_one db.github_publications get_publications put_publications (of_execution execution_id)

  unfoldable pub audit_publication :
      ℕ → RecordPublicationInput → StoredPublication → Do db StoredPublication
  audit_publication audit_now input result =
      if result.was_created
      then (do _ ← append db audit_now (publication_entry input result.doc.id); pure result)
      else pure result

  -- createIfAbsent
  unfoldable pub record_publication :
      (World db → World db) → ℕ → ℕ → RecordPublicationInput → Do db StoredPublication
  unfolding audit_publication
  record_publication step now audit_now input = do
    result ←
        insert_or_winner db.github_publications get_publications put_publications step
          (new_publication now input) (of_execution input.execution_id)
    audit_publication audit_now input result
