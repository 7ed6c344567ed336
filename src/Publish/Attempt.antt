-- ===== src/Publish/Attempt.antt =====
-- attempt of src/github-publish/publish-service.ts as a whole, and the record of its outcome. `hex` is
-- toHexString, `to_lower` is toLowerCase, `sha256` is that of hashFileContent, and `step` is what other
-- clients of the database do while the record is written. `message` words a failure.
use aisdlc.Prelude.{◌⊎◌, inl, inr, ℕ, Option, List, some, none, [], ◌∷◌, if◌then◌else◌}
use aisdlc.Effect.{Action, ◌>>=◌, pure}
use aisdlc.Db.{Db, World}
use aisdlc.Collections.{AuditSubjectType, GithubPublicationStatus}
use aisdlc.Store.{ObjectId}
use aisdlc.Text.{Text, codes}
use aisdlc.Documents.{ChangeReview, ChangeExecution, Datum, a_text, an_id, a_number}
use aisdlc.AuditLog.{append}
use aisdlc.Errors.{Error}
use aisdlc.GithubApp.Client.{
  Repo, GithubAppClient, TreeFileEntry, PullRequestSummary, PullRequestInput,
}
use aisdlc.Publish.BranchName.{
  BranchNameResult, valid_branch, generate_branch_name, validate_branch_name,
}
use aisdlc.Publish.Content.{PublishIdentifiers, build_commit_message, build_pull_request_content}
use aisdlc.Publish.Records.{
  GithubPublication, PublishFailureCategory, PublishResult, published_as, not_published,
  is_retryable_publish_category,
}
use aisdlc.Publish.Publications.{
  github_publish_system_actor, RecordPublicationInput, record_publication, StoredPublication,
}
use aisdlc.Site.{Site, on_world, on_remote}
use aisdlc.Publish.Build.{Stop, Commit, collect_files, build_commit}
use aisdlc.Publish.Push.{push_branch, open_pull_request}

abbrev category_or_unexpected : Option PublishFailureCategory → PublishFailureCategory
category_or_unexpected none = PublishFailureCategory.unexpected_error
category_or_unexpected (some category) = category

-- toPublishResult
unfoldable pub to_publish_result : ObjectId → GithubPublication → PublishResult
unfolding is_retryable_publish_category
to_publish_result run_id publication = elim publication.status [
  | GithubPublicationStatus.published ↦ published_as (record {
    run_id = run_id;
    execution_id = publication.execution_id;
    review_id = publication.review_id;
    owner = publication.owner;
    repo = publication.repo;
    base_branch = publication.base_branch;
    branch = publication.branch;
    commit_sha = publication.commit_sha;
    pull_request_number = publication.pull_request_number;
    pull_request_url = publication.pull_request_url;
  })
  | GithubPublicationStatus.failed ↦ not_published (record {
    run_id = run_id;
    execution_id = some publication.execution_id;
    review_id = some publication.review_id;
    category = category_or_unexpected publication.failure_category;
    retryable = is_retryable_publish_category (category_or_unexpected publication.failure_category);
  })
]

module _ (db : Db) {R : Type 0} (client : GithubAppClient R) (hex : ObjectId → Text)
    (to_lower sha256 : Text → Text) (message : Stop → Text) (step : World db → World db)
    (now audit_now : ℕ) (run_id execution_id : ObjectId) (execution : ChangeExecution)
    (review : ChangeReview) (target : Repo) where
  abbrev pub ids : PublishIdentifiers
  ids = record { run_id = run_id; review_id = review.id; execution_id = execution_id }

  -- An audit entry about the execution.
  unfoldable pub note : Text → List (Text × Datum) → Action (Site db R) Error ObjectId
  unfolding on_world github_publish_system_actor
  note action detail = on_world (
      append db audit_now (record {
        actor = github_publish_system_actor;
        action = action;
        subject_type = AuditSubjectType.change_execution;
        subject_id = execution_id;
        detail = some detail;
        occurred_at = none;
      }))

  abbrev pub recorded_result : PublishResult → StoredPublication db → PublishResult
  recorded_result own stored =
      if stored.was_created then own else to_publish_result run_id stored.doc

  -- The record of the outcome; where another call was first, its outcome is the result.
  unfoldable pub record_outcome :
      RecordPublicationInput → PublishResult → Action (Site db R) Error PublishResult
  unfolding on_world record_publication to_publish_result
  record_outcome input own = do
    stored ← on_world (record_publication db step now audit_now input)
    pure (recorded_result own stored)

  -- recordAttemptFailure
  unfoldable pub fail : Stop → Action (Site db R) Error PublishResult
  unfolding record_outcome is_retryable_publish_category
  fail stop =
      record_outcome
        (record {
          run_id = run_id;
          review_id = review.id;
          execution_id = execution_id;
          owner = target.owner;
          repo = target.repo;
          base_branch = review.branch;
          branch = stop.branch;
          base_sha = stop.base_sha;
          commit_sha = stop.commit_sha;
          status = GithubPublicationStatus.failed;
          pull_request_number = none;
          pull_request_url = none;
          failure_category = some stop.category;
          failure_message = some (message stop);
        })
        (not_published (record {
          run_id = run_id;
          execution_id = some execution_id;
          review_id = some review.id;
          category = stop.category;
          retryable = is_retryable_publish_category stop.category;
        }))

  abbrev stopped_at : Text → Commit → PublishFailureCategory → Stop
  stopped_at branch commit category = record {
    category = category;
    branch = branch;
    base_sha = some commit.base_sha;
    commit_sha = some commit.sha;
  }

  unfoldable pub succeed :
      (branch : Text) → Commit → PullRequestSummary → Action (Site db R) Error PublishResult
  unfolding note record_outcome
  succeed branch commit pr = do
    _ ← note (codes "github.pr.created") (
        (codes "runId", an_id run_id)
        ∷ (codes "pullRequestNumber", a_number pr.number)
        ∷ (codes "branch", a_text branch)
        ∷ [])
    record_outcome
        (record {
          run_id = run_id;
          review_id = review.id;
          execution_id = execution_id;
          owner = target.owner;
          repo = target.repo;
          base_branch = review.branch;
          branch = branch;
          base_sha = some commit.base_sha;
          commit_sha = some commit.sha;
          status = GithubPublicationStatus.published;
          pull_request_number = some pr.number;
          pull_request_url = some pr.html_url;
          failure_category = none;
          failure_message = none;
        })
        (published_as (record {
          run_id = run_id;
          execution_id = execution_id;
          review_id = review.id;
          owner = target.owner;
          repo = target.repo;
          base_branch = review.branch;
          branch = branch;
          commit_sha = some commit.sha;
          pull_request_number = some pr.number;
          pull_request_url = some pr.html_url;
        }))

  unfoldable pub after_pull_request :
      (branch : Text) → Commit → Option PullRequestSummary → Action (Site db R) Error PublishResult
  unfolding fail succeed
  after_pull_request branch commit none =
      fail (stopped_at branch commit PublishFailureCategory.pull_request_creation_failed)
  after_pull_request branch commit (some pr) = succeed branch commit pr

  unfoldable pub pull_request_input : (branch : Text) → PullRequestInput
  unfolding build_pull_request_content
  pull_request_input branch =
      let content = build_pull_request_content hex review execution ids in
      record { title = content.title; body = content.body; head = branch; base = review.branch }

  unfoldable pub after_push :
      (branch : Text)
      → Commit
      → Option PublishFailureCategory
      → Action (Site db R) Error PublishResult
  unfolding fail note after_pull_request on_remote open_pull_request pull_request_input
  after_push branch commit (some category) = fail (stopped_at branch commit category)
  after_push branch commit none = do
    _ ← note (codes "github.branch.created") (
        (codes "runId", an_id run_id)
        ∷ (codes "branch", a_text branch)
        ∷ (codes "commitSha", a_text commit.sha)
        ∷ [])
    pr ← on_remote (open_pull_request client target (pull_request_input branch))
    after_pull_request branch commit pr

  unfoldable pub after_name :
      (branch : Text) → Commit → BranchNameResult → Action (Site db R) Error PublishResult
  unfolding fail after_push on_remote push_branch
  after_name branch commit valid_branch = do
    stopped ← on_remote (push_branch client target branch commit.sha)
    after_push branch commit stopped
  after_name branch commit _ =
      fail (stopped_at branch commit PublishFailureCategory.invalid_branch_name)

  unfoldable pub after_build : Stop ⊎ Commit → Action (Site db R) Error PublishResult
  unfolding fail after_name generate_branch_name validate_branch_name
  after_build (inl stop) = fail stop
  after_build (inr commit) =
      let branch = generate_branch_name hex run_id execution_id in
      after_name branch commit (validate_branch_name to_lower branch review.branch)

  unfoldable pub after_files :
      PublishFailureCategory ⊎ List TreeFileEntry → Action (Site db R) Error PublishResult
  unfolding fail after_build on_remote build_commit build_commit_message
  after_files (inl category) =
      fail (record { category = category; branch = []; base_sha = none; commit_sha = none })
  after_files (inr files) = do
    built ←
        on_remote
          (build_commit client target review.branch (build_commit_message hex review ids) files)
    after_build built

  unfoldable pub attempt : Action (Site db R) Error PublishResult
  unfolding note after_files on_remote collect_files
  attempt = do
    _ ← note (codes "github.write.started") (
        (codes "runId", an_id run_id)
        ∷ (codes "reviewId", an_id review.id)
        ∷ (codes "baseBranch", a_text review.branch)
        ∷ [])
    files ← on_remote (collect_files client sha256 target review.branch review.proposed_changes)
    after_files files
