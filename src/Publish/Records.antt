-- ===== src/Publish/Records.antt =====
-- src/github-publish/publish-repository.ts and types.ts: what is stored of a publication, and what
-- the publish service answers.
use aisdlc.Prelude.{ℕ, Option, Bool, false}
use aisdlc.Text.{Text}
use aisdlc.Store.{ObjectId}
use aisdlc.Collections.{GithubPublicationStatus}

pub data PublishFailureCategory : Type 0 where
  execution_not_found execution_not_succeeded : PublishFailureCategory
  review_not_found review_not_approved review_superseded : PublishFailureCategory
  proposal_hash_mismatch repository_access_failure repository_mismatch : PublishFailureCategory
  branch_mismatch : PublishFailureCategory
  invalid_path unauthorized_file stale_file base_branch_missing : PublishFailureCategory
  base_branch_changed invalid_branch_name branch_conflict : PublishFailureCategory
  tree_creation_failed commit_creation_failed branch_creation_failed : PublishFailureCategory
  push_verification_failed pull_request_creation_failed unexpected_error : PublishFailureCategory

unfoldable pub is_retryable_publish_category : PublishFailureCategory → Bool
is_retryable_publish_category category = false

pub record GithubPublication : Type 0 where
  pub id : ObjectId
  pub run_id : ObjectId
  pub review_id : ObjectId
  pub execution_id : ObjectId
  pub owner : Text
  pub repo : Text
  pub base_branch : Text
  pub branch : Text
  pub base_sha : Option Text
  pub commit_sha : Option Text
  pub status : GithubPublicationStatus
  pub pull_request_number : Option ℕ
  pub pull_request_url : Option Text
  pub failure_category : Option PublishFailureCategory
  pub failure_message : Option Text
  pub created_at : ℕ
  pub completed_at : Option ℕ

pub record PublishSuccess : Type 0 where
  pub run_id : ObjectId
  pub execution_id : ObjectId
  pub review_id : ObjectId
  pub owner : Text
  pub repo : Text
  pub base_branch : Text
  pub branch : Text
  pub commit_sha : Option Text
  pub pull_request_number : Option ℕ
  pub pull_request_url : Option Text

-- The message is for people only and is left out.
pub record PublishFailure : Type 0 where
  pub run_id : ObjectId
  pub execution_id : Option ObjectId
  pub review_id : Option ObjectId
  pub category : PublishFailureCategory
  pub retryable : Bool

pub data PublishResult : Type 0 where
  published_as : PublishSuccess → PublishResult
  not_published : PublishFailure → PublishResult
