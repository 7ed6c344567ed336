-- ===== src/Publish/Push.antt =====
-- attempt of src/github-publish/publish-service.ts, its second part: the branch, which is the first
-- thing that others can see, and the pull request. Where a call's outcome is not known, GitHub is
-- asked before the attempt is given up.
use aisdlc.Prelude.{Bool, true, false, Option, some, none, if◌then◌else◌}
use aisdlc.Effect.{Action, ◌>>=◌, pure}
use aisdlc.Text.{Text, same}
use aisdlc.Errors.{Error}
use aisdlc.GithubApp.Client.{
  Answer, answered, refused_with, Repo, GithubAppClient, GithubAccessFailureKind,
  PullRequestSummary, PullRequestInput,
}
use aisdlc.Publish.Records.{PublishFailureCategory}
use aisdlc.Site.{ask}

-- `ref.ok && ref.sha === sha`
unfoldable pub points_at : Text → Answer Text → Bool
unfolding same
points_at sha (refused_with kind) = false
points_at sha (answered found) = same found sha

abbrev is_ref_already_exists : GithubAccessFailureKind → Bool
is_ref_already_exists GithubAccessFailureKind.ref_already_exists = true
is_ref_already_exists _ = false

unfoldable pub found_pull_request : Answer (Option PullRequestSummary) → Option PullRequestSummary
found_pull_request (refused_with kind) = none
found_pull_request (answered found) = found

module _ {R : Type 0} (client : GithubAppClient R) (target : Repo) where
  -- What stopped the push, if anything did.
  unfoldable pub verify_push :
      (branch sha : Text)
      → Option PublishFailureCategory
      → Action R Error (Option PublishFailureCategory)
  unfolding ask points_at
  verify_push branch sha (some category) = pure (some category)
  verify_push branch sha none = do
    verified ← ask (client.get_ref target branch)
    pure (
        if points_at sha verified
        then none
        else some PublishFailureCategory.push_verification_failed)

  -- An ambiguous failure: the push may have landed.
  unfoldable pub reconcile_push :
      (branch sha : Text) → Answer (Unit {0}) → Action R Error (Option PublishFailureCategory)
  unfolding ask points_at
  reconcile_push branch sha (answered done) = pure none
  reconcile_push branch sha (refused_with kind) =
      if is_ref_already_exists kind then pure (some PublishFailureCategory.branch_conflict) else (do
        reconciled ← ask (client.get_ref target branch)
        pure (
            if points_at sha reconciled
            then none
            else some PublishFailureCategory.branch_creation_failed))

  unfoldable pub after_preflight :
      (branch sha : Text) → Answer Text → Action R Error (Option PublishFailureCategory)
  unfolding ask reconcile_push verify_push
  after_preflight branch sha (answered other) = pure (some PublishFailureCategory.branch_conflict)
  after_preflight branch sha (refused_with kind) = do
    created ← ask (client.create_branch target branch sha)
    stopped ← reconcile_push branch sha created
    verify_push branch sha stopped

  unfoldable pub push_branch : (branch sha : Text) → Action R Error (Option PublishFailureCategory)
  unfolding ask after_preflight
  push_branch branch sha = do
    preflight ← ask (client.get_ref target branch)
    after_preflight branch sha preflight

  unfoldable pub reconcile_pull_request :
      PullRequestInput → Answer PullRequestSummary → Action R Error (Option PullRequestSummary)
  unfolding ask found_pull_request
  reconcile_pull_request input (answered pr) = pure (some pr)
  reconcile_pull_request input (refused_with kind) = do
    found ← ask (client.find_pull_request_for_branch target input.head input.base)
    pure (found_pull_request found)

  -- `none` is the category pull_request_creation_failed.
  unfoldable pub open_pull_request : PullRequestInput → Action R Error (Option PullRequestSummary)
  unfolding ask reconcile_pull_request
  open_pull_request input = do
    pr ← ask (client.create_pull_request target input)
    reconcile_pull_request input pr
