-- ===== src/Publish/Service.antt =====
-- createGithubPublishService of src/github-publish/publish-service.ts: execute, and publishApprovedChanges
-- with its catch. Two calls of one process for the same execution share one promise (`inFlight`); here
-- each call is one run of the action, and other processes are in `step` and in the answers of GitHub.
use aisdlc.Prelude.{false, ℕ, Option, List, none}
use aisdlc.Effect.{Result, ok, err, Action, ◌>>=◌, pure}
use aisdlc.Db.{Db, World}
use aisdlc.Store.{ObjectId}
use aisdlc.Text.{Text}
use aisdlc.Documents.{ChangeReview}
use aisdlc.Errors.{Error}
use aisdlc.Registry.Records.{RegistryEntry}
use aisdlc.GithubApp.Client.{GithubAppClient}
use aisdlc.Publish.Records.{PublishFailureCategory, PublishResult, not_published}
use aisdlc.Site.{Site}
use aisdlc.Publish.Verify.{
  Verdict, already_published, refused, cleared, verify_publication, fail_eligibility,
}
use aisdlc.Publish.Build.{Stop}
use aisdlc.Publish.Attempt.{attempt, to_publish_result}

module _ (db : Db) {R : Type 0} (client : GithubAppClient R)
    (latest : World db → ObjectId → Option ChangeReview)
    (active : World db → Text → List RegistryEntry) (hex : ObjectId → Text)
    (to_lower sha256 : Text → Text) (message : Stop → Text) (step : World db → World db)
    (now audit_now : ℕ) (run_id execution_id : ObjectId) where
  unfoldable pub after_verdict : Verdict → Action (Site db R) Error PublishResult
  unfolding to_publish_result attempt
  after_verdict (already_published publication) = pure (to_publish_result run_id publication)
  after_verdict (refused failure) = pure (not_published failure)
  after_verdict (cleared execution review target) =
      attempt db client hex to_lower sha256 message step now audit_now run_id execution_id execution
        review target

  unfoldable pub execute : Action (Site db R) Error PublishResult
  unfolding verify_publication after_verdict
  execute = do
    verdict ← verify_publication db client latest active audit_now run_id execution_id
    after_verdict verdict

  -- `catch`
  unfoldable pub caught :
      Result Error PublishResult × Site db R → Result Error PublishResult × Site db R
  unfolding fail_eligibility
  caught (ok result, s) = (ok result, s)
  caught (err e, s) =
      (do
        failure ←
            fail_eligibility db client latest active audit_now run_id execution_id none
              PublishFailureCategory.unexpected_error false
        pure (not_published failure))
        s

  unfoldable pub publish_approved_changes : Action (Site db R) Error PublishResult
  unfolding execute caught
  publish_approved_changes s = caught (execute s)
