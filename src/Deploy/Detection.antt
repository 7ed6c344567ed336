-- ===== src/Deploy/Detection.antt =====
-- src/deployment/pr-merge-detection.ts: whether the pull request of a publication was merged by a human,
-- and the pass over the publications. `active` is findActiveByProjectIdentifier of the registry, `step`
-- is what other clients do while a deployment is recorded.
use aisdlc.Prelude.{
  Bool, not, ◌&&◌, ◌+◌, if◌then◌else◌, ℕ, Option, List, some, none, [], ◌∷◌, length,
}
use aisdlc.Effect.{Result, ok, err, Action, ◌>>=◌, pure}
use aisdlc.Db.{Db, World}
use aisdlc.Documents.{RepositorySelection}
use aisdlc.Text.{Text, codes, same}
use aisdlc.Errors.{Error}
use aisdlc.Registry.Records.{RegistryEntry}
use aisdlc.GithubApp.Client.{Answer, answered, refused_with, GithubAppClient, PullRequestDetails}
use aisdlc.GithubApp.Access.{AuthorizedRepositoryAccess, authorize_repository_access}
use aisdlc.Publish.Records.{GithubPublication}
use aisdlc.Publish.Verify.{selects_for}
use aisdlc.Site.{Site, on_world, on_remote, ask}
use aisdlc.Deploy.Records.{Deployment}
use aisdlc.Deploy.Deployments.{
  InitialStatus, merged, closed, CreateDeploymentInput, record_deployment, of_publication,
}

pub data DetectOutcome : Type 0 where
  found_merged found_closed found_open not_detected : DetectOutcome

pub record PrMergeDetectionSummary : Type 0 where
  pub examined : ℕ
  pub merged : ℕ
  pub closed_unmerged : ℕ
  pub still_open : ℕ
  pub already_recorded : ℕ
  pub failed : ℕ

unfoldable pub is_of_publication : GithubPublication → PullRequestDetails → Bool
unfolding same
is_of_publication publication pr =
    same pr.head_ref publication.branch && same pr.base_ref publication.base_branch

unfoldable pub count :
    Result Error DetectOutcome → PrMergeDetectionSummary → PrMergeDetectionSummary
count (ok found_merged) t = record t { merged = t.merged + 1 }
count (ok found_closed) t = record t { closed_unmerged = t.closed_unmerged + 1 }
count (ok found_open) t = record t { still_open = t.still_open + 1 }
count (ok not_detected) t = record t { failed = t.failed + 1 }
count (err e) t = record t { failed = t.failed + 1 }

abbrev pub fresh_summary : ℕ → PrMergeDetectionSummary
fresh_summary examined = record {
  examined = examined;
  merged = 0;
  closed_unmerged = 0;
  still_open = 0;
  already_recorded = 0;
  failed = 0;
}

module _ (db : Db) {R : Type 0} (client : GithubAppClient R)
    (active : World db → Text → List RegistryEntry) (step : World db → World db)
    (now audit_now : ℕ) where
  module _ (publication : GithubPublication) (number : ℕ) where
    abbrev pub deployment_input : Option Text → InitialStatus → CreateDeploymentInput
    deployment_input sha status = record {
      run_id = publication.run_id;
      execution_id = publication.execution_id;
      publication_id = publication.id;
      owner = publication.owner;
      repo = publication.repo;
      pull_request_number = number;
      merge_commit_sha = sha;
      status = status;
    }

    unfoldable pub record_as :
        Option Text → InitialStatus → DetectOutcome → Action (Site db R) Error DetectOutcome
    unfolding on_world record_deployment
    record_as sha status outcome = do
      _ ← on_world (record_deployment db step now audit_now (deployment_input sha status))
      pure outcome

    unfoldable pub after_merge : Option Text → Action (Site db R) Error DetectOutcome
    unfolding record_as
    after_merge none = pure not_detected
    after_merge (some sha) = record_as (some sha) merged found_merged

    unfoldable pub after_pull_request :
        Answer PullRequestDetails → Action (Site db R) Error DetectOutcome
    unfolding record_as after_merge is_of_publication same
    after_pull_request (refused_with kind) = pure not_detected
    after_pull_request (answered pr) =
        if not (is_of_publication publication pr)
        then pure not_detected
        else if same pr.state (codes "open")
        then pure found_open
        else if pr.merged
        then after_merge pr.merge_commit_sha
        else record_as none closed found_closed

    unfoldable pub after_access :
        Answer AuthorizedRepositoryAccess → Action (Site db R) Error DetectOutcome
    unfolding after_pull_request on_remote ask same
    after_access (refused_with kind) = pure not_detected
    after_access (answered access) =
        if not
          (same access.target.owner publication.owner && same access.target.repo publication.repo)
        then pure not_detected
        else (do
          pr ← on_remote (ask (client.get_pull_request access.target number))
          after_pull_request pr)

    unfoldable pub after_selection :
        Option RepositorySelection → Action (Site db R) Error DetectOutcome
    unfolding after_access on_remote ask
    after_selection none s = (ok not_detected, s)
    after_selection (some selection) s =
        (do
          answer ←
              on_remote (ask (authorize_repository_access client (active s.world) selection none))
          after_access answer)
          s

  unfoldable pub detect_number :
      GithubPublication → Option ℕ → Action (Site db R) Error DetectOutcome
  unfolding after_selection
  detect_number publication none s = (ok not_detected, s)
  detect_number publication (some number) s =
      after_selection publication number
        (db.repository_selections.find_one (selects_for publication.run_id)
          s.world.repository_selections)
        s

  -- detectOne
  unfoldable pub detect_one : GithubPublication → Action (Site db R) Error DetectOutcome
  unfolding detect_number
  detect_one publication = detect_number publication publication.pull_request_number

  -- One publication of the pass, its error caught.
  unfoldable pub detect_next :
      GithubPublication
      → Option Deployment
      → Site db R
      → PrMergeDetectionSummary
      → PrMergeDetectionSummary × Site db R
  unfolding detect_one count
  detect_next publication (some deployment) s t =
      (record t { already_recorded = t.already_recorded + 1 }, s)
  detect_next publication none s t =
      let (result, s') = detect_one publication s in (count result t, s')

  unfoldable pub detect_all :
      List GithubPublication
      → Site db R
      → PrMergeDetectionSummary
      → PrMergeDetectionSummary × Site db R
  unfolding detect_next
  detect_all [] s t = (t, s)
  detect_all (publication ∷ rest) s t =
      let (t', s') =
        detect_next publication
          (db.deployments.find_one (of_publication publication.id) s.world.deployments) s t in
      detect_all rest s' t'

  -- detectMergedPullRequests; the candidates are what findPublished gives.
  unfoldable pub detect_merged_pull_requests :
      List GithubPublication → Site db R → PrMergeDetectionSummary × Site db R
  unfolding detect_all
  detect_merged_pull_requests candidates s =
      detect_all candidates s (fresh_summary (length candidates))
