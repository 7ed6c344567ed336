-- ===== src/Tests/ServiceTests.antt =====
-- The theorems about the services, applied at concrete data.
use aisdlc.Prelude.{
  ◌≡◌, refl, arith, ◌≤◌, ◌++◌, true, List, [], ◌∷◌, none, some, length, every, any, All,
}
use aisdlc.Text.{Text, codes, starts_with, is_empty}
use aisdlc.Effect.{Result, ok, Action}
use aisdlc.Errors.{Error}
use aisdlc.Store.{ObjectId}
use aisdlc.Collections.{DeploymentStatus}
use aisdlc.Registry.Branches.{parse_owner_and_repo, matches_allowed_branch, is_name_unit}
use aisdlc.Registry.RoundTrip.{clone_url, parse-clone_url}
use aisdlc.GithubApp.Client.{Repo}
use aisdlc.GithubApp.Access.{authorize_repository_access, extract_installation_id}
use aisdlc.GithubApp.Authorized.{Authorization, authorize_repository_access-Authorization}
use aisdlc.Publish.BranchName.{aisdlc_branch_prefix}
use aisdlc.Publish.Records.{PublishSuccess, PublishResult, published_as}
use aisdlc.Publish.Content.{
  commit_subject, build_commit_message, build_pull_request_content, PublishIdentifiers,
}
use aisdlc.Publish.Bounded.{commit_subject-bound, with_other_contents, publish_content-Independent}
use aisdlc.Publish.Build.{Stop}
use aisdlc.Publish.Push.{push_branch}
use aisdlc.Publish.Pushed.{SeenAt, push_branch-SeenAt}
use aisdlc.Publish.Confined.{IsConfined}
use aisdlc.Publish.Valid.{validate_branch_name-inside}
use aisdlc.Publish.Service.{execute, publish_approved_changes}
use aisdlc.Publish.Published.{Justified, execute-Justified}
use aisdlc.Publish.Contained.{publish_approved_changes-Keeps}
use aisdlc.Access.{find_one_and_update, insert_or_winner}
use aisdlc.AuditLog.{append, require_non_empty}
use aisdlc.Coding.PathSafety.{validate_path}
use aisdlc.Publish.Publications.{publication_entry}
use aisdlc.Deploy.Deployments.{claim, start, detected_entry}
use aisdlc.Deploy.Claimed.{deployments, OneDeploymentPerId, claim-once}
use aisdlc.Deploy.Lifecycle.{AllLive}
use aisdlc.Deploy.Service.{run_deployment}
use aisdlc.Deploy.Followed.{run_deployment-AllLive}
use aisdlc.Deploy.Detection.{detect_one, detect_merged_pull_requests, found_merged}
use aisdlc.Deploy.Detected.{IsMerged, detect_one-IsMerged}
use aisdlc.Deploy.Passed.{HasDeployment, detect_merged_pull_requests-recorded}
use aisdlc.Pipeline.RunStage.{RunStage, RunStatusInputs, compute_run_status}
use aisdlc.Pipeline.Stages.{IsDelivered, compute_run_status-IsDelivered}
use aisdlc.Pipeline.Queues.{publish_succeeded_executions}
use aisdlc.Pipeline.Drained.{HasPublication, publish_succeeded_executions-settled}
use aisdlc.Site.{Site}
use aisdlc.Tests.Fixtures.{test_db, test_run, alone, test_text}
use aisdlc.Tests.ServiceFixtures.{
  ready_review, ready_execution, ready_selection, test_active, test_latest, test_hex,
  test_publication, test_deployment, ready_world, published_world, deploying_world, test_client,
  test_provider, ready_site, published_site, deploying_site, healthy,
}

parse-clone_url_example :
    (parse_owner_and_repo (clone_url (codes "acme") (codes "web"))
      ≡ some (codes "acme", codes "web"))
    × (parse_owner_and_repo (clone_url (codes "acme") (codes "web") ++ codes "/")
        ≡ some (codes "acme", codes "web"))
unfolding every is_name_unit is_empty
parse-clone_url_example = parse-clone_url (codes "acme") (codes "web") refl refl refl refl

abbrev long_summary : Text
long_summary =
    codes "a summary that is a good deal longer than the seventy-two characters of the subject"

commit_subject-bound_example : length (commit_subject long_summary) ≤ 72
commit_subject-bound_example = commit_subject-bound long_summary

abbrev test_ids : PublishIdentifiers
test_ids = record { run_id = 7; review_id = 3; execution_id = 9 }

abbrev secret : Text
secret = codes "secret"

publish_content-Independent_example :
    (build_commit_message test_hex (with_other_contents (λ c. secret) ready_review) test_ids
      ≡ build_commit_message test_hex ready_review test_ids)
    × (build_pull_request_content test_hex
          (with_other_contents (λ c. secret) ready_review)
          ready_execution
          test_ids
        ≡ build_pull_request_content test_hex ready_review ready_execution test_ids)
publish_content-Independent_example =
    publish_content-Independent test_hex ready_review ready_execution test_ids (λ c. secret)

authorize_repository_access-Authorization_example :
    Authorization test_client
      (test_active ready_world)
      ready_selection
      none
      []
      (authorize_repository_access test_client (test_active ready_world) ready_selection none [])
authorize_repository_access-Authorization_example =
    authorize_repository_access-Authorization test_client (test_active ready_world) ready_selection
      none []

abbrev test_target : Repo
test_target = record { installation_id = 5; owner = codes "o"; repo = codes "r" }

push_done :
    push_branch test_client test_target (codes "aisdlc/f/f") (codes "s") []
    ≡ (ok none, codes "aisdlc/f/f" ∷ [])
unfolding push_branch test_client
push_done = refl

push_branch-SeenAt_example :
    SeenAt test_client test_target (codes "aisdlc/f/f") (codes "s") (codes "aisdlc/f/f" ∷ [])
push_branch-SeenAt_example =
    push_branch-SeenAt test_client test_target (codes "aisdlc/f/f") (codes "s") []
      (codes "aisdlc/f/f" ∷ []) push_done

abbrev test_message : Stop → Text
test_message stop = codes "stopped"

abbrev published_run : Result Error PublishResult × Site test_db (List Text)
published_run =
    execute test_db test_client test_latest test_active test_hex test_text test_text test_message
      alone 5 6 7 9 ready_site

abbrev test_success : PublishSuccess
test_success = record {
  run_id = 7;
  execution_id = 9;
  review_id = 3;
  owner = codes "o";
  repo = codes "r";
  base_branch = codes "b";
  branch = codes "aisdlc/f/f";
  commit_sha = some (codes "s");
  pull_request_number = some 1;
  pull_request_url = some (codes "u");
}

publishes : published_run ≡ (ok (published_as test_success), published_run.1)
unfolding execute test_client ready_world test_db authorize_repository_access parse_owner_and_repo
    matches_allowed_branch extract_installation_id append require_non_empty validate_path
    insert_or_winner publication_entry
publishes = refl

execute-Justified_example :
    Justified test_db test_client test_latest test_active test_hex test_text test_text test_message
      alone 5 6 7 9 ready_world
execute-Justified_example =
    execute-Justified test_db test_client test_latest test_active test_hex test_text test_text
      test_message alone 5 6 7 9 ready_site published_run.1 test_success publishes

-- Every branch that was created lies in the namespace of the service.
abbrev AllInside : List Text → Type 0
AllInside created = All (λ branch. starts_with branch aisdlc_branch_prefix ≡ true) created

test_client-IsConfined : IsConfined test_client test_text AllInside
unfolding test_client
test_client-IsConfined = record {
  token = λ id. record { kept = λ r h. h };
  contents = λ t path ref. record { kept = λ r h. h };
  ref = λ t branch. record { kept = λ r h. ground arith };
  commit = λ t sha. record { kept = λ r h. h };
  tree = λ t base files. record { kept = λ r h. h };
  new_commit = λ t message tree parents. record { kept = λ r h. h };
  branch = λ t name sha base valid. record {
    kept = λ r h. ((validate_branch_name-inside test_text name base valid).0, h);
  };
  pull_request = λ t input valid. record { kept = λ r h. h };
  find_pull_request = λ t head base. record { kept = λ r h. h };
}

publish_approved_changes-Keeps_example :
    AllInside
      (publish_approved_changes test_db test_client test_latest test_active test_hex test_text
        test_text test_message alone 5 6 7 9 ready_site).1.remote
publish_approved_changes-Keeps_example =
    publish_approved_changes-Keeps test_db test_client test_latest test_active test_hex test_text
      test_text test_message alone 5 6 7 9 AllInside test_client-IsConfined ready_site tt

claims :
    claim test_db 5 11 deploying_world
    ≡ (ok (some (start 5 test_deployment)), (claim test_db 5 11 deploying_world).1)
unfolding claim deploying_world test_db find_one_and_update
claims = refl

one_deployment : OneDeploymentPerId (deployments test_db deploying_world)
unfolding any deploying_world test_db
one_deployment = (refl, tt)

claim-once_example : (claim test_db 6 11 (claim test_db 5 11 deploying_world).1).0 ≡ ok none
claim-once_example =
    claim-once test_db 5 6 11 deploying_world (claim test_db 5 11 deploying_world).1
      (start 5 test_deployment) one_deployment claims

run_deployment-AllLive_example : AllLive (deployments test_db deploying_world) (
    deployments test_db
      (run_deployment test_db test_provider test_hex
        (codes "mock")
        (codes "t")
        5
        6
        11
        7
        deploying_site).1.world)
run_deployment-AllLive_example =
    run_deployment-AllLive test_db test_provider test_hex (codes "mock") (codes "t") 5 6 11 7
      deploying_site one_deployment

detects : detect_one test_db test_client test_active alone 5 6 test_publication published_site ≡ (
  ok found_merged,
  (detect_one test_db test_client test_active alone 5 6 test_publication published_site).1,
)
unfolding detect_one published_world test_client test_db authorize_repository_access
    parse_owner_and_repo matches_allowed_branch extract_installation_id append require_non_empty
    insert_or_winner detected_entry
detects = refl

detect_one-IsMerged_example :
    IsMerged test_db test_client test_active alone 5 6 test_publication published_world
detect_one-IsMerged_example =
    detect_one-IsMerged test_db test_client test_active alone 5 6 test_publication published_site
      (detect_one test_db test_client test_active alone 5 6 test_publication published_site).1
      detects

has_deployment :
    HasDeployment test_db test_client test_active alone 5 6 deploying_world test_publication
unfolding any deploying_world test_db
has_deployment = refl

detect_merged_pull_requests-recorded_example :
    detect_merged_pull_requests test_db test_client test_active alone 5 6
      (test_publication ∷ [])
      deploying_site
    ≡ (
      record {
        examined = 1;
        merged = 0;
        closed_unmerged = 0;
        still_open = 0;
        already_recorded = 1;
        failed = 0;
      },
      deploying_site,
    )
detect_merged_pull_requests-recorded_example =
    detect_merged_pull_requests-recorded test_db test_client test_active alone 5 6
      (test_publication ∷ []) deploying_site (has_deployment, tt)

abbrev test_inputs : RunStatusInputs
test_inputs = record {
  run = test_run;
  selection = some ready_selection;
  review = some ready_review;
  execution = some ready_execution;
  publication = some test_publication;
  deployment =
      some
        (record test_deployment { status = DeploymentStatus.succeeded; validation = some healthy });
}

delivers : (compute_run_status test_inputs).stage ≡ RunStage.deployed
unfolding compute_run_status
delivers = refl

compute_run_status-IsDelivered_example : IsDelivered test_inputs
compute_run_status-IsDelivered_example = compute_run_status-IsDelivered test_inputs delivers

abbrev test_publish :
    (run_id execution_id : ObjectId) → Action (Site test_db (List Text)) Error PublishResult
test_publish run_id execution_id =
    publish_approved_changes test_db test_client test_latest test_active test_hex test_text
      test_text test_message alone 5 6 run_id execution_id

has_publication : HasPublication test_db test_publish published_world ready_execution
unfolding any published_world test_db
has_publication = refl

publish_succeeded_executions-settled_example :
    publish_succeeded_executions test_db test_publish (ready_execution ∷ []) published_site
    ≡ (record { examined = 1; completed = 0; already_done = 1; failed = 0 }, published_site)
publish_succeeded_executions-settled_example =
    publish_succeeded_executions-settled test_db test_publish (ready_execution ∷ []) published_site
      (has_publication, tt)
