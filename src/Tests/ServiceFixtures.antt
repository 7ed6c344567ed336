-- ===== src/Tests/ServiceFixtures.antt =====
-- Concrete data for the tests of the services: GitHub as the list of the branches that were created.
use aisdlc.Prelude.{true, List, [], ◌∷◌, any, none, some, Option, if◌then◌else◌}
use aisdlc.Text.{Text, codes, same}
use aisdlc.Json.{object, field, end, finite}
use aisdlc.Store.{ObjectId}
use aisdlc.Collections.{
  ChangeReviewStatus, ChangeExecutionStatus, RepositorySelectionStatus, RepositoryRegistryStatus,
  GithubPublicationStatus, DeploymentStatus,
}
use aisdlc.Documents.{ChangeReview, ChangeExecution, RepositorySelection}
use aisdlc.Db.{World}
use aisdlc.Registry.Records.{RegistryEntry}
use aisdlc.GithubApp.Client.{
  Answer, answered, refused_with, GithubAppClient, GithubAccessFailureKind,
}
use aisdlc.Publish.Records.{GithubPublication}
use aisdlc.Deploy.Records.{Deployment, PostDeploymentValidationSummary}
use aisdlc.Deploy.Service.{DeploymentProvider, acceptable, deploy_done, DeploymentProviderStatus}
use aisdlc.Site.{Site}
use aisdlc.Tests.Fixtures.{test_db, test_world, test_review, test_selection}

abbrev pub ready_review : ChangeReview
ready_review = record test_review {
  status = ChangeReviewStatus.approved;
  reviewed_by = some (codes "operator:kim");
  reviewed_at = some 2;
}

abbrev pub ready_execution : ChangeExecution
ready_execution = record {
  id = 9;
  run_id = 7;
  review_id = 3;
  proposal_hash = codes "h";
  status = ChangeExecutionStatus.succeeded;
  applied_changes = [];
  validation = none;
  failure_category = none;
  failure_message = none;
  created_at = 3;
  completed_at = some 3;
}

abbrev pub ready_selection : RepositorySelection
ready_selection = record test_selection {
  status = RepositorySelectionStatus.selected;
  selected_repository_id = some (codes "r");
  selected_repository_url = some (codes "https://github.com/o/r.git");
  selected_default_branch = some (codes "b");
  selected_allowed_branches = some (codes "b" ∷ []);
}

abbrev pub test_entry : RegistryEntry
test_entry = record {
  id = 6;
  project_identifier = codes "p";
  repository_id = codes "r";
  repository_url = codes "https://github.com/o/r.git";
  default_branch = codes "b";
  allowed_branches = codes "b" ∷ [];
  status = RepositoryRegistryStatus.active;
  access_policy = some (object (field (codes "installationId") (finite (codes "5")) end));
  created_at = 1;
  updated_at = 1;
  created_by = codes "operator:kim";
  updated_by = codes "operator:kim";
}

abbrev pub test_active : World test_db → Text → List RegistryEntry
test_active w project = test_entry ∷ []

abbrev pub test_latest : World test_db → ObjectId → Option ChangeReview
test_latest w run_id = some ready_review

abbrev pub test_hex : ObjectId → Text
test_hex id = codes "f"

abbrev pub test_publication : GithubPublication
test_publication = record {
  id = 8;
  run_id = 7;
  review_id = 3;
  execution_id = 9;
  owner = codes "o";
  repo = codes "r";
  base_branch = codes "b";
  branch = codes "aisdlc/f/f";
  base_sha = some (codes "s");
  commit_sha = some (codes "s");
  status = GithubPublicationStatus.published;
  pull_request_number = some 1;
  pull_request_url = some (codes "u");
  failure_category = none;
  failure_message = none;
  created_at = 4;
  completed_at = some 4;
}

abbrev pub test_deployment : Deployment
test_deployment = record {
  id = 11;
  run_id = 7;
  execution_id = 9;
  publication_id = 8;
  owner = codes "o";
  repo = codes "r";
  pull_request_number = 1;
  merge_commit_sha = some (codes "m");
  status = DeploymentStatus.eligible;
  provider = none;
  target = none;
  deployment_identifier = none;
  validation = none;
  failure_category = none;
  failure_message = none;
  created_at = 5;
  started_at = none;
  completed_at = none;
}

unfoldable pub ready_world : World test_db
unfolding test_db test_world
ready_world = record test_world {
  repository_selections = ready_selection ∷ [];
  change_reviews = ready_review ∷ [];
  change_executions = ready_execution ∷ [];
}

unfoldable pub published_world : World test_db
unfolding test_db ready_world
published_world = record ready_world { github_publications = test_publication ∷ [] }

unfoldable pub deploying_world : World test_db
unfolding test_db published_world
deploying_world = record published_world { deployments = test_deployment ∷ [] }

-- A branch points at the only commit there is, where it is the base or was created.
abbrev pub test_ref : Text → List Text → Answer Text × List Text
test_ref branch created =
    if any (same branch) (codes "b" ∷ created)
    then (answered (codes "s"), created)
    else (refused_with GithubAccessFailureKind.branch_not_found, created)

unfoldable pub test_client : GithubAppClient (List Text)
unfolding any same
test_client = record {
  get_installation_token = λ id r. (answered (codes "t"), r);
  get_file_contents = λ t path ref r. (refused_with GithubAccessFailureKind.file_not_found, r);
  get_ref = λ t branch r. test_ref branch r;
  get_commit = λ t sha r. (answered (codes "e"), r);
  create_tree = λ t base files r. (answered (codes "e"), r);
  create_commit = λ t message tree parents r. (answered (codes "s"), r);
  create_branch = λ t branch sha r. (answered tt, branch ∷ r);
  create_pull_request = λ t input r. (answered (record { number = 1; html_url = codes "u" }), r);
  find_pull_request_for_branch = λ t head base r. (answered none, r);
  get_pull_request = λ t number r. (
    answered (record {
      state = codes "closed";
      merged = true;
      merge_commit_sha = some (codes "m");
      head_ref = codes "aisdlc/f/f";
      base_ref = codes "b";
    }),
    r,
  );
}

abbrev pub healthy : PostDeploymentValidationSummary
healthy = record {
  health = record { passed = true; summary = [] };
  readiness = record { passed = true; summary = [] };
}

unfoldable pub test_provider : DeploymentProvider (List Text)
test_provider = record {
  validate_deployment = λ request r. (acceptable, r);
  deploy = λ request r. (deploy_done, r);
  get_deployment_status = λ identifier r. (DeploymentProviderStatus.unknown, r);
  validate = λ request identifier r. (healthy, r);
}

abbrev pub ready_site : Site test_db (List Text)
ready_site = record { world = ready_world; remote = [] }

abbrev pub published_site : Site test_db (List Text)
published_site = record { world = published_world; remote = codes "aisdlc/f/f" ∷ [] }

abbrev pub deploying_site : Site test_db (List Text)
deploying_site = record { world = deploying_world; remote = codes "aisdlc/f/f" ∷ [] }
