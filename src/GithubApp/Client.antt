-- ===== src/GithubApp/Client.antt =====
-- src/github-app/client.ts: GitHubAppClient. GitHub itself is a parameter: a call is given what the
-- remote side is at the moment, and gives its answer and what the remote side is afterwards (also
-- what others did there in the meantime).
use aisdlc.Prelude.{ℕ, Bool, true, false, List, Option}
use aisdlc.Text.{Text}

pub data GithubAccessFailureKind : Type 0 where
  selection_not_confirmed unsupported_repository_url : GithubAccessFailureKind
  repository_inactive invalid_installation_configuration : GithubAccessFailureKind
  branch_not_allowed installation_not_found branch_not_found : GithubAccessFailureKind
  file_not_found authentication_failed insufficient_permission : GithubAccessFailureKind
  rate_limited timeout transient malformed : GithubAccessFailureKind
  unexpected_redirect ref_already_exists : GithubAccessFailureKind
  pull_request_already_exists : GithubAccessFailureKind

unfoldable pub is_retryable : GithubAccessFailureKind → Bool
is_retryable GithubAccessFailureKind.rate_limited = true
is_retryable GithubAccessFailureKind.transient = true
is_retryable GithubAccessFailureKind.timeout = true
is_retryable _ = false

-- The message of a failure is for people only and is left out.
pub data Answer (A : Type 0) : Type 0 where
  answered : A → Answer A
  refused_with : GithubAccessFailureKind → Answer A

pub record TreeFileEntry : Type 0 where
  pub path : Text
  pub content : Text

pub record PullRequestSummary : Type 0 where
  pub number : ℕ
  pub html_url : Text

pub record PullRequestInput : Type 0 where
  pub title : Text
  pub body : Text
  pub head : Text
  pub base : Text

pub record PullRequestDetails : Type 0 where
  pub state : Text
  pub merged : Bool
  pub merge_commit_sha : Option Text
  pub head_ref : Text
  pub base_ref : Text

abbrev pub Call : Type 0 → Type 0 → Type 0
Call R A = R → Answer A × R

-- A repository on GitHub, and the installation that the calls are made for.
pub record Repo : Type 0 where
  pub installation_id : ℕ
  pub owner : Text
  pub repo : Text

-- The calls that the modelled services make. There is none that merges.
pub record GithubAppClient (R : Type 0) : Type 0 where
  pub get_installation_token : ℕ → Call R Text
  pub get_file_contents : Repo → (path ref : Text) → Call R Text
  pub get_ref : Repo → (branch : Text) → Call R Text
  pub get_commit : Repo → (sha : Text) → Call R Text
  pub create_tree : Repo → (base_tree_sha : Text) → List TreeFileEntry → Call R Text
  pub create_commit : Repo → (message tree_sha : Text) → (parent_shas : List Text) → Call R Text
  pub create_branch : Repo → (branch sha : Text) → Call R (Unit {0})
  pub create_pull_request : Repo → PullRequestInput → Call R PullRequestSummary
  pub find_pull_request_for_branch : Repo → (head base : Text) → Call R (Option PullRequestSummary)
  pub get_pull_request : Repo → (number : ℕ) → Call R PullRequestDetails
