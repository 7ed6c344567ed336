-- ===== src/GithubApp/Access.antt =====
-- src/github-app/access.ts: authorizeRepositoryAccess. Each check of our own comes before the one
-- call of GitHub, which asks for the installation token.
use aisdlc.Prelude.{
  Bool, true, false, ◌==◌, ◌+◌, ◌*◌, ◌-◌, every, first, if◌then◌else◌, List, ℕ, ◌∷◌, [], Option,
  some, none,
}
use aisdlc.Text.{Text, same, codes, is_empty}
use aisdlc.Json.{Value, finite, object, Fields, end, field}
use aisdlc.Regex.{is_digit}
use aisdlc.Collections.{RepositorySelectionStatus}
use aisdlc.Documents.{RepositorySelection}
use aisdlc.Registry.Records.{RegistryEntry}
use aisdlc.Registry.Branches.{parse_owner_and_repo, matches_allowed_branch}
use aisdlc.GithubApp.Client.{
  GithubAccessFailureKind, Answer, answered, refused_with, Call, Repo, GithubAppClient,
}

unfoldable pub decimal : ℕ → Text → ℕ
decimal n [] = n
decimal n (c ∷ s) = decimal (n * 10 + (c - b'0')) s

-- isValidInstallationId: a positive integer. JSON.stringify gives an integer below 10 ^ 21 by its
-- digits, and installation ids are far below that.
unfoldable pub positive_integer : Text → Option ℕ
unfolding every is_empty decimal
positive_integer s =
    if is_empty s
    then none
    else if every is_digit s
    then (let n = decimal 0 s in if n == 0 then none else some n)
    else none

-- `accessPolicy['installationId']`
unfoldable pub installation_field : Fields → Option ℕ
unfolding same positive_integer
installation_field end = none
installation_field (field key (finite s) rest) =
    if same key (codes "installationId") then positive_integer s else installation_field rest
installation_field (field key value rest) =
    if same key (codes "installationId") then none else installation_field rest

unfoldable pub extract_installation_id : Option Value → Option ℕ
unfolding installation_field
extract_installation_id (some (object fields)) = installation_field fields
extract_installation_id _ = none

pub record AuthorizedRepositoryAccess : Type 0 where
  pub target : Repo
  pub token : Text
  pub branch : Text

abbrev pub first_given : {A : Type 0} → Option A → Option A → Option A
first_given (some a) other = some a
first_given none other = other

abbrev pub or_empty : {A : Type 0} → Option (List A) → List A
or_empty none = []
or_empty (some l) = l

abbrev pub is_selected : RepositorySelectionStatus → Bool
is_selected RepositorySelectionStatus.selected = true
is_selected _ = false

unfoldable pub same_option : Text → Option Text → Bool
unfolding same
same_option t none = false
same_option t (some s) = same t s

abbrev pub parsed : Option Text → Option (Text × Text)
parsed none = none
parsed (some url) = parse_owner_and_repo url

-- `active` is what findActiveByProjectIdentifier gives for a project.
unfoldable pub entry_of : (Text → List RegistryEntry) → RepositorySelection → Option RegistryEntry
unfolding first same_option
entry_of active selection =
    first (λ e. same_option e.repository_id selection.selected_repository_id)
      (active selection.project_identifier)

module _ {R : Type 0} (client : GithubAppClient R) where
  after_token : Repo → (branch : Text) → Answer Text × R → Answer AuthorizedRepositoryAccess × R
  after_token target branch (refused_with kind, r) = (refused_with kind, r)
  after_token target branch (answered token, r) =
      (answered (record { target = target; token = token; branch = branch }), r)

  unfoldable pub request_token :
      (owner repo branch : Text) → Option ℕ → Call R AuthorizedRepositoryAccess
  unfolding after_token
  request_token owner repo branch none r =
      (refused_with GithubAccessFailureKind.invalid_installation_configuration, r)
  request_token owner repo branch (some id) r =
      after_token (record { installation_id = id; owner = owner; repo = repo }) branch
        (client.get_installation_token id r)

  unfoldable pub check_entry :
      (owner repo branch : Text) → Option RegistryEntry → Call R AuthorizedRepositoryAccess
  unfolding request_token
  check_entry owner repo branch none r =
      (refused_with GithubAccessFailureKind.repository_inactive, r)
  check_entry owner repo branch (some entry) r =
      request_token owner repo branch (extract_installation_id entry.access_policy) r

  module _ (active : Text → List RegistryEntry) (selection : RepositorySelection) where
    unfoldable pub check_branch :
        (owner repo : Text) → Option Text → Call R AuthorizedRepositoryAccess
    unfolding check_entry entry_of
    check_branch owner repo none r = (refused_with GithubAccessFailureKind.branch_not_allowed, r)
    check_branch owner repo (some branch) r =
        if matches_allowed_branch branch (or_empty selection.selected_allowed_branches)
        then check_entry owner repo branch (entry_of active selection) r
        else (refused_with GithubAccessFailureKind.branch_not_allowed, r)

    unfoldable pub check_url :
        Option Text → Option (Text × Text) → Call R AuthorizedRepositoryAccess
    unfolding check_branch
    check_url branch none r = (refused_with GithubAccessFailureKind.unsupported_repository_url, r)
    check_url branch (some (owner, repo)) r =
        check_branch owner repo (first_given branch selection.selected_default_branch) r

    -- authorizeRepositoryAccess; the argument is `options.branch`.
    unfoldable pub authorize_repository_access : Option Text → Call R AuthorizedRepositoryAccess
    unfolding check_url
    authorize_repository_access branch r =
        if is_selected selection.status
        then check_url branch (parsed selection.selected_repository_url) r
        else (refused_with GithubAccessFailureKind.selection_not_confirmed, r)
