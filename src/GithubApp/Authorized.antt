-- ===== src/GithubApp/Authorized.antt =====
-- What authorizeRepositoryAccess of src/github-app/access.ts lets through, and what it asks of GitHub.
use aisdlc.Prelude.{
  ◌≡◌, refl, arith, true, inl, inr, Bool-cases, Option-cases, List, Option, some, subst, sym, ap,
  ◌∙◌,
}
use aisdlc.Text.{Text}
use aisdlc.Collections.{RepositorySelectionStatus}
use aisdlc.Documents.{RepositorySelection}
use aisdlc.Registry.Records.{RegistryEntry}
use aisdlc.Registry.Branches.{parse_owner_and_repo, matches_allowed_branch}
use aisdlc.GithubApp.Client.{
  GithubAccessFailureKind, Answer, answered, refused_with, Repo, GithubAppClient,
}
use aisdlc.GithubApp.Access.{
  AuthorizedRepositoryAccess, authorize_repository_access, check_url, check_branch, check_entry,
  request_token, entry_of, extract_installation_id, parsed, is_selected, first_given, or_empty,
}

module _ {R : Type 0} (client : GithubAppClient R) (active : Text → List RegistryEntry)
    (selection : RepositorySelection) (branch : Option Text) where
  -- What has to hold where the token is asked for.
  pub record IsCovered (target : Repo) (at : Text) : Type 0 where
    pub url : Text
    pub entry : RegistryEntry
    pub confirmed : selection.status ≡ RepositorySelectionStatus.selected
    pub selected_url : selection.selected_repository_url ≡ some url
    pub named : parse_owner_and_repo url ≡ some (target.owner, target.repo)
    pub chosen : first_given branch selection.selected_default_branch ≡ some at
    pub allowed : matches_allowed_branch at (or_empty selection.selected_allowed_branches) ≡ true
    pub registered : entry_of active selection ≡ some entry
    pub installed : extract_installation_id entry.access_policy ≡ some target.installation_id

  pub data Authorization (r : R) : Answer AuthorizedRepositoryAccess × R → Type 0 where
    -- A refusal of our own, with no call of GitHub.
    refused_before : (kind : GithubAccessFailureKind) → Authorization r (refused_with kind, r)
    -- GitHub refused the token.
    token_refused :
        (target : Repo) (at : Text) (kind : GithubAccessFailureKind) (r' : R)
        → IsCovered target at
        → client.get_installation_token target.installation_id r ≡ (refused_with kind, r')
        → Authorization r (refused_with kind, r')
    token_issued :
        (target : Repo) (at token : Text) (r' : R)
        → IsCovered target at
        → client.get_installation_token target.installation_id r ≡ (answered token, r')
        → Authorization r (answered (record { target = target; token = token; branch = at }), r')

  selected_status :
      (s : RepositorySelectionStatus)
      → is_selected s ≡ true
      → s ≡ RepositorySelectionStatus.selected
  selected_status s h = ground arith

  -- The answer of GitHub, where every check has passed.
  after-checks :
      (target : Repo) (at : Text) (r : R) (answer : Answer Text × R)
      → IsCovered target at
      → client.get_installation_token target.installation_id r ≡ answer
      → Authorization r
          (request_token client target.owner target.repo at (some target.installation_id) r)
  unfolding request_token
  after-checks target at r (refused_with kind, r') covered e =
      rw (request_token, e) (token_refused target at kind r' covered e)
  after-checks target at r (answered token, r') covered e =
      rw (request_token, e) (token_issued target at token r' covered e)

  module _ (confirmed : selection.status ≡ RepositorySelectionStatus.selected) (url : Text)
      (selected_url : selection.selected_repository_url ≡ some url) (owner repo : Text)
      (named : parse_owner_and_repo url ≡ some (owner, repo)) where
    after-branch :
        (at : Text) (r : R)
        → first_given branch selection.selected_default_branch ≡ some at
        → matches_allowed_branch at (or_empty selection.selected_allowed_branches) ≡ true
        → Authorization r (check_entry client owner repo at (entry_of active selection) r)
    unfolding check_entry
    after-branch at r chosen allowed = elim (Option-cases (entry_of active selection)) [
      | inl inactive ↦
          rw (inactive, check_entry) (refused_before GithubAccessFailureKind.repository_inactive)
      | inr (entry, registered) ↦
          elim (Option-cases (extract_installation_id entry.access_policy)) [
            | inl unset ↦
                rw (registered, check_entry, unset, request_token)
                  (refused_before GithubAccessFailureKind.invalid_installation_configuration)
            | inr (id, installed) ↦
                rw (registered, check_entry, installed)
                  (after-checks (record { installation_id = id; owner = owner; repo = repo }) at r
                    (client.get_installation_token id r)
                    (record {
                      url = url;
                      entry = entry;
                      confirmed = confirmed;
                      selected_url = selected_url;
                      named = named;
                      chosen = chosen;
                      allowed = allowed;
                      registered = registered;
                      installed = installed;
                    })
                    refl)
          ]
    ]

    after-url :
        (r : R)
        → Authorization r (
            check_branch client active selection owner repo
              (first_given branch selection.selected_default_branch)
              r)
    unfolding check_branch
    after-url r = elim (Option-cases (first_given branch selection.selected_default_branch)) [
      | inl unset ↦
          rw (unset, check_branch) (refused_before GithubAccessFailureKind.branch_not_allowed)
      | inr (at, chosen) ↦
          elim (Bool-cases
            (matches_allowed_branch at (or_empty selection.selected_allowed_branches))) [
              | inl allowed ↦ rw (chosen, check_branch, allowed) (after-branch at r chosen allowed)
              | inr other ↦
                  rw (chosen, check_branch, other)
                    (refused_before GithubAccessFailureKind.branch_not_allowed)
            ]
    ]

  abbrev Checked : R → Option (Text × Text) → Type 0
  Checked r answer = Authorization r (check_url client active selection branch answer r)

  after-status :
      (r : R)
      → selection.status ≡ RepositorySelectionStatus.selected
      → Checked r (parsed selection.selected_repository_url)
  unfolding check_url
  after-status r confirmed = elim (Option-cases selection.selected_repository_url) [
    | inl no_url ↦
        subst (Checked r) (sym (ap parsed no_url))
          (refused_before GithubAccessFailureKind.unsupported_repository_url)
    | inr (url, selected_url) ↦ elim (Option-cases (parse_owner_and_repo url)) [
      | inl bad ↦
          subst (Checked r) (sym (ap parsed selected_url ∙ bad))
            (refused_before GithubAccessFailureKind.unsupported_repository_url)
      | inr ((owner, repo), named) ↦
          subst (Checked r) (sym (ap parsed selected_url ∙ named))
            (after-url confirmed url selected_url owner repo named r)
    ]
  ]

  -- authorizeRepositoryAccess ends in one of three ways: a refusal of its own, with GitHub not
  -- called; GitHub refuses the installation token; or it issues it. In the last two the selection
  -- is confirmed, the repository is the one its URL names, the branch is the chosen one and among
  -- its allowed branches, and the installation is that of the active registry entry; the access
  -- names that repository, installation and branch and carries the token that was issued.
  pub authorize_repository_access-Authorization :
      (r : R) → Authorization r (authorize_repository_access client active selection branch r)
  unfolding authorize_repository_access
  authorize_repository_access-Authorization r = elim (Bool-cases (is_selected selection.status)) [
    | inl status ↦
        rw (authorize_repository_access, status)
          (after-status r (selected_status selection.status status))
    | inr other ↦
        rw (authorize_repository_access, other)
          (refused_before GithubAccessFailureKind.selection_not_confirmed)
  ]
