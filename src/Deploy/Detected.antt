-- ===== src/Deploy/Detected.antt =====
-- When src/deployment/pr-merge-detection.ts takes a pull request for merged.
use aisdlc.Prelude.{
  ◌≡◌, refl, arith, sym, true, false, ◌&&◌, &&-split, Bool-cases, Option-cases, inl, inr, List, ℕ,
  Option, some, none, first, subst,
}
use aisdlc.Effect.{ok}
use aisdlc.Text.{Text, same, codes}
use aisdlc.Text.Laws.{same→eq}
use aisdlc.Db.{Db, World}
use aisdlc.Documents.{RepositorySelection}
use aisdlc.Registry.Records.{RegistryEntry}
use aisdlc.GithubApp.Client.{
  Answer, answered, refused_with, Repo, GithubAppClient, PullRequestDetails,
}
use aisdlc.GithubApp.Access.{AuthorizedRepositoryAccess, authorize_repository_access}
use aisdlc.GithubApp.Authorized.{
  IsCovered, Authorization, refused_before, token_refused, token_issued,
  authorize_repository_access-Authorization,
}
use aisdlc.Publish.Records.{GithubPublication}
use aisdlc.Publish.Verify.{selects_for}
use aisdlc.Site.{Site, on_remote, ask}
use aisdlc.Deploy.Deployments.{closed, InitialStatus}
use aisdlc.Deploy.Detection.{
  DetectOutcome, found_merged, found_closed, is_of_publication, record_as, after_merge,
  after_pull_request, after_access, after_selection, detect_number, detect_one,
}

module _ (db : Db) {R : Type 0} (client : GithubAppClient R)
    (active : World db → Text → List RegistryEntry) (step : World db → World db) (now audit_now : ℕ)
    (publication : GithubPublication) where
  -- The answer of GitHub about the pull request of the publication.
  pub record SaysMerged (pr : PullRequestDetails) : Type 0 where
    pub sha : Text
    pub head : pr.head_ref ≡ publication.branch
    pub base : pr.base_ref ≡ publication.base_branch
    pub not_open : same pr.state (codes "open") ≡ false
    pub is_merged : pr.merged ≡ true
    pub commit : pr.merge_commit_sha ≡ some sha

  pub record IsMerged (w : World db) : Type 0 where
    pub number : ℕ
    pub selection : RepositorySelection
    pub target : Repo
    pub at : Text
    pub pr : PullRequestDetails
    pub asked_at : R
    pub left_at : R
    pub numbered : publication.pull_request_number ≡ some number
    pub selected :
        first
          (selects_for publication.run_id)
          (db.repository_selections.docs w.repository_selections)
        ≡ some selection
    pub covered : IsCovered client (active w) selection none target at
    pub same_owner : target.owner ≡ publication.owner
    pub same_repo : target.repo ≡ publication.repo
    pub answer : client.get_pull_request target number asked_at ≡ (answered pr, left_at)
    pub says_merged : SaysMerged pr

  module _ (number : ℕ) where
    record_as-same :
        (sha : Option Text) (status : InitialStatus) (outcome : DetectOutcome) (s s' : Site db R)
        → record_as db client active step now audit_now publication number sha status outcome s
          ≡ (ok found_merged, s')
        → outcome ≡ found_merged
    unfolding record_as
    record_as-same sha status outcome s s' h = ground arith

    of_publication-refs :
        (pr : PullRequestDetails)
        → is_of_publication publication pr ≡ true
        → (pr.head_ref ≡ publication.branch) × (pr.base_ref ≡ publication.base_branch)
    unfolding is_of_publication
    of_publication-refs pr h =
        let (head, base) = &&-split _ _ h in
        (
          same→eq pr.head_ref publication.branch head,
          same→eq pr.base_ref publication.base_branch base,
        )

    pull_request-SaysMerged :
        (answer : Answer PullRequestDetails) (s s' : Site db R)
        → after_pull_request db client active step now audit_now publication number answer s
          ≡ (ok found_merged, s')
        → (pr : PullRequestDetails) × (answer ≡ answered pr) × SaysMerged pr
    unfolding after_pull_request
    pull_request-SaysMerged (refused_with kind) s s' h = cc
    pull_request-SaysMerged (answered pr) s s' h =
        elim (Bool-cases (is_of_publication publication pr)) [
          | inr other ↦ cc (rw (after_pull_request, other) at h)
          | inl mine ↦ elim (Bool-cases (same pr.state (codes "open"))) [
            | inl open_state ↦ cc (rw (after_pull_request, mine, open_state) at h)
            | inr not_open ↦ elim (Bool-cases pr.merged) [
              | inr unmerged ↦
                  let e =
                    record_as-same none closed found_closed s s'
                      (rw (after_pull_request, mine, not_open, unmerged) at h) in
                  cc
              | inl is_merged ↦ elim (Option-cases pr.merge_commit_sha) [
                | inl no_commit ↦ cc (
                    rw (after_pull_request, mine, not_open, is_merged, no_commit, after_merge) at h)
                | inr (sha, commit) ↦
                    let (head, base) = of_publication-refs pr mine in
                    (
                      pr,
                      refl,
                      record {
                        sha = sha;
                        head = head;
                        base = base;
                        not_open = not_open;
                        is_merged = is_merged;
                        commit = commit;
                      },
                    )
              ]
            ]
          ]
        ]

    access-SaysMerged :
        (answer : Answer AuthorizedRepositoryAccess) (s s' : Site db R)
        → after_access db client active step now audit_now publication number answer s
          ≡ (ok found_merged, s')
        → (access : AuthorizedRepositoryAccess) × (answer ≡ answered access)
          × (access.target.owner ≡ publication.owner)
          × (access.target.repo ≡ publication.repo)
          × (pr : PullRequestDetails) × ((client.get_pull_request access.target number s.remote).0
              ≡ answered pr)
          × SaysMerged pr
    unfolding after_access on_remote ask
    access-SaysMerged (refused_with kind) s s' h = cc
    access-SaysMerged (answered access) s s' h =
        elim (Bool-cases (
          same access.target.owner publication.owner && same access.target.repo publication.repo)) [
            | inr other ↦ cc (rw (after_access, other) at h)
            | inl mine ↦
                let (owner, repo) = &&-split _ _ mine in
                let (pr, e, says) =
                  pull_request-SaysMerged (client.get_pull_request access.target number s.remote).0
                    (record s {
                      remote = (client.get_pull_request access.target number s.remote).1;
                    })
                    s' (rw (after_access, mine) at h) in
                (
                  access,
                  refl,
                  same→eq access.target.owner publication.owner owner,
                  same→eq access.target.repo publication.repo repo,
                  pr,
                  e,
                  says,
                )
          ]

    selection-IsMerged :
        publication.pull_request_number ≡ some number
        → (found : Option RepositorySelection) (s s' : Site db R)
        → first
            (selects_for publication.run_id)
            (db.repository_selections.docs s.world.repository_selections)
          ≡ found
        → after_selection db client active step now audit_now publication number found s
          ≡ (ok found_merged, s')
        → IsMerged s.world
    unfolding after_selection on_remote ask
    selection-IsMerged numbered none s s' found h = cc
    selection-IsMerged numbered (some selection) s s' found h =
        go (authorize_repository_access client (active s.world) selection none s.remote)
          (authorize_repository_access-Authorization client (active s.world) selection none
            s.remote)
          h
      where
        go :
            (out : Answer AuthorizedRepositoryAccess × R)
            → Authorization client (active s.world) selection none s.remote out
            → after_access db client active step now audit_now publication number out.0
                (record s { remote = out.1 })
              ≡ (ok found_merged, s')
            → IsMerged s.world
        go out (refused_before kind) k = cc
        go out (token_refused target at kind r' covered e) k = cc
        go out (token_issued target at token r' covered e) k =
            let (access, issued, owner, repo, pr, answer, says) =
              access-SaysMerged (answered (record { target = target; token = token; branch = at }))
                (record s { remote = r' }) s' k in
            let same_target : access.target ≡ target = ground arith in
            let asked =
              subst (λ t. (client.get_pull_request t number r').0 ≡ answered pr) same_target
                answer in
            record {
              number = number;
              selection = selection;
              target = target;
              at = at;
              pr = pr;
              asked_at = r';
              left_at = (client.get_pull_request target number r').1;
              numbered = numbered;
              selected = found;
              covered = covered;
              same_owner = ground arith;
              same_repo = ground arith;
              answer = λ i. (asked i, (client.get_pull_request target number r').1);
              says_merged = says;
            }

  number-IsMerged :
      (number : Option ℕ) (s s' : Site db R)
      → publication.pull_request_number ≡ number
      → detect_number db client active step now audit_now publication number s
        ≡ (ok found_merged, s')
      → IsMerged s.world
  unfolding detect_number
  number-IsMerged none s s' e h = cc
  number-IsMerged (some number) s s' e h =
      selection-IsMerged number e _ s s'
        (sym (
          db.repository_selections.find_one_lem (selects_for publication.run_id)
            s.world.repository_selections))
        h

  -- If a pull request is taken for merged, then the publication has a number, the run's
  -- repository selection is confirmed and authorises the repository of the publication, and
  -- GitHub answered for that number with a pull request from the published branch into the
  -- published base branch that is not open, is merged and has a merge commit.
  pub detect_one-IsMerged :
      (s s' : Site db R)
      → detect_one db client active step now audit_now publication s ≡ (ok found_merged, s')
      → IsMerged s.world
  unfolding detect_one
  detect_one-IsMerged s s' h = number-IsMerged _ s s' refl h
