-- ===== src/Publish/Cleared.antt =====
-- Laws of the checks of execute of src/github-publish/publish-service.ts.
use aisdlc.Prelude.{◌≡◌, ◌∙◌, sym, true, ℕ, Option, List, some, none, first, Option-cases, inl, inr}
use aisdlc.Effect.{ok}
use aisdlc.Text.{Text, same}
use aisdlc.Store.{ObjectId}
use aisdlc.Db.{Db, World}
use aisdlc.Collections.{ChangeReviewStatus, ChangeExecutionStatus}
use aisdlc.Documents.{ChangeReview, ChangeExecution, RepositorySelection}
use aisdlc.Execution.Reviews.{has_id}
use aisdlc.Execution.Eligibility.{is_same_review}
use aisdlc.Registry.Records.{RegistryEntry}
use aisdlc.GithubApp.Client.{Repo, GithubAppClient}
use aisdlc.GithubApp.Authorized.{IsCovered}
use aisdlc.Publish.Publications.{of_execution}
use aisdlc.Site.{Site}
use aisdlc.Publish.Verify.{cleared, has_execution_id, selects_for, verify_new, verify_publication}
use aisdlc.Publish.Checks.{review-cleared, execution-cleared}

module _ (db : Db) {R : Type 0} (client : GithubAppClient R)
    (latest : World db → ObjectId → Option ChangeReview)
    (active : World db → Text → List RegistryEntry) (audit_now : ℕ)
    (run_id execution_id : ObjectId) where
  -- What has to hold where an attempt starts.
  pub record IsCleared (w : World db) (execution : ChangeExecution) (review : ChangeReview)
      (target : Repo) : Type 0 where
    pub selection : RepositorySelection
    pub unpublished :
        first (of_execution execution_id) (db.github_publications.docs w.github_publications) ≡ none
    pub stored_execution :
        first (has_execution_id execution_id) (db.change_executions.docs w.change_executions)
        ≡ some execution
    pub of_the_run : execution.run_id ≡ run_id
    pub succeeded : execution.status ≡ ChangeExecutionStatus.succeeded
    pub stored_review :
        first (has_id execution.review_id) (db.change_reviews.docs w.change_reviews) ≡ some review
    pub approved : review.status ≡ ChangeReviewStatus.approved
    pub same_proposal : execution.proposal_hash ≡ review.proposal_hash
    pub newest : is_same_review review (latest w run_id) ≡ true
    pub selected :
        first (selects_for run_id) (db.repository_selections.docs w.repository_selections)
        ≡ some selection
    pub covered : IsCovered client (active w) selection none target review.branch
    pub same_owner : target.owner ≡ review.owner
    pub same_repo : target.repo ≡ review.repo

  -- If the checks let an attempt start, then all of their conditions hold.
  pub verify_publication-IsCleared :
      (execution : ChangeExecution) (review : ChangeReview) (target : Repo) (s s' : Site db R)
      → verify_publication db client latest active audit_now run_id execution_id s
        ≡ (ok (cleared execution review target), s')
      → IsCleared s.world execution review target
  unfolding verify_publication verify_new
  verify_publication-IsCleared execution review target s s' h =
      let look =
        db.github_publications.find_one_lem (of_execution execution_id)
          s.world.github_publications in
      elim (Option-cases (
        first (of_execution execution_id)
          (db.github_publications.docs s.world.github_publications))) [
            | inr (publication, there) ↦ cc (rw (verify_publication, look, there, verify_new) at h)
            | inl unpublished ↦
                let (stored, mine, done, rest) =
                  execution-cleared db client latest active audit_now run_id execution_id _ s
                    (rw (verify_publication, look, unpublished, verify_new) at h) in
                let (
                  reviewed, approved, hash, newest, selection, chosen, covered, owner, repo, same,
                ) =
                  review-cleared db client latest active audit_now run_id execution_id execution _ s
                    rest in
                record {
                  selection = selection;
                  unpublished = unpublished;
                  stored_execution =
                      sym (
                        db.change_executions.find_one_lem (has_execution_id execution_id)
                          s.world.change_executions)
                      ∙ stored;
                  of_the_run = mine;
                  succeeded = done;
                  stored_review =
                      sym (
                        db.change_reviews.find_one_lem (has_id execution.review_id)
                          s.world.change_reviews)
                      ∙ reviewed;
                  approved = approved;
                  same_proposal = hash;
                  newest = newest;
                  selected =
                      sym (
                        db.repository_selections.find_one_lem (selects_for run_id)
                          s.world.repository_selections)
                      ∙ chosen;
                  covered = covered;
                  same_owner = owner;
                  same_repo = repo;
                }
          ]
