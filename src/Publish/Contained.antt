-- ===== src/Publish/Contained.antt =====
-- What publishApprovedChanges of src/github-publish/publish-service.ts does to GitHub.
use aisdlc.Prelude.{
  Bool, true, false, not, ◌&&◌, ◌==◌, Option, some, none, List, ℕ, if◌then◌else◌, subst, Bool-cases,
  inr, inl,
}
use aisdlc.Effect.{Result, ok, err, Action, pure}
use aisdlc.Effect.Keeps.{Keeps, Keeps-pure, Keeps-if, Keeps-then, Keeps-map}
use aisdlc.Errors.{Error}
use aisdlc.Text.{Text, same}
use aisdlc.Store.{ObjectId}
use aisdlc.Db.{Db, World}
use aisdlc.Documents.{ChangeReview, ChangeExecution, RepositorySelection}
use aisdlc.Execution.Eligibility.{is_approved}
use aisdlc.Registry.Records.{RegistryEntry}
use aisdlc.GithubApp.Client.{Answer, answered, refused_with, GithubAppClient, is_retryable}
use aisdlc.GithubApp.Access.{AuthorizedRepositoryAccess, authorize_repository_access}
use aisdlc.GithubApp.Authorized.{
  Authorization, refused_before, token_refused, token_issued,
  authorize_repository_access-Authorization,
}
use aisdlc.Publish.Records.{GithubPublication, PublishFailureCategory, PublishResult, not_published}
use aisdlc.Site.{Site}
use aisdlc.Publish.Build.{Stop}
use aisdlc.Publish.Confined.{KeepsCall, IsConfined, Keeps-ask}
use aisdlc.Publish.Namespace.{Remotely, Keeps-on_world, Keeps-on_remote, attempt-Keeps}
use aisdlc.Publish.Verify.{
  Verdict, already_published, refused, cleared, refuse, fail_eligibility, verify_identity,
  verify_access, verify_latest, verify_review, verify_execution, verify_new, verify_publication,
  is_succeeded,
}
use aisdlc.Publish.Service.{after_verdict, execute, caught, publish_approved_changes}

module _ (db : Db) {R : Type 0} (client : GithubAppClient R)
    (latest : World db → ObjectId → Option ChangeReview)
    (active : World db → Text → List RegistryEntry) (audit_now : ℕ) (run_id execution_id : ObjectId)
    (P : R → Type 0) (token : (id : ℕ) → KeepsCall P (client.get_installation_token id)) where
  fail_eligibility-Keeps :
      (review_id : Option ObjectId) (category : PublishFailureCategory) (retryable : Bool)
      → Keeps (Remotely P) (
          fail_eligibility db client latest active audit_now run_id execution_id review_id category
            retryable)
  unfolding fail_eligibility
  fail_eligibility-Keeps review_id category retryable =
      Keeps-map
        (λ id. record {
          run_id = run_id;
          execution_id = some execution_id;
          review_id = review_id;
          category = category;
          retryable = retryable;
        })
        _ (Keeps-on_world P _)

  refuse-Keeps :
      (review_id : Option ObjectId) (category : PublishFailureCategory) (retryable : Bool)
      → Keeps (Remotely P) (
          refuse db client latest active audit_now run_id execution_id review_id category retryable)
  unfolding refuse
  refuse-Keeps review_id category retryable =
      Keeps-map refused _ (fail_eligibility-Keeps review_id category retryable)

  authorize-KeepsCall :
      (entries : Text → List RegistryEntry) (selection : RepositorySelection)
      → KeepsCall P (authorize_repository_access client entries selection none)
  authorize-KeepsCall entries selection = record {
    kept =
        λ r h. go r h _ (authorize_repository_access-Authorization client entries selection none r);
  }
    where
      go :
          (r : R)
          → P r
          → (out : Answer AuthorizedRepositoryAccess × R)
          → Authorization client entries selection none r out
          → P out.1
      go r h out (refused_before kind) = h
      go r h out (token_refused target at kind r' covered e) =
          subst (λ (o : Answer Text × R). P o.1) e ((token target.installation_id).kept r h)
      go r h out (token_issued target at issued r' covered e) =
          subst (λ (o : Answer Text × R). P o.1) e ((token target.installation_id).kept r h)

  module _ (execution : ChangeExecution) where
    identity-Keeps :
        (review : ChangeReview) (answer : Answer AuthorizedRepositoryAccess)
        → Keeps (Remotely P) (
            verify_identity db client latest active audit_now run_id execution_id execution review
              answer)
    unfolding verify_identity
    identity-Keeps review (refused_with kind) =
        refuse-Keeps (some review.id) PublishFailureCategory.repository_access_failure
          (is_retryable kind)
    identity-Keeps review (answered access) =
        Keeps-if
          (not (same access.target.owner review.owner && same access.target.repo review.repo))
          (refuse db client latest active audit_now run_id execution_id (some review.id)
            PublishFailureCategory.repository_mismatch false)
          (if not (same access.branch review.branch)
            then refuse db client latest active audit_now run_id execution_id (some review.id)
                PublishFailureCategory.branch_mismatch false
            else pure (cleared execution review access.target))
          (refuse-Keeps (some review.id) PublishFailureCategory.repository_mismatch false)
          (Keeps-if (not (same access.branch review.branch))
            (refuse db client latest active audit_now run_id execution_id (some review.id)
              PublishFailureCategory.branch_mismatch false)
            (pure (cleared execution review access.target))
            (refuse-Keeps (some review.id) PublishFailureCategory.branch_mismatch false)
            (Keeps-pure _))

    access-Keeps :
        (review : ChangeReview) (found : Option RepositorySelection)
        → Keeps (Remotely P) (
            verify_access db client latest active audit_now run_id execution_id execution review
              found)
    unfolding verify_access
    access-Keeps review none = record {
      at =
          (refuse-Keeps (some review.id) PublishFailureCategory.repository_access_failure false).at;
    }
    access-Keeps review (some selection) = record {
      at = λ s.
          (Keeps-then _ _
              (Keeps-on_remote P (Keeps-ask (authorize-KeepsCall (active s.world) selection)))
              (identity-Keeps review)).at
            s;
    }

    latest-Keeps :
        (review : ChangeReview) (newest : Bool)
        → Keeps (Remotely P) (
            verify_latest db client latest active audit_now run_id execution_id execution review
              newest)
    unfolding verify_latest
    latest-Keeps review false = record {
      at = (refuse-Keeps (some review.id) PublishFailureCategory.review_superseded false).at;
    }
    latest-Keeps review true = record { at = λ s. (access-Keeps review _).at s }

    review-Keeps :
        (found : Option ChangeReview)
        → Keeps
            (Remotely P)
            (verify_review db client latest active audit_now run_id execution_id execution found)
    unfolding verify_review
    review-Keeps none = record {
      at =
          (refuse-Keeps (some execution.review_id) PublishFailureCategory.review_not_found
            false).at;
    }
    review-Keeps (some review) = record {
      at = λ s h. elim (Bool-cases (is_approved review.status)) [
        | inr other ↦
            rw (verify_review, other)
              ((refuse-Keeps (some review.id) PublishFailureCategory.review_not_approved false).at s
                h)
        | inl approved ↦ elim (Bool-cases (same execution.proposal_hash review.proposal_hash)) [
          | inr other ↦
              rw (verify_review, approved, other)
                ((refuse-Keeps (some review.id) PublishFailureCategory.proposal_hash_mismatch
                    false).at
                  s h)
          | inl hash ↦ rw (verify_review, approved, hash) ((latest-Keeps review _).at s h)
        ]
      ];
    }

  execution-Keeps :
      (found : Option ChangeExecution)
      → Keeps
          (Remotely P)
          (verify_execution db client latest active audit_now run_id execution_id found)
  unfolding verify_execution
  execution-Keeps none = record {
    at = (refuse-Keeps none PublishFailureCategory.execution_not_found false).at;
  }
  execution-Keeps (some execution) = record {
    at = λ s h. elim (Bool-cases (execution.run_id == run_id)) [
      | inr other ↦
          rw (verify_execution, other)
            ((refuse-Keeps (some execution.review_id) PublishFailureCategory.execution_not_found
                false).at
              s h)
      | inl mine ↦ elim (Bool-cases (is_succeeded execution.status)) [
        | inr other ↦
            rw (verify_execution, mine, other)
              ((refuse-Keeps (some execution.review_id)
                  PublishFailureCategory.execution_not_succeeded false).at
                s h)
        | inl done ↦ rw (verify_execution, mine, done) ((review-Keeps execution _).at s h)
      ]
    ];
  }

  new-Keeps :
      (found : Option GithubPublication)
      → Keeps (Remotely P) (verify_new db client latest active audit_now run_id execution_id found)
  unfolding verify_new
  new-Keeps (some publication) = record { at = λ s h. h }
  new-Keeps none = record { at = λ s. (execution-Keeps _).at s }

  pub verify_publication-Keeps :
      Keeps (Remotely P) (verify_publication db client latest active audit_now run_id execution_id)
  unfolding verify_publication
  verify_publication-Keeps = record { at = λ s. (new-Keeps _).at s }

module _ (db : Db) {R : Type 0} (client : GithubAppClient R)
    (latest : World db → ObjectId → Option ChangeReview)
    (active : World db → Text → List RegistryEntry) (hex : ObjectId → Text)
    (to_lower sha256 : Text → Text) (message : Stop → Text) (step : World db → World db)
    (now audit_now : ℕ) (run_id execution_id : ObjectId) (P : R → Type 0) where
  abbrev publish : Action (Site db R) Error PublishResult
  publish =
      publish_approved_changes db client latest active hex to_lower sha256 message step now
        audit_now run_id execution_id

  module _ (c : IsConfined client to_lower P) where
    after_verdict-Keeps :
        (verdict : Verdict)
        → Keeps (Remotely P) (
            after_verdict db client latest active hex to_lower sha256 message step now audit_now
              run_id execution_id verdict)
    unfolding after_verdict
    after_verdict-Keeps (already_published publication) = Keeps-pure _
    after_verdict-Keeps (refused failure) = Keeps-pure _
    after_verdict-Keeps (cleared execution review target) =
        attempt-Keeps db client hex to_lower sha256 message step now audit_now run_id execution_id
          execution review target P c

    caught-Keeps :
        (r : Result Error PublishResult) (s : Site db R)
        → P s.remote
        → P
            (caught db client latest active hex to_lower sha256 message step now audit_now run_id
              execution_id
              (r, s)).1.remote
    unfolding caught
    caught-Keeps (ok result) s h = h
    caught-Keeps (err e) s h =
        (Keeps-map not_published
            (fail_eligibility db client latest active audit_now run_id execution_id none
              PublishFailureCategory.unexpected_error false)
            (fail_eligibility-Keeps db client latest active audit_now run_id execution_id P c.token
              none PublishFailureCategory.unexpected_error false)).at
          s h

    -- A property of GitHub that each call of the client keeps (creating a branch only needs to
    -- keep it where the branch name is valid beside some base branch, and creating a pull request
    -- only where its head is a valid branch name beside its base) is kept by
    -- publishApprovedChanges, whether it publishes, refuses, fails or catches an error.
    pub publish_approved_changes-Keeps : (s : Site db R) → P s.remote → P (publish s).1.remote
    unfolding publish_approved_changes execute
    publish_approved_changes-Keeps s h = caught-Keeps _ _ (
        (Keeps-then _ _
            (verify_publication-Keeps db client latest active audit_now run_id execution_id P
              c.token)
            after_verdict-Keeps).at
          s h)
