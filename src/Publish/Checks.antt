-- ===== src/Publish/Checks.antt =====
-- Inversions of the checks of execute of src/github-publish/publish-service.ts, from the last to the first.
use aisdlc.Prelude.{
  ◌≡◌, refl, arith, sym, Bool, true, false, ◌==◌, ◌&&◌, &&-split, ℕ, Option, List, some, none,
  Bool-cases, inl, inr, ==_iff, subst,
}
use aisdlc.Effect.{ok}
use aisdlc.Text.{Text, same}
use aisdlc.Text.Laws.{same→eq}
use aisdlc.Store.{ObjectId}
use aisdlc.Db.{Db, World}
use aisdlc.Collections.{ChangeReviewStatus, ChangeExecutionStatus}
use aisdlc.Documents.{ChangeReview, ChangeExecution, RepositorySelection}
use aisdlc.Execution.Reviews.{has_id}
use aisdlc.Execution.Eligibility.{is_approved, is_same_review}
use aisdlc.Registry.Records.{RegistryEntry}
use aisdlc.GithubApp.Client.{Answer, answered, refused_with, Repo, GithubAppClient, is_retryable}
use aisdlc.GithubApp.Access.{AuthorizedRepositoryAccess, authorize_repository_access}
use aisdlc.GithubApp.Authorized.{
  IsCovered, Authorization, refused_before, token_refused, token_issued,
  authorize_repository_access-Authorization,
}
use aisdlc.Publish.Records.{PublishFailureCategory}
use aisdlc.Site.{Site, on_world, on_remote, ask}
use aisdlc.Publish.Verify.{
  cleared, selects_for, refuse, fail_eligibility, verify_identity, verify_access, verify_latest,
  verify_review, verify_execution, is_succeeded,
}

succeeded-status :
    (s : ChangeExecutionStatus) → is_succeeded s ≡ true → s ≡ ChangeExecutionStatus.succeeded
unfolding is_succeeded
succeeded-status s h = ground arith

approved-status : (s : ChangeReviewStatus) → is_approved s ≡ true → s ≡ ChangeReviewStatus.approved
unfolding is_approved
approved-status s h = ground arith

module _ (db : Db) {R : Type 0} (client : GithubAppClient R)
    (latest : World db → ObjectId → Option ChangeReview)
    (active : World db → Text → List RegistryEntry) (audit_now : ℕ)
    (run_id execution_id : ObjectId) where
  module _ {execution' : ChangeExecution} {review' : ChangeReview} {target' : Repo}
      {s' : Site db R} where
    refuse-other :
        (review_id : Option ObjectId) (category : PublishFailureCategory) (retryable : Bool)
        (s : Site db R)
        → refuse db client latest active audit_now run_id execution_id review_id category retryable
            s
          ≡ (ok (cleared execution' review' target'), s')
        → ⊥
    unfolding refuse fail_eligibility on_world
    refuse-other review_id category retryable s h = ground arith

    identity-cleared :
        (execution : ChangeExecution) (review : ChangeReview)
        (answer : Answer AuthorizedRepositoryAccess) (s : Site db R)
        → verify_identity db client latest active audit_now run_id execution_id execution review
            answer s
          ≡ (ok (cleared execution' review' target'), s')
        → (access : AuthorizedRepositoryAccess) × (answer ≡ answered access)
          × (access.target.owner ≡ review.owner)
          × (access.target.repo ≡ review.repo)
          × (access.branch ≡ review.branch)
          × (execution' ≡ execution)
          × (review' ≡ review)
          × (target' ≡ access.target)
    unfolding verify_identity
    identity-cleared execution review (refused_with kind) s h = absurd (
        refuse-other (some review.id) PublishFailureCategory.repository_access_failure
          (is_retryable kind) s h)
    identity-cleared execution review (answered access) s h =
        elim (Bool-cases
          (same access.target.owner review.owner && same access.target.repo review.repo)) [
            | inr other ↦ absurd (
                refuse-other (some review.id) PublishFailureCategory.repository_mismatch false s
                  (rw (verify_identity, other) at h))
            | inl both ↦ elim (Bool-cases (same access.branch review.branch)) [
              | inr other ↦ absurd (
                  refuse-other (some review.id) PublishFailureCategory.branch_mismatch false s
                    (rw (verify_identity, both, other) at h))
              | inl branch ↦
                  let (owner, repo) = &&-split _ _ both in
                  let e = rw (verify_identity, both, branch) at h in
                  (
                    access,
                    refl,
                    same→eq access.target.owner review.owner owner,
                    same→eq access.target.repo review.repo repo,
                    same→eq access.branch review.branch branch,
                    ground arith,
                    ground arith,
                    ground arith,
                  )
            ]
          ]

    access-cleared :
        (execution : ChangeExecution) (review : ChangeReview) (found : Option RepositorySelection)
        (s : Site db R)
        → verify_access db client latest active audit_now run_id execution_id execution review found
            s
          ≡ (ok (cleared execution' review' target'), s')
        → (selection : RepositorySelection) × (found ≡ some selection)
          × IsCovered client (active s.world) selection none target' review.branch
          × (target'.owner ≡ review.owner)
          × (target'.repo ≡ review.repo)
          × (execution' ≡ execution)
          × (review' ≡ review)
    unfolding verify_access on_remote ask
    access-cleared execution review none s h =
        absurd
          (refuse-other (some review.id) PublishFailureCategory.repository_access_failure false s h)
    access-cleared execution review (some selection) s h =
        go (authorize_repository_access client (active s.world) selection none s.remote)
          (authorize_repository_access-Authorization client (active s.world) selection none
            s.remote)
          h
      where
        go :
            (out : Answer AuthorizedRepositoryAccess × R)
            → Authorization client (active s.world) selection none s.remote out
            → verify_identity db client latest active audit_now run_id execution_id execution review
                out.0
                (record s { remote = out.1 })
              ≡ (ok (cleared execution' review' target'), s')
            → (chosen : RepositorySelection) × (some selection ≡ some chosen)
              × IsCovered client (active s.world) chosen none target' review.branch
              × (target'.owner ≡ review.owner)
              × (target'.repo ≡ review.repo)
              × (execution' ≡ execution)
              × (review' ≡ review)
        go out (refused_before kind) k = absurd (
            refuse-other (some review.id) PublishFailureCategory.repository_access_failure
              (is_retryable kind) s k)
        go out (token_refused target at kind r' covered e) k = absurd (
            refuse-other (some review.id) PublishFailureCategory.repository_access_failure
              (is_retryable kind) (record s { remote = r' }) k)
        go out (token_issued target at token r' covered e) k =
            let (access, issued, owner, repo, branch, same_execution, same_review, chosen) =
              identity-cleared execution review
                (answered (record { target = target; token = token; branch = at }))
                (record s { remote = r' }) k in
            let same_target : target' ≡ target = ground arith in
            let same_branch : at ≡ review.branch = ground arith in
            (
              selection,
              refl,
              subst (λ t. IsCovered client (active s.world) selection none t review.branch)
                  (sym same_target)
                  (subst (λ b. IsCovered client (active s.world) selection none target b)
                    same_branch covered),
              ground arith,
              ground arith,
              same_execution,
              same_review,
            )

    pub review-cleared :
        (execution : ChangeExecution) (found : Option ChangeReview) (s : Site db R)
        → verify_review db client latest active audit_now run_id execution_id execution found s
          ≡ (ok (cleared execution' review' target'), s')
        → (found ≡ some review')
          × (review'.status ≡ ChangeReviewStatus.approved)
          × (execution.proposal_hash ≡ review'.proposal_hash)
          × (is_same_review review' (latest s.world run_id) ≡ true)
          × (selection : RepositorySelection) × (db.repository_selections.find_one
                (selects_for run_id)
                s.world.repository_selections
              ≡ some selection)
          × IsCovered client (active s.world) selection none target' review'.branch
          × (target'.owner ≡ review'.owner)
          × (target'.repo ≡ review'.repo)
          × (execution' ≡ execution)
    unfolding verify_review verify_latest
    review-cleared execution none s h =
        absurd (
          refuse-other (some execution.review_id) PublishFailureCategory.review_not_found false s h)
    review-cleared execution (some review) s h = elim (Bool-cases (is_approved review.status)) [
      | inr other ↦ absurd (
          refuse-other (some review.id) PublishFailureCategory.review_not_approved false s
            (rw (verify_review, other) at h))
      | inl approved ↦ elim (Bool-cases (same execution.proposal_hash review.proposal_hash)) [
        | inr other ↦ absurd (
            refuse-other (some review.id) PublishFailureCategory.proposal_hash_mismatch false s
              (rw (verify_review, approved, other) at h))
        | inl hash ↦ elim (Bool-cases (is_same_review review (latest s.world run_id))) [
          | inr other ↦ absurd (
              refuse-other (some review.id) PublishFailureCategory.review_superseded false s
                (rw (verify_review, approved, hash, other, verify_latest) at h))
          | inl newest ↦
              let (selection, found, covered, owner, repo, same_execution, same_review) =
                access-cleared execution review _ s
                  (rw (verify_review, approved, hash, newest, verify_latest) at h) in
              rw same_review (
                refl,
                approved-status review.status approved,
                same→eq execution.proposal_hash review.proposal_hash hash,
                newest,
                selection,
                found,
                covered,
                owner,
                repo,
                same_execution,
              )
        ]
      ]
    ]

    pub execution-cleared :
        (found : Option ChangeExecution) (s : Site db R)
        → verify_execution db client latest active audit_now run_id execution_id found s
          ≡ (ok (cleared execution' review' target'), s')
        → (found ≡ some execution')
          × (execution'.run_id ≡ run_id)
          × (execution'.status ≡ ChangeExecutionStatus.succeeded)
          × (verify_review db client latest active audit_now run_id execution_id execution'
                (db.change_reviews.find_one (has_id execution'.review_id) s.world.change_reviews)
                s
              ≡ (ok (cleared execution' review' target'), s'))
    unfolding verify_execution
    execution-cleared none s h =
        absurd (refuse-other none PublishFailureCategory.execution_not_found false s h)
    execution-cleared (some execution) s h = elim (Bool-cases (execution.run_id == run_id)) [
      | inr other ↦ absurd (
          refuse-other (some execution.review_id) PublishFailureCategory.execution_not_found false s
            (rw (verify_execution, other) at h))
      | inl mine ↦ elim (Bool-cases (is_succeeded execution.status)) [
        | inr other ↦ absurd (
            refuse-other (some execution.review_id) PublishFailureCategory.execution_not_succeeded
              false s (rw (verify_execution, mine, other) at h))
        | inl done ↦
            let k = rw (verify_execution, mine, done) at h in
            let (found, approved, hash, newest, selection, chosen, covered, owner, repo, e) =
              review-cleared execution _ s k in
            rw e (
              refl,
              (==_iff execution.run_id run_id).0 mine,
              succeeded-status execution.status done,
              rw e at k,
            )
      ]
    ]
