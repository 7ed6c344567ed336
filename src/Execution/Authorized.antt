-- ===== src/Execution/Authorized.antt =====
-- Laws of the eligibility checks of execute of src/change-execution/execution-service.ts.
use aisdlc.Prelude.{
  ◌≡◌, refl, arith, ◌∙◌, sym, Bool, true, false, ◌<◌, ◌+◌, ◌==◌, ℕ, Option, some, none, first,
  Bool-cases, Option-cases, inl, inr, ==_iff,
}
use aisdlc.Effect.{ok}
use aisdlc.Text.{Text, same}
use aisdlc.Text.Laws.{same→eq, same_refl}
use aisdlc.Store.{ObjectId}
use aisdlc.Db.{Db, World}
use aisdlc.Collections.{ChangeReviewStatus}
use aisdlc.Documents.{ChangeReview, ExecutionFailureCategory}
use aisdlc.Execution.Reviews.{has_id}
use aisdlc.Execution.Decisions.{reviews}
use aisdlc.Execution.Executions.{of_review}
use aisdlc.Execution.Recorded.{executions}
use aisdlc.Execution.Eligibility.{
  AccessResult, accessed, access_failed, eligible, is_approved, check_approval, is_same_review,
  check_identity, refuse, verify_identity, verify_latest, verify_approval, verify_review,
  verify_new, verify_eligibility,
}

module _ (db : Db) (hex : ObjectId → Text) (latest : World db → ObjectId → Option ChangeReview)
    (access : ObjectId → AccessResult) (now validity audit_now : ℕ) (run_id review_id : ObjectId)
    (w : World db) where
  -- What authorizes an execution.
  pub record IsAuthorized (review : ChangeReview) : Type 0 where
    pub stored : first (has_id review_id) (reviews db w) ≡ some review
    pub unexecuted : first (of_review review_id) (executions db w) ≡ none
    pub of_the_run : review.run_id ≡ run_id
    pub approved : review.status ≡ ChangeReviewStatus.approved
    pub reviewed_at : ℕ
    pub reviewed : review.reviewed_at ≡ some reviewed_at
    pub in_time : now < reviewed_at + validity
    pub newest : is_same_review review (latest w run_id) ≡ true
    pub identity : access run_id ≡ accessed review.owner review.repo review.branch

  refuse-other :
      (hash : Option Text) (category : ExecutionFailureCategory) (retryable : Bool) (v : World db)
      {review : ChangeReview} {w' : World db}
      → refuse db hex latest access now validity audit_now run_id review_id hash category retryable
          v
        ≡ (ok (eligible review), w')
      → ⊥
  unfolding refuse
  refuse-other hash category retryable v h = ground arith

  check_approval-none :
      (review : ChangeReview)
      → check_approval now validity review ≡ none
      → (review.status ≡ ChangeReviewStatus.approved)
        × (at : ℕ) × (review.reviewed_at ≡ some at)
        × (now < at + validity)
  unfolding check_approval is_approved
  check_approval-none review h = ground arith

  check_identity-none :
      (review : ChangeReview) (answer : AccessResult)
      → check_identity review answer ≡ none
      → answer ≡ accessed review.owner review.repo review.branch
  unfolding check_identity
  check_identity-none review (access_failed retryable) h = cc
  check_identity-none review (accessed owner repo branch) h =
      let o = same→eq owner review.owner in
      let r = same→eq repo review.repo in let b = same→eq branch review.branch in ground arith

  identity-eligible :
      (found : ChangeReview) (r : Option (ExecutionFailureCategory × Bool)) {review : ChangeReview}
      {w' : World db}
      → verify_identity db hex latest access now validity audit_now run_id review_id found r w
        ≡ (ok (eligible review), w')
      → (r ≡ none) × (review ≡ found)
  unfolding verify_identity
  identity-eligible found none h = (refl, ground arith)
  identity-eligible found (some (category, retryable)) h =
      absurd (refuse-other (some found.proposal_hash) category retryable w h)

  latest-eligible :
      (found : ChangeReview) (b : Bool) {review : ChangeReview} {w' : World db}
      → verify_latest db hex latest access now validity audit_now run_id review_id found b w
        ≡ (ok (eligible review), w')
      → (b ≡ true) × (check_identity found (access run_id) ≡ none) × (review ≡ found)
  unfolding verify_latest
  latest-eligible found true h =
      let (identity, same) = identity-eligible found _ h in (refl, identity, same)
  latest-eligible found false h =
      absurd (
        refuse-other (some found.proposal_hash) ExecutionFailureCategory.review_superseded false w
          h)

  approval-eligible :
      (found : ChangeReview) (r : Option ExecutionFailureCategory) {review : ChangeReview}
      {w' : World db}
      → verify_approval db hex latest access now validity audit_now run_id review_id found r w
        ≡ (ok (eligible review), w')
      → (r ≡ none)
        × (is_same_review found (latest w run_id) ≡ true)
        × (check_identity found (access run_id) ≡ none)
        × (review ≡ found)
  unfolding verify_approval
  approval-eligible found none h =
      let (newest, identity, same) = latest-eligible found _ h in (refl, newest, identity, same)
  approval-eligible found (some category) h =
      absurd (refuse-other (some found.proposal_hash) category false w h)

  review-eligible :
      (r : Option ChangeReview) {review : ChangeReview} {w' : World db}
      → verify_review db hex latest access now validity audit_now run_id review_id r w
        ≡ (ok (eligible review), w')
      → (r ≡ some review)
        × ((review.run_id == run_id) ≡ true)
        × (check_approval now validity review ≡ none)
        × (is_same_review review (latest w run_id) ≡ true)
        × (check_identity review (access run_id) ≡ none)
  unfolding verify_review
  review-eligible none h =
      absurd (refuse-other none ExecutionFailureCategory.review_not_found false w h)
  review-eligible (some found) {review} h = elim (Bool-cases (found.run_id == run_id)) [
    | inl mine ↦
        let (approval, newest, identity, same) =
          approval-eligible found _ (rw (verify_review, mine) at h) in
        rw same (refl, mine, approval, newest, identity)
    | inr other ↦ absurd (
        refuse-other (some found.proposal_hash) ExecutionFailureCategory.review_not_found false w
          (rw (verify_review, other) at h))
  ]

  -- If the eligibility checks let a review through, then it is the stored review with the given
  -- id, no execution is recorded for it, it belongs to the given run, it is approved and its
  -- approval is younger than the validity window, it is the newest review of the run, and the run
  -- resolves now to the owner, repository and branch that were reviewed.
  pub verify_eligibility-IsAuthorized :
      (review : ChangeReview) (w' : World db)
      → verify_eligibility db hex latest access now validity audit_now run_id review_id w
        ≡ (ok (eligible review), w')
      → IsAuthorized review
  unfolding verify_eligibility verify_new
  verify_eligibility-IsAuthorized review w' h =
      let look = db.change_executions.find_one_lem (of_review review_id) w.change_executions in
      let look' = db.change_reviews.find_one_lem (has_id review_id) w.change_reviews in
      elim (Option-cases (first (of_review review_id) (executions db w))) [
        | inr (execution, done) ↦ cc (rw (verify_eligibility, look, done, verify_new) at h)
        | inl unexecuted ↦
            let (stored, mine, approval, newest, identity) =
              review-eligible _ (rw (verify_eligibility, look, unexecuted, verify_new) at h) in
            let (approved, at, reviewed, in_time) = check_approval-none review approval in
            record {
              stored = sym look' ∙ stored;
              unexecuted = unexecuted;
              of_the_run = (==_iff review.run_id run_id).0 mine;
              approved = approved;
              reviewed_at = at;
              reviewed = reviewed;
              in_time = in_time;
              newest = newest;
              identity = check_identity-none review (access run_id) identity;
            }
      ]

  check_approval-approved :
      (review : ChangeReview) (at : ℕ)
      → review.status ≡ ChangeReviewStatus.approved
      → review.reviewed_at ≡ some at
      → now < at + validity
      → check_approval now validity review ≡ none
  unfolding check_approval is_approved
  check_approval-approved review at approved reviewed in_time = ground arith

  check_identity-same :
      (review : ChangeReview)
      → check_identity review (accessed review.owner review.repo review.branch) ≡ none
  unfolding check_identity
  check_identity-same review =
      let o = same_refl review.owner in
      let r = same_refl review.repo in let b = same_refl review.branch in ground arith

  -- If a review meets all the conditions of eligibility (stored under the id, not executed, of
  -- the run, approved within the validity window, the newest of the run, and of the repository
  -- and branch that the run resolves to now), then the checks let it through and write nothing.
  pub IsAuthorized-verify_eligibility :
      (review : ChangeReview)
      → IsAuthorized review
      → verify_eligibility db hex latest access now validity audit_now run_id review_id w
        ≡ (ok (eligible review), w)
  unfolding verify_eligibility verify_new verify_review verify_approval verify_latest
      verify_identity
  IsAuthorized-verify_eligibility review h =
      let look = db.change_executions.find_one_lem (of_review review_id) w.change_executions in
      let look' = db.change_reviews.find_one_lem (has_id review_id) w.change_reviews in
      let mine = (==_iff review.run_id run_id).1 h.of_the_run in
      let approval = check_approval-approved review h.reviewed_at h.approved h.reviewed h.in_time in
      rw
        (
          verify_eligibility,
          look,
          h.unexecuted,
          verify_new,
          look',
          h.stored,
          verify_review,
          mine,
          approval,
          verify_approval,
          h.newest,
          verify_latest,
          h.identity,
          check_identity-same review,
        )
        refl
