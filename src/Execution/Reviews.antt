-- ===== src/Execution/Reviews.antt =====
-- src/change-execution/review-repository.ts and proposal-hash.ts. `proposal_hash` is contentHash of
-- the plan and the changes, and is the argument `compute_proposal_hash`.
use aisdlc.Prelude.{
  Bool, true, false, ◌&&◌, ◌==◌, ◌++◌, length, ℕ, Option, List, some, none, [], ◌∷◌, if◌then◌else◌,
}
use aisdlc.Effect.{◌>>=◌, ◌>>◌, pure, throw, require, others}
use aisdlc.Errors.{review_not_found}
use aisdlc.Db.{Db, World}
use aisdlc.Collections.{ChangeReviewStatus, AuditSubjectType, operator_principal_prefix}
use aisdlc.Text.{Text, codes, starts_with, same}
use aisdlc.Store.{ObjectId}
use aisdlc.Documents.{
  ChangeReview, ImplementationPlan, ProposedChange, Datum, an_id, a_text, a_number,
}
use aisdlc.Access.{Stored, find_one, insert_or_winner, find_one_and_update}
use aisdlc.AuditLog.{AuditEntryInput, append}
use aisdlc.Errors.{Do, review_not_pending, review_decision_requires_operator}

-- What a reviewer decides.
pub data Decision : Type 0 where
  approve reject : Decision

unfoldable pub decided_status : Decision → ChangeReviewStatus
decided_status approve = ChangeReviewStatus.approved
decided_status reject = ChangeReviewStatus.rejected

unfoldable pub decision_name : Decision → Text
decision_name approve = codes "approved"
decision_name reject = codes "rejected"

unfoldable pub is_pending : ChangeReviewStatus → Bool
is_pending ChangeReviewStatus.pending = true
is_pending _ = false

pub record ReviewDecisionInput : Type 0 where
  pub actor : Text
  pub comment : Option Text

pub record CreateChangeReviewInput : Type 0 where
  pub run_id : ObjectId
  pub intake_item_id : ObjectId
  pub repository_id : Text
  pub owner : Text
  pub repo : Text
  pub branch : Text
  pub plan : ImplementationPlan
  pub proposed_changes : List ProposedChange

abbrev pub has_id : ObjectId → ChangeReview → Bool
has_id id review = review.id == id

unfoldable pub apply_decision : ℕ → Decision → ReviewDecisionInput → ChangeReview → ChangeReview
unfolding decided_status
apply_decision now to options review = record review {
  status = decided_status to;
  reviewed_by = some options.actor;
  reviewed_at = some now;
  review_comment = options.comment;
  updated_at = now;
}

abbrev comment_detail : Option Text → List (Text × Datum)
comment_detail none = []
comment_detail (some comment) = (codes "comment", a_text comment) ∷ []

unfoldable pub decided_entry :
    ObjectId → Decision → ReviewDecisionInput → ChangeReview → AuditEntryInput
unfolding decision_name
decided_entry id to options updated = record {
  actor = options.actor;
  action = codes "change-review." ++ decision_name to;
  subject_type = AuditSubjectType.change_review;
  subject_id = id;
  detail = some (
      (codes "runId", an_id updated.run_id)
      ∷ (codes "proposalHash", a_text updated.proposal_hash)
      ∷ comment_detail options.comment);
  occurred_at = none;
}

unfoldable pub change_review_system_actor : Text
change_review_system_actor = codes "system:change-review"

unfoldable pub review_created_entry : CreateChangeReviewInput → ChangeReview → AuditEntryInput
unfolding change_review_system_actor
review_created_entry input review = record {
  actor = change_review_system_actor;
  action = codes "change-review.created";
  subject_type = AuditSubjectType.change_review;
  subject_id = review.id;
  detail = some (
      (codes "runId", an_id input.run_id)
      ∷ (codes "repositoryId", a_text input.repository_id)
      ∷ (codes "proposalHash", a_text review.proposal_hash)
      ∷ (codes "changeCount", a_number (length input.proposed_changes))
      ∷ []);
  occurred_at = none;
}

module _ (db : Db) where
  abbrev pub get_reviews : World db → db.change_reviews.State
  get_reviews w = w.change_reviews

  abbrev pub put_reviews : db.change_reviews.State → World db → World db
  put_reviews s w = record w { change_reviews = s }

  abbrev pub StoredReview : Type 0
  StoredReview = Stored db.change_reviews get_reviews put_reviews

  unfoldable pub require_review : ObjectId → Option ChangeReview → Do db ChangeReview
  require_review id none = throw (review_not_found id)
  require_review id (some review) = pure review

  -- `raced?.status ?? current.status`
  abbrev pub raced_status : Option ChangeReview → ChangeReviewStatus → ChangeReviewStatus
  raced_status none status = status
  raced_status (some raced) status = raced.status

  unfoldable pub require_decided :
      ObjectId → ChangeReviewStatus → Option ChangeReview → Do db ChangeReview
  unfolding find_one
  require_decided id status (some updated) = pure updated
  require_decided id status none = do
    raced ← find_one db.change_reviews get_reviews put_reviews (has_id id)
    throw (review_not_pending id (raced_status raced status))

  -- decide: `step` is what other clients do between the read and the write.
  unfoldable pub decide :
      (World db → World db) → ℕ → ℕ → ObjectId → Decision → ReviewDecisionInput → Do db ChangeReview
  unfolding require_review require_decided is_pending
  decide step now audit_now id to options = do
    require (starts_with options.actor operator_principal_prefix)
        (review_decision_requires_operator options.actor)
    found ← find_one db.change_reviews get_reviews put_reviews (has_id id)
    current ← require_review id found
    require (is_pending current.status) (review_not_pending id current.status)
    others step
    result ←
        find_one_and_update db.change_reviews get_reviews put_reviews
          (λ review. has_id id review && is_pending review.status) (apply_decision now to options)
    updated ← require_decided id current.status result
    _ ← append db audit_now (decided_entry id to options updated)
    pure updated

  module _ (compute_proposal_hash : ImplementationPlan → List ProposedChange → Text) where
    unfoldable pub new_review : ℕ → CreateChangeReviewInput → ObjectId → ChangeReview
    new_review now input id = record {
      id = id;
      run_id = input.run_id;
      intake_item_id = input.intake_item_id;
      repository_id = input.repository_id;
      owner = input.owner;
      repo = input.repo;
      branch = input.branch;
      plan = input.plan;
      proposed_changes = input.proposed_changes;
      proposal_hash = compute_proposal_hash input.plan input.proposed_changes;
      status = ChangeReviewStatus.pending;
      reviewed_by = none;
      reviewed_at = none;
      review_comment = none;
      created_at = now;
      updated_at = now;
    }

    abbrev pub has_hash : CreateChangeReviewInput → ChangeReview → Bool
    has_hash input review =
        same review.proposal_hash (compute_proposal_hash input.plan input.proposed_changes)

    unfoldable pub after_place : ℕ → CreateChangeReviewInput → StoredReview → Do db StoredReview
    after_place audit_now input result =
        if result.was_created
        then (do _ ← append db audit_now (review_created_entry input result.doc); pure result)
        else pure result

    -- createIfAbsent
    unfoldable pub create_if_absent :
        (World db → World db) → ℕ → ℕ → CreateChangeReviewInput → Do db StoredReview
    unfolding new_review after_place
    create_if_absent step now audit_now input = do
      result ←
          insert_or_winner db.change_reviews get_reviews put_reviews step (new_review now input)
            (has_hash input)
      after_place audit_now input result
