-- ===== src/Execution/Decisions.antt =====
-- Laws of decide of src/change-execution/review-repository.ts, by the branches of the code.
use aisdlc.Prelude.{
  ◌≡◌, refl, arith, ◌⊎◌, inl, inr, Bool, List, first, Option-cases, Bool-cases, Option, none, some,
  false, ◌∙◌, true, ℕ, ◌&&◌, update_first, &&-split, Pointwise, Pointwise-refl,
  update_first-Pointwise,
}
use aisdlc.Store.{ObjectId}
use aisdlc.Text.{starts_with}
use aisdlc.Effect.{Result, ok, err, and_then, ◌>>=◌, pure}
use aisdlc.Effect.Laws.{Result-cases}
use aisdlc.Access.Laws.{find_one_and_update-Updated, Updated, missed, hit}
use aisdlc.Errors.{
  Error, Do, review_not_found, review_not_pending, review_decision_requires_operator,
}
use aisdlc.Db.{Db, World}
use aisdlc.Collections.{ChangeReviewStatus, operator_principal_prefix}
use aisdlc.AuditLog.{append}
use aisdlc.AuditLog.Laws.{append-frame}
use aisdlc.Documents.{ChangeReview}
use aisdlc.Execution.Reviews.{
  Decision, ReviewDecisionInput, decide, get_reviews, put_reviews, has_id, is_pending,
  apply_decision, decided_entry, require_decided, raced_status, decided_status,
}

abbrev pub reviews : (db : Db) → World db → List ChangeReview
reviews db w = db.change_reviews.docs w.change_reviews

abbrev pub has_id_pending : ObjectId → ChangeReview → Bool
has_id_pending id review = has_id id review && is_pending review.status

-- One review, before and after: the same, or decided by an operator, with its proposal kept.
pub data Settles (d e : ChangeReview) : Type 0 where
  stays : d ≡ e → Settles d e
  settled :
      (actor : List ℕ)
      → d.status ≡ ChangeReviewStatus.pending
      → (e.status ≡ ChangeReviewStatus.approved) ⊎ (e.status ≡ ChangeReviewStatus.rejected)
      → starts_with actor operator_principal_prefix ≡ true
      → e.reviewed_by ≡ some actor
      → d.id ≡ e.id
      → d.plan ≡ e.plan
      → d.proposed_changes ≡ e.proposed_changes
      → d.proposal_hash ≡ e.proposal_hash
      → Settles d e

apply_decision-Settles :
    (now : ℕ) (id : ObjectId) (to : Decision) (options : ReviewDecisionInput) (d : ChangeReview)
    → starts_with options.actor operator_principal_prefix ≡ true
    → has_id_pending id d ≡ true
    → Settles d (apply_decision now to options d)
unfolding apply_decision is_pending decided_status
apply_decision-Settles now id to options d operator met =
    let (this, pending) = &&-split (has_id id d) (is_pending d.status) met in
    settled options.actor (ground arith) (ground arith) operator refl refl refl refl refl

module _ (db : Db) (step : World db → World db) (now audit_now : ℕ) (id : ObjectId) (to : Decision)
    (options : ReviewDecisionInput) (w : World db) where
  abbrev pub decided : ChangeReview → ChangeReview
  decided = apply_decision now to options

  pub data Decided (r : Result Error ChangeReview) (w' : World db) : Type 0 where
    no_operator :
        starts_with options.actor operator_principal_prefix ≡ false
        → r ≡ err (review_decision_requires_operator options.actor)
        → w' ≡ w
        → Decided r w'
    absent :
        first (has_id id) (reviews db w) ≡ none
        → r ≡ err (review_not_found id)
        → w' ≡ w
        → Decided r w'
    already_decided :
        (review : ChangeReview)
        → first (has_id id) (reviews db w) ≡ some review
        → is_pending review.status ≡ false
        → r ≡ err (review_not_pending id review.status)
        → w' ≡ w
        → Decided r w'
    -- Another client decided the review after it was read: the error names the status it has now.
    lost :
        (review : ChangeReview)
        → first (has_id id) (reviews db w) ≡ some review
        → first (has_id_pending id) (reviews db (step w)) ≡ none
        → r
          ≡ err (
              review_not_pending id
                (raced_status db (first (has_id id) (reviews db (step w))) review.status))
        → reviews db w' ≡ reviews db (step w)
        → Decided r w'
    -- Written; the result is the new review, or the error of the audit entry.
    written :
        (review old : ChangeReview)
        → starts_with options.actor operator_principal_prefix ≡ true
        → first (has_id id) (reviews db w) ≡ some review
        → is_pending review.status ≡ true
        → first (has_id_pending id) (reviews db (step w)) ≡ some old
        → (r ≡ ok (decided old)) ⊎ ((e : Error) × (r ≡ err e))
        → reviews db w' ≡ update_first (has_id_pending id) decided (reviews db (step w))
        → Decided r w'

  tail : ChangeReviewStatus → Option ChangeReview → Do db ChangeReview
  unfolding require_decided
  tail status result = do
    updated ← require_decided db id status result
    _ ← append db audit_now (decided_entry id to options updated)
    pure updated

  tail-some :
      (status : ChangeReviewStatus) (updated : ChangeReview) (v : World db)
      → (((tail status (some updated) v).0 ≡ ok updated)
          ⊎ ((e : Error) × ((tail status (some updated) v).0 ≡ err e)))
        × (reviews db (tail status (some updated) v).1 ≡ reviews db v)
  unfolding tail
  tail-some status updated v =
      let frame = append-frame db audit_now (decided_entry id to options updated) v in
      (
        elim (Result-cases (append db audit_now (decided_entry id to options updated) v).0) [
          | inl (entry, fine) ↦ inl (rw fine refl)
          | inr (e, thrown) ↦ inr (e, rw thrown refl)
        ],
        ground arith,
      )

  tail-none :
      (status : ChangeReviewStatus) (v : World db)
      → tail status none v ≡ (
        err (review_not_pending id (raced_status db (first (has_id id) (reviews db v)) status)),
        v,
      )
  unfolding tail
  tail-none status v = rw (db.change_reviews.find_one_lem (has_id id) v.change_reviews) refl

  after_swap :
      (review : ChangeReview)
      → starts_with options.actor operator_principal_prefix ≡ true
      → first (has_id id) (reviews db w) ≡ some review
      → is_pending review.status ≡ true
      → (r : Result Error (Option ChangeReview)) (v : World db)
      → Updated db.change_reviews
          (get_reviews db)
          (put_reviews db)
          (λ s u. refl)
          (has_id_pending id)
          decided
          (step w)
          r
          v
      → Decided (and_then r (tail review.status) v).0 (and_then r (tail review.status) v).1
  after_swap review operator found pending r v (missed gone result kept) =
      rw (result, tail-none review.status v) (lost review found gone (rw kept refl) kept)
  after_swap review operator found pending r v (hit old met result written_docs) =
      let (end, frame) = tail-some review.status (decided old) v in
      rw result (written review old operator found pending met end (frame ∙ written_docs))

  pub decide-Decided :
      Decided
        (decide db step now audit_now id to options w).0
        (decide db step now audit_now id to options w).1
  unfolding decide tail
  decide-Decided =
      let look = db.change_reviews.find_one_lem (has_id id) w.change_reviews in
      elim (Bool-cases (starts_with options.actor operator_principal_prefix)) [
        | inr other ↦ rw other (no_operator other refl refl)
        | inl operator ↦ elim (Option-cases (first (has_id id) (reviews db w))) [
          | inl missing ↦ rw (operator, look, missing) (absent missing refl refl)
          | inr (review, found) ↦ elim (Bool-cases (is_pending review.status)) [
            | inr closed ↦
                rw (operator, look, found, closed) (already_decided review found closed refl refl)
            | inl pending ↦
                rw (operator, look, found, pending)
                  (after_swap review operator found pending _ _ (
                    find_one_and_update-Updated db.change_reviews (get_reviews db) (put_reviews db)
                      (λ s u. refl) (has_id_pending id) decided (step w)))
          ]
        ]
      ]

  Decided-Settles :
      {r : Result Error ChangeReview} {w' : World db}
      → Decided r w'
      → (w' ≡ w) ⊎ Pointwise Settles (reviews db (step w)) (reviews db w')
  Decided-Settles (no_operator _ _ kept) = inl kept
  Decided-Settles (absent _ _ kept) = inl kept
  Decided-Settles (already_decided _ _ _ _ kept) = inl kept
  Decided-Settles (lost _ _ _ _ kept) = inr (rw kept (Pointwise-refl Settles (λ a. stays refl) _))
  Decided-Settles (written _ _ operator _ _ _ _ docs) = inr (
      rw docs (
        update_first-Pointwise Settles (λ a. stays refl) (has_id_pending id) decided _
          (λ a met. apply_decision-Settles now id to options a operator met)))

  -- A decision on a review, whatever its outcome: either nothing is written at all, or every
  -- stored review stays as it is or was pending and is now approved or rejected by an operator
  -- whose name it records, with its id, plan, changes and proposal hash kept.
  pub decide-Settles :
      ((decide db step now audit_now id to options w).1 ≡ w)
      ⊎ Pointwise Settles
          (reviews db (step w))
          (reviews db (decide db step now audit_now id to options w).1)
  decide-Settles = Decided-Settles decide-Decided
