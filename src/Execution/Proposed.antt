-- ===== src/Execution/Proposed.antt =====
-- Laws of createIfAbsent of src/change-execution/review-repository.ts.
use aisdlc.Prelude.{◌≡◌, refl, arith, ◌⊎◌, inl, inr, List, false, first, some, ℕ}
use aisdlc.Effect.{Result, ok, err, and_then}
use aisdlc.Errors.{Error, driver_error}
use aisdlc.Text.{Text, same}
use aisdlc.Text.Laws.{same_refl, same_sym}
use aisdlc.Documents.{ChangeReview, ImplementationPlan, ProposedChange}
use aisdlc.Db.{Db, World, proposal_hash_unique}
use aisdlc.AuditLog.Laws.{append-frame}
use aisdlc.Access.{insert_or_winner}
use aisdlc.Access.Unique.{Distinct}
use aisdlc.Access.Once.{insert_or_winner-Distinct, insert_or_winner-found}
use aisdlc.Execution.Reviews.{
  CreateChangeReviewInput, create_if_absent, new_review, has_hash, after_place,
  review_created_entry, get_reviews, put_reviews, StoredReview,
}
use aisdlc.Execution.Decisions.{reviews}

abbrev pub OneReviewPerProposal : List ChangeReview → Type 0
OneReviewPerProposal = Distinct proposal_hash_unique

module _ (db : Db) (compute_proposal_hash : ImplementationPlan → List ProposedChange → Text)
    (now audit_now : ℕ) (input : CreateChangeReviewInput) where
  after_place-frame :
      (s : StoredReview db) (v : World db)
      → reviews db (after_place db compute_proposal_hash audit_now input s v).1 ≡ reviews db v
  unfolding after_place
  after_place-frame s v =
      let frame = append-frame db audit_now (review_created_entry input s.doc) v in ground arith

  rest-frame :
      (r : Result Error (StoredReview db)) (v : World db)
      → reviews db (and_then r (after_place db compute_proposal_hash audit_now input) v).1
        ≡ reviews db v
  rest-frame (ok s) v = after_place-frame s v
  rest-frame (err e) v = refl

  -- If no two reviews share a proposal hash before the call and after the step of the other
  -- clients, then no two reviews do after it, whatever its result.
  pub create_if_absent-OneReviewPerProposal :
      (step : World db → World db) (w : World db)
      → OneReviewPerProposal (reviews db w)
      → OneReviewPerProposal (reviews db (step w))
      → OneReviewPerProposal
          (reviews db (create_if_absent db compute_proposal_hash step now audit_now input w).1)
  unfolding create_if_absent
  create_if_absent-OneReviewPerProposal step w before after =
      rw
        (rest-frame
          (insert_or_winner db.change_reviews (get_reviews db) (put_reviews db) step
            (new_review db compute_proposal_hash now input)
            (has_hash db compute_proposal_hash input) w).0
          (insert_or_winner db.change_reviews (get_reviews db) (put_reviews db) step
            (new_review db compute_proposal_hash now input)
            (has_hash db compute_proposal_hash input) w).1)
        (insert_or_winner-Distinct db.change_reviews (get_reviews db) (put_reviews db) (λ s v. refl)
          (new_review db compute_proposal_hash now input) (has_hash db compute_proposal_hash input)
          (λ a b. same_sym b.proposal_hash a.proposal_hash) step w before after)

  rest-found :
      (d : ChangeReview) (r : Result Error (StoredReview db)) (v u : World db)
      → v ≡ u
      → (r ≡ ok (record { doc = d; was_created = false })) ⊎ (r ≡ err driver_error)
      → ((and_then r (after_place db compute_proposal_hash audit_now input) v)
          ≡ (ok (record { doc = d; was_created = false }), u))
        ⊎ ((and_then r (after_place db compute_proposal_hash audit_now input) v)
            ≡ (err driver_error, u))
  unfolding after_place
  rest-found d r v u same (inl found) = inl (rw (found, same) refl)
  rest-found d r v u same (inr broken) = inr (rw (broken, same) refl)

  -- If a review holds the hash of the proposal, and nobody else is at work, then that review is
  -- returned as not created, or the driver fails, and nothing is written: also when the review
  -- belongs to another run than the one that asks.
  pub create_if_absent-found :
      (w : World db) (review : ChangeReview)
      → first (has_hash db compute_proposal_hash input) (reviews db w) ≡ some review
      → (create_if_absent db compute_proposal_hash (λ v. v) now audit_now input w
          ≡ (ok (record { doc = review; was_created = false }), w))
        ⊎ (create_if_absent db compute_proposal_hash (λ v. v) now audit_now input w
            ≡ (err driver_error, w))
  unfolding create_if_absent new_review
  create_if_absent-found w review there =
      let (end, kept) =
        insert_or_winner-found db.change_reviews (get_reviews db) (put_reviews db) (λ s v. refl)
          (new_review db compute_proposal_hash now input) (has_hash db compute_proposal_hash input)
          (λ id d. refl) (λ id. same_refl _) w review there in
      rest-found review _ _ w kept end
