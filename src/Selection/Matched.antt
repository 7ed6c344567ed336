-- ===== src/Selection/Matched.antt =====
-- The retry and the backoff of src/repository-selection/worker.ts.
use aisdlc.Prelude.{
  ◌≡◌, refl, arith, ◌⊎◌, inl, inr, List, Bool, true, ℕ, ◌≤◌, ◌+◌, ◌^◌, length, [], ◌∷◌, Option,
  ◌&&◌,
}
use native.Mathlib.Nat.{one-le-pow, pow-le-pow_right}
use aisdlc.Errors.{Do}
use aisdlc.Text.{Text}
use aisdlc.Documents.{RepositorySelection}
use aisdlc.Db.{Db, World}
use aisdlc.Selection.Repository.{
  match_pending, match_failed, match_ambiguous, as_selection_status, is_retryable,
  apply_match_result, of_run,
}
use aisdlc.Selection.Matching.{
  backoff_ms, classify_candidates, retry_input, notify_retried, MatchCount,
}

-- The classification and the number of candidates.
pub classify_candidates_lem :
    (ids : List Text)
    → (classify_candidates ids ≡ match_failed) × (length ids ≡ 0)
      ⊎ (classify_candidates ids ≡ match_pending) × (length ids ≡ 1)
      ⊎ (classify_candidates ids ≡ match_ambiguous) × (2 ≤ length ids)
unfolding classify_candidates
classify_candidates_lem [] = inl (refl, refl)
classify_candidates_lem (a ∷ []) = inr (inl (refl, refl))
classify_candidates_lem (a ∷ b ∷ ids) = inr (inr (ground arith, omega arith))

-- One row, before and after a retry: the same, or it was failed or ambiguous; nothing that a person
-- has chosen is in it, and it is not selected by the matching.
pub data Retried (ids : List Text) (at : ℕ) (d e : RepositorySelection) : Type 0 where
  stays : d ≡ e → Retried ids at d e
  retried :
      is_retryable d.status ≡ true
      → e.status ≡ as_selection_status (classify_candidates ids)
      → e.candidate_repository_ids ≡ ids
      → e.attempts ≡ d.attempts + 1
      → at ≤ e.next_attempt_at
      → d.selected_repository_id ≡ e.selected_repository_id
      → d.confirmed_by ≡ e.confirmed_by
      → d.run_id ≡ e.run_id
      → Retried ids at d e

module _ (db : Db) (registry : Text → List Text) (at now audit_now : ℕ) (step : World db → World db)
    (selection : RepositorySelection) (w : World db) where
  abbrev ids : List Text
  ids = registry selection.project_identifier

  abbrev update : RepositorySelection → RepositorySelection
  update = apply_match_result now (retry_input registry at selection)

  abbrev p : RepositorySelection → Bool
  p row = of_run selection.run_id row && is_retryable row.status

  abbrev rest : Option RepositorySelection → Do db MatchCount
  rest =
      notify_retried db step registry at now audit_now selection (retry_input registry at selection)

-- The wait before the next matching attempt is at least a minute and at most an hour, and is
-- never shorter than the wait after fewer attempts.
pub backoff_ms-bounds :
    (m n : ℕ)
    → m ≤ n
    → (60000 ≤ backoff_ms m) × (backoff_ms m ≤ backoff_ms n) × (backoff_ms n ≤ 3600000)
unfolding backoff_ms
backoff_ms-bounds m n h =
    let least : 1 ≤ 2 ^ m = one-le-pow m 2 (omega arith) in
    let grows : 2 ^ m ≤ 2 ^ n = pow-le-pow_right {n = 2} (omega arith) h in
    (omega (arith, least), omega (arith, grows), omega arith)
