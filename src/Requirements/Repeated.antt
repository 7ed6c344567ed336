-- ===== src/Requirements/Repeated.antt =====
-- runRequirementsAgent of src/requirements/worker.ts and advanceToPendingApproval of
-- approval-transition.ts, called again for the same content.
use aisdlc.Prelude.{◌≡◌, refl, List, true, some, first, ℕ}
use aisdlc.Effect.{Result, ok, ◌>>=◌}
use aisdlc.Errors.{Do}
use aisdlc.Text.{Text}
use aisdlc.Documents.{IntakeItem, IntakeSnapshot, RequirementsAnalysis, RequirementsResult}
use aisdlc.Db.{Db, World}
use aisdlc.Intake.Hash.{hash_snapshot}
use aisdlc.Access.Laws.{find_one-eq}
use aisdlc.Requirements.Repository.{
  skipped_up_to_date, of_item, create_pending, reuse_or_insert, get_analyses, put_analyses,
}
use aisdlc.Requirements.Agent.{
  run_requirements_agent, is_up_to_date, note_pending, after_pending, advance_to_pending_approval,
  skipped_no_fresh_completion, ApprovalAdvanceOutcome,
}

abbrev pub analyses : (db : Db) → World db → List RequirementsAnalysis
analyses db w = db.requirements_analyses.docs w.requirements_analyses

module _ (db : Db) (quote sha256 : Text → Text)
    (analyze : IntakeSnapshot → Result Text RequirementsResult) (agent_version : Text)
    (step step' : World db → World db) (now audit_now : ℕ) (item : IntakeItem) where
  -- The agent, and then the step to pending_approval with its outcome.
  abbrev pub analyze_and_advance : Do db ApprovalAdvanceOutcome
  analyze_and_advance =
      run_requirements_agent db quote sha256 analyze agent_version step step' now audit_now item
      >>= λ result. advance_to_pending_approval db step now audit_now item result.outcome

  agent-repeated :
      (w : World db) (row : RequirementsAnalysis) (input_hash : Text)
      → hash_snapshot quote sha256 item.snapshot ≡ ok input_hash
      → first (of_item item.id) (analyses db w) ≡ some row
      → is_up_to_date row input_hash ≡ true
      → run_requirements_agent db quote sha256 analyze agent_version step step' now audit_now item w
        ≡ (ok (record { outcome = skipped_up_to_date; document = row }), w)
  unfolding run_requirements_agent create_pending reuse_or_insert note_pending after_pending
  agent-repeated w row input_hash hashed found fresh =
      rw
        (
          run_requirements_agent,
          hashed,
          create_pending,
          find_one-eq db.requirements_analyses (get_analyses db) (put_analyses db) (of_item item.id)
              w,
          found,
          reuse_or_insert,
          note_pending,
          after_pending,
          fresh,
        )
        refl

  -- If the analysis of the item is stored as completed with the hash of its snapshot, then
  -- running the agent and the step to pending_approval again reports that nothing was freshly
  -- completed, writes nothing, and does not try the transition, also when the item is still
  -- received.
  pub analyze_and_advance-repeated :
      (w : World db) (row : RequirementsAnalysis) (input_hash : Text)
      → hash_snapshot quote sha256 item.snapshot ≡ ok input_hash
      → first (of_item item.id) (analyses db w) ≡ some row
      → is_up_to_date row input_hash ≡ true
      → analyze_and_advance w ≡ (ok skipped_no_fresh_completion, w)
  unfolding advance_to_pending_approval
  analyze_and_advance-repeated w row input_hash hashed found fresh =
      rw (agent-repeated w row input_hash hashed found fresh) refl
