-- ===== src/Requirements/Judged.antt =====
-- Laws of runRequirementsAgent of src/requirements/worker.ts.
use aisdlc.Prelude.{
  ◌≡◌, refl, arith, ap, inl, inr, true, some, none, ℕ, Option, Bool-cases, sym, ◌∙◌, ◌∷◌, [],
}
use aisdlc.Effect.{Result, ok, err, and_then, ◌>>=◌, ◌>>◌, pure}
use aisdlc.Effect.Laws.{>>=-ok}
use aisdlc.Errors.{Error, Do}
use aisdlc.Store.{ObjectId}
use aisdlc.Text.{Text, codes}
use aisdlc.Collections.{RequirementsAnalysisStatus}
use aisdlc.Documents.{IntakeItem, IntakeSnapshot, RequirementsAnalysis, RequirementsResult, a_text}
use aisdlc.Db.{Db, World}
use aisdlc.AuditLog.{append, AuditEntryInput}
use aisdlc.Access.Laws.{find_one_and_update-Updated, Updated, missed, hit}
use aisdlc.Intake.Hash.{hash_snapshot}
use aisdlc.Requirements.Repository.{
  RequirementsOutcome, failed_analysis, failed_validation, skipped_up_to_date, outcome_completed,
  update_analysis, mark_failed, mark_completed, apply_failed, apply_completed, of_item,
  get_analyses, put_analyses, require_updated, create_pending, StoredAnalysis,
}
use aisdlc.Requirements.Agent.{
  run_requirements_agent, RequirementsAgentResult, validate_snapshot, is_up_to_date, note_pending,
  fail_with, complete_with, agent_entry, after_analysis, after_validation, after_pending,
}

module _ (db : Db) (item_id : ObjectId) (update : RequirementsAnalysis → RequirementsAnalysis)
    (w : World db) where
  required-ok :
      (r : Result Error (Option RequirementsAnalysis)) (v : World db) {row : RequirementsAnalysis}
      {w' : World db}
      → Updated db.requirements_analyses
          (get_analyses db)
          (put_analyses db)
          (λ s u. refl)
          (of_item item_id)
          update
          w
          r
          v
      → and_then r (require_updated db item_id) v ≡ (ok row, w')
      → (old : RequirementsAnalysis) × (row ≡ update old)
  unfolding require_updated
  required-ok r v (missed gone result kept) h = ground arith
  required-ok r v (hit old found result written) h = (old, ground arith)

  -- The row that a successful update returns is an updated row.
  pub update_analysis-ok :
      {row : RequirementsAnalysis} {w' : World db}
      → update_analysis db item_id update w ≡ (ok row, w')
      → (old : RequirementsAnalysis) × (row ≡ update old)
  unfolding update_analysis
  update_analysis-ok h =
      required-ok _ _
        (find_one_and_update-Updated db.requirements_analyses (get_analyses db) (put_analyses db)
          (λ s u. refl) (of_item item_id) update w)
        h

module _ (db : Db) (quote sha256 : Text → Text)
    (analyze : IntakeSnapshot → Result Text RequirementsResult) (agent_version : Text)
    (step step' : World db → World db) (now audit_now : ℕ) (item : IntakeItem) where
  -- The outcome and the document, of a run over the content with this hash.
  pub data Judged (input_hash : Text) (outcome : RequirementsOutcome) (row : RequirementsAnalysis)
      : Type 0 where
    current :
        outcome ≡ skipped_up_to_date
        → row.status ≡ RequirementsAnalysisStatus.completed
        → is_up_to_date row input_hash ≡ true
        → Judged input_hash outcome row
    invalid :
        (reason : Text)
        → outcome ≡ failed_validation
        → validate_snapshot item.snapshot ≡ some reason
        → row.status ≡ RequirementsAnalysisStatus.failed
        → row.error ≡ some (record { message = reason; at = now })
        → row.input_hash ≡ input_hash
        → Judged input_hash outcome row
    threw :
        (message : Text)
        → outcome ≡ failed_analysis
        → validate_snapshot item.snapshot ≡ none
        → analyze item.snapshot ≡ err message
        → row.status ≡ RequirementsAnalysisStatus.failed
        → row.error ≡ some (record { message = message; at = now })
        → row.input_hash ≡ input_hash
        → Judged input_hash outcome row
    analyzed :
        (result : RequirementsResult)
        → outcome ≡ outcome_completed
        → validate_snapshot item.snapshot ≡ none
        → analyze item.snapshot ≡ ok result
        → row.status ≡ RequirementsAnalysisStatus.completed
        → row.result ≡ some result
        → row.error ≡ none
        → row.input_hash ≡ input_hash
        → Judged input_hash outcome row

  abbrev Res : Type 0
  Res = RequirementsAgentResult

  -- The end of both ways: the audit entry, and the outcome with the document.
  abbrev finish : AuditEntryInput → RequirementsOutcome → RequirementsAnalysis → Do db Res
  finish entry outcome row =
      append db audit_now entry >>= λ _. pure (record { outcome = outcome; document = row })

  finish-ok :
      (entry : AuditEntryInput) (outcome : RequirementsOutcome) (row : RequirementsAnalysis)
      (v : World db) {res : Res} {w' : World db}
      → finish entry outcome row v ≡ (ok res, w')
      → res ≡ record { outcome = outcome; document = row }
  finish-ok entry outcome row v {res} h =
      let (id, v', logged, last) =
        >>=-ok (append db audit_now entry)
          (λ _. pure (record { outcome = outcome; document = row })) v h in
      sym (ap (λ (x : Result Error Res). elim x [ ok r ↦ r | err e ↦ res ]) (ap (λ x. x.0) last))

  marked-ok :
      (update : RequirementsAnalysis → RequirementsAnalysis) (entry : AuditEntryInput)
      (outcome : RequirementsOutcome) (v : World db) {res : Res} {w' : World db}
      → (update_analysis db item.id update >>= finish entry outcome) v ≡ (ok res, w')
      → (old : RequirementsAnalysis) × (res ≡ record { outcome = outcome; document = update old })
  marked-ok update entry outcome v h =
      let (row, v1, marked, more) =
        >>=-ok (update_analysis db item.id update) (finish entry outcome) v h in
      let (old, e) = update_analysis-ok db item.id update v marked in
      (
        old,
        finish-ok entry outcome row v1 more
            ∙ ap (λ x. record { outcome = outcome; document = x }) e,
      )

  fail_with-ok :
      (input_hash message : Text) (outcome : RequirementsOutcome) (v : World db) {res : Res}
      {w' : World db}
      → fail_with db quote sha256 analyze agent_version step step' now audit_now item input_hash
          message outcome v
        ≡ (ok res, w')
      → (res.outcome ≡ outcome)
        × (res.document.status ≡ RequirementsAnalysisStatus.failed)
        × (res.document.error ≡ some (record { message = message; at = now }))
        × (res.document.input_hash ≡ input_hash)
  unfolding fail_with mark_failed apply_failed agent_entry
  fail_with-ok input_hash message outcome v {res} h =
      let (old, shape) =
        marked-ok
          (apply_failed (record {
            message = message;
            input_hash = input_hash;
            agent_version = agent_version;
            now = now;
          }))
          (agent_entry (codes "requirements.failed") item.id
            ((codes "issueKey", a_text item.issue_key) ∷ (codes "reason", a_text message) ∷ []))
          outcome v h in
      rw shape (refl, refl, refl, refl)

  complete_with-ok :
      (input_hash : Text) (result : RequirementsResult) (v : World db) {res : Res} {w' : World db}
      → complete_with db quote sha256 analyze agent_version step step' now audit_now item input_hash
          result v
        ≡ (ok res, w')
      → (res.outcome ≡ outcome_completed)
        × (res.document.status ≡ RequirementsAnalysisStatus.completed)
        × (res.document.result ≡ some result)
        × (res.document.error ≡ none)
        × (res.document.input_hash ≡ input_hash)
  unfolding complete_with mark_completed apply_completed agent_entry
  complete_with-ok input_hash result v {res} h =
      let (old, shape) =
        marked-ok
          (apply_completed (record {
            result = result;
            input_hash = input_hash;
            agent_version = agent_version;
            now = now;
          }))
          (agent_entry (codes "requirements.completed") item.id (
            (codes "issueKey", a_text item.issue_key)
            ∷ (codes "agentVersion", a_text agent_version)
            ∷ []))
          outcome_completed v h in
      rw shape (refl, refl, refl, refl, refl)

  after_analysis-ok :
      (input_hash : Text) (v : World db) (r : Result Text RequirementsResult) {res : Res}
      {w' : World db}
      → validate_snapshot item.snapshot ≡ none
      → analyze item.snapshot ≡ r
      → after_analysis db quote sha256 analyze agent_version step step' now audit_now item
          input_hash r v
        ≡ (ok res, w')
      → Judged input_hash res.outcome res.document
  unfolding after_analysis
  after_analysis-ok input_hash v (ok result) valid answer h =
      let (outcome, status, found, error, hash) = complete_with-ok input_hash result v h in
      analyzed result outcome valid answer status found error hash
  after_analysis-ok input_hash v (err message) valid answer h =
      let (outcome, status, error, hash) = fail_with-ok input_hash message failed_analysis v h in
      threw message outcome valid answer status error hash

  after_validation-ok :
      (input_hash : Text) (v : World db) (r : Option Text) {res : Res} {w' : World db}
      → validate_snapshot item.snapshot ≡ r
      → after_validation db quote sha256 analyze agent_version step step' now audit_now item
          input_hash r v
        ≡ (ok res, w')
      → Judged input_hash res.outcome res.document
  unfolding after_validation
  after_validation-ok input_hash v none valid h = after_analysis-ok input_hash v _ valid refl h
  after_validation-ok input_hash v (some reason) invalid_snapshot h =
      let (outcome, status, error, hash) = fail_with-ok input_hash reason failed_validation v h in
      invalid reason outcome invalid_snapshot status error hash

  is_up_to_date-completed :
      (row : RequirementsAnalysis) (input_hash : Text)
      → is_up_to_date row input_hash ≡ true
      → row.status ≡ RequirementsAnalysisStatus.completed
  unfolding is_up_to_date
  is_up_to_date-completed row input_hash h = ground arith

  after_pending-ok :
      (input_hash : Text) (row : RequirementsAnalysis) (v : World db) {res : Res} {w' : World db}
      → after_pending db quote sha256 analyze agent_version step step' now audit_now item input_hash
          row v
        ≡ (ok res, w')
      → Judged input_hash res.outcome res.document
  unfolding after_pending
  after_pending-ok input_hash row v {res} h = elim (Bool-cases (is_up_to_date row input_hash)) [
    | inl fresh ↦
        let shape : res ≡ record { outcome = skipped_up_to_date; document = row } = ground arith in
        rw shape (current refl (is_up_to_date-completed row input_hash fresh) fresh)
    | inr stale ↦ after_validation-ok input_hash v _ refl (rw (after_pending, stale) at h)
  ]

  abbrev with_pending : Text → StoredAnalysis db → Do db Res
  with_pending input_hash placed =
      note_pending db quote sha256 analyze agent_version step step' now audit_now item
        placed.was_created
      >> after_pending db quote sha256 analyze agent_version step step' now audit_now item
          input_hash placed.doc

  abbrev with_hash : Text → Do db Res
  with_hash input_hash =
      create_pending db step step' now
        (record { intake_item_id = item.id; issue_key = item.issue_key; input_hash = input_hash })
      >>= with_pending input_hash

  -- If the requirements agent returns, then it has hashed the snapshot, and the outcome says what
  -- the document holds: the completed analysis of this very content, found or already there; a
  -- failure with the reason of the validation; a failure with the message of the analyzer, for a
  -- valid snapshot; or the result of the analyzer, completed and without an error; written
  -- documents carry the hash of the content.
  pub run_requirements_agent-Judged :
      (w : World db) (res : RequirementsAgentResult) (w' : World db)
      → run_requirements_agent db quote sha256 analyze agent_version step step' now audit_now item w
        ≡ (ok res, w')
      → (input_hash : Text) × (hash_snapshot quote sha256 item.snapshot ≡ ok input_hash)
        × Judged input_hash res.outcome res.document
  unfolding run_requirements_agent
  run_requirements_agent-Judged w res w' h =
      let (input_hash, v, hashed, more) =
        >>=-ok (λ u. (hash_snapshot quote sha256 item.snapshot, u)) with_hash w h in
      let (placed, v1, created, rest) =
        >>=-ok
          (create_pending db step step' now (record {
            intake_item_id = item.id;
            issue_key = item.issue_key;
            input_hash = input_hash;
          }))
          (with_pending input_hash) v more in
      let (u, v2, noted, last) =
        >>=-ok
          (note_pending db quote sha256 analyze agent_version step step' now audit_now item
            placed.was_created)
          (λ _.
            after_pending db quote sha256 analyze agent_version step step' now audit_now item
              input_hash placed.doc)
          v1 rest in
      (input_hash, ap (λ x. x.0) hashed, after_pending-ok input_hash placed.doc v2 last)
