-- ===== src/Execution/Recorded.antt =====
-- Laws of createIfAbsent of src/change-execution/execution-repository.ts.
use aisdlc.Prelude.{◌≡◌, refl, arith, List, ℕ}
use aisdlc.Effect.{Result, ok, err, and_then}
use aisdlc.Errors.{Error}
use aisdlc.Documents.{ChangeExecution}
use aisdlc.Db.{Db, World, review_id_unique}
use aisdlc.AuditLog.Laws.{append-frame}
use aisdlc.Access.{insert_or_winner}
use aisdlc.Access.Unique.{Distinct}
use aisdlc.Access.Once.{insert_or_winner-Distinct}
use aisdlc.Execution.Executions.{
  RecordExecutionInput, record_execution, new_execution, of_review, after_place, execution_entry,
  get_executions, put_executions, StoredExecution,
}

abbrev pub executions : (db : Db) → World db → List ChangeExecution
executions db w = db.change_executions.docs w.change_executions

abbrev pub OneExecutionPerReview : List ChangeExecution → Type 0
OneExecutionPerReview = Distinct review_id_unique

eq_sym : (a b : ChangeExecution) → review_id_unique a b ≡ review_id_unique b a
eq_sym a b = ground arith

module _ (db : Db) (now audit_now : ℕ) (input : RecordExecutionInput) where
  after_place-frame :
      (s : StoredExecution db) (v : World db)
      → executions db (after_place db audit_now input s v).1 ≡ executions db v
  unfolding after_place
  after_place-frame s v =
      let frame = append-frame db audit_now (execution_entry input s.doc.id) v in ground arith

  rest-frame :
      (r : Result Error (StoredExecution db)) (v : World db)
      → executions db (and_then r (after_place db audit_now input) v).1 ≡ executions db v
  rest-frame (ok s) v = after_place-frame s v
  rest-frame (err e) v = refl

  -- If no two executions share a review before the call and after the step of the other clients,
  -- then no two executions do after it, whatever its result.
  pub record_execution-OneExecutionPerReview :
      (step : World db → World db) (w : World db)
      → OneExecutionPerReview (executions db w)
      → OneExecutionPerReview (executions db (step w))
      → OneExecutionPerReview (executions db (record_execution db step now audit_now input w).1)
  unfolding record_execution
  record_execution-OneExecutionPerReview step w before after =
      rw
        (rest-frame
          (insert_or_winner db.change_executions (get_executions db) (put_executions db) step
            (new_execution now input) (of_review input.review_id) w).0
          (insert_or_winner db.change_executions (get_executions db) (put_executions db) step
            (new_execution now input) (of_review input.review_id) w).1)
        (insert_or_winner-Distinct db.change_executions (get_executions db) (put_executions db)
          (λ s v. refl) (new_execution now input) (of_review input.review_id) eq_sym step w before
          after)
