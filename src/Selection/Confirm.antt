-- ===== src/Selection/Confirm.antt =====
-- Laws of confirm of src/repository-selection/repository.ts, by the branches of the code.
use aisdlc.Prelude.{
  ◌≡◌, refl, inl, inr, Bool, List, first, Option-cases, Bool-cases, Option, none, some, any, false,
  ◌∙◌, true, ℕ, ◌&&◌, update_first, ap, sym, ◌++◌, ◌∷◌, [],
}
use aisdlc.Store.{ObjectId}
use aisdlc.Text.{same, codes}
use aisdlc.Effect.{Result, ok, err, and_then, ◌>>=◌, pure}
use aisdlc.Access.Laws.{find_one-eq, find_one_and_update-Updated, Updated, missed, hit}
use aisdlc.Errors.{Error, selection_not_found, selection_conflict, selection_validation, Do}
use aisdlc.Db.{Db, World}
use aisdlc.Collections.{RepositorySelectionStatus}
use aisdlc.AuditLog.{append}
use aisdlc.AuditLog.Laws.{
  append-frame, entries, all_but_audit, append-ok, stored, append-err, append-error,
  is_append_error,
}
use aisdlc.Documents.{RepositorySelection}
use aisdlc.Intake.Repository.{or_else}
use aisdlc.Selection.Repository.{
  ConfirmSelectionInput, confirm, get_selections, put_selections, of_run, is_confirmable,
  same_selection_status, apply_confirmation, confirmed_entry, require_updated,
}
use aisdlc.Effect.Laws.{Result-cases}
use aisdlc.Access.{find_one_and_update}

abbrev pub selections : (db : Db) → World db → List RepositorySelection
selections db w = db.repository_selections.docs w.repository_selections

-- `v` with the selections of `w'`.
abbrev pub all_but_selections : {db : Db} → World db → World db → World db
all_but_selections v w' = record v { repository_selections = w'.repository_selections }

-- The repository to confirm is one that the matching found.
abbrev pub is_candidate : ConfirmSelectionInput → RepositorySelection → Bool
is_candidate input row = any (λ id. same id input.repository_id) row.candidate_repository_ids

abbrev pub of_run_in : ObjectId → RepositorySelectionStatus → RepositorySelection → Bool
of_run_in run_id status row = of_run run_id row && same_selection_status row.status status

module _ (db : Db) (step : World db → World db) (now audit_now : ℕ) (run_id : ObjectId)
    (input : ConfirmSelectionInput) (w : World db) where
  abbrev pub confirmed : RepositorySelection → RepositorySelection
  confirmed = apply_confirmation (or_else input.confirm_now now) input

  -- The audit entry of a confirmation: one more entry in the log, or the error that it threw.
  pub data Recorded (before : World db) (old : RepositorySelection)
      (r : Result Error RepositorySelection) (w' : World db) : Type 0 where
    entered :
        (id : ObjectId)
        → r ≡ ok (confirmed old)
        → entries db w'
          ≡ entries db before ++ stored audit_now (confirmed_entry input (confirmed old)) id ∷ []
        → Recorded before old r w'
    unrecorded :
        (e : Error)
        → r ≡ err e
        → is_append_error e ≡ true
        → entries db w' ≡ entries db before
        → Recorded before old r w'

  pub data Confirmed (r : Result Error RepositorySelection) (w' : World db) : Type 0 where
    absent :
        first (of_run run_id) (selections db w) ≡ none
        → r ≡ err (selection_not_found run_id)
        → w' ≡ w
        → Confirmed r w'
    -- The selection is already made, or the matching failed.
    closed :
        (row : RepositorySelection)
        → first (of_run run_id) (selections db w) ≡ some row
        → is_confirmable row.status ≡ false
        → r ≡ err (selection_conflict run_id)
        → w' ≡ w
        → Confirmed r w'
    no_candidate :
        (row : RepositorySelection)
        → first (of_run run_id) (selections db w) ≡ some row
        → is_candidate input row ≡ false
        → r ≡ err (selection_validation (codes "repositoryId"))
        → w' ≡ w
        → Confirmed r w'
    -- Another client changed the status after the row was read.
    lost :
        (row : RepositorySelection)
        → first (of_run run_id) (selections db w) ≡ some row
        → first (of_run_in run_id row.status) (selections db (step w)) ≡ none
        → r ≡ err (selection_conflict run_id)
        → selections db w' ≡ selections db (step w)
        → w' ≡ all_but_selections (step w) w'
        → Confirmed r w'
    -- Written; the result is the new row, or the error of the audit entry.
    chosen :
        (row old : RepositorySelection)
        → first (of_run run_id) (selections db w) ≡ some row
        → is_confirmable row.status ≡ true
        → is_candidate input row ≡ true
        → first (of_run_in run_id row.status) (selections db (step w)) ≡ some old
        → Recorded (step w) old r w'
        → selections db w'
          ≡ update_first (of_run_in run_id row.status) confirmed (selections db (step w))
        → w' ≡ all_but_selections (all_but_audit (step w) w') w'
        → Confirmed r w'

  -- What follows the write: the audit entry, which leaves the selections alone.
  tail : Option RepositorySelection → Do db RepositorySelection
  unfolding require_updated
  tail result = do
    updated ← require_updated db run_id result
    _ ← append db audit_now (confirmed_entry input updated)
    pure updated

  abbrev entry_of : RepositorySelection → Do db ObjectId
  entry_of old = append db audit_now (confirmed_entry input (confirmed old))

  tail-Recorded :
      (old : RepositorySelection) (v : World db)
      → entries db v ≡ entries db (step w)
      → Recorded (step w) old (tail (some (confirmed old)) v).0 (tail (some (confirmed old)) v).1
  unfolding tail
  tail-Recorded old v log = elim (Result-cases (entry_of old v).0) [
    | inl (id, fine) ↦
        let (added, frame) =
          append-ok db audit_now (confirmed_entry input (confirmed old)) v
            (λ i. (fine i, (entry_of old v).1)) in
        rw fine (entered id refl (rw log at added))
    | inr (e, thrown) ↦
        let failed : entry_of old v ≡ (err e, (entry_of old v).1) =
          λ i. (thrown i, (entry_of old v).1) in
        let kept = append-err db audit_now (confirmed_entry input (confirmed old)) v failed in
        let refused =
          append-error db audit_now (confirmed_entry input (confirmed old)) v e _ failed in
        rw thrown (unrecorded e refl refused (ap (entries db) kept ∙ log))
  ]

  tail-frame :
      (old : RepositorySelection) (v : World db)
      → (tail (some (confirmed old)) v).1 ≡ all_but_audit v (tail (some (confirmed old)) v).1
  unfolding tail
  tail-frame old v =
      let frame = append-frame db audit_now (confirmed_entry input (confirmed old)) v in
      elim (Result-cases (entry_of old v).0) [
        | inl (id, fine) ↦ rw fine frame
        | inr (e, thrown) ↦ rw thrown frame
      ]

  -- Two frames, one after the other.
  both-frames :
      (v w' : World db)
      → v ≡ all_but_selections (step w) v
      → w' ≡ all_but_audit v w'
      → w' ≡ all_but_selections (all_but_audit (step w) w') w'
  both-frames v w' h k =
      let same_selections : v.repository_selections ≡ w'.repository_selections =
        ap (λ u. u.repository_selections) (sym k) in
      k
      ∙ ap (λ u. all_but_audit u w') h
      ∙ ap (λ rows. record (step w) { repository_selections = rows; audit_log = w'.audit_log })
          same_selections

  abbrev swap : RepositorySelection → Result Error (Option RepositorySelection) × World db
  swap row =
      find_one_and_update db.repository_selections (get_selections db) (put_selections db)
        (of_run_in run_id row.status) confirmed (step w)

  abbrev IsSwapped :
      RepositorySelection → Result Error (Option RepositorySelection) → World db → Type 0
  IsSwapped row r v =
      Updated db.repository_selections (get_selections db) (put_selections db) (λ s u. refl)
        (of_run_in run_id row.status) confirmed (step w) r v

  after_swap :
      (row : RepositorySelection)
      → first (of_run run_id) (selections db w) ≡ some row
      → is_confirmable row.status ≡ true
      → is_candidate input row ≡ true
      → (r : Result Error (Option RepositorySelection)) (v : World db) → IsSwapped row r v
      → v ≡ all_but_selections (step w) v
      → Confirmed (and_then r tail v).0 (and_then r tail v).1
  unfolding tail
  after_swap row found is_open candidate r v (missed gone result kept) frame =
      rw result (lost row found gone refl kept frame)
  after_swap row found is_open candidate r v (hit old met result written) frame =
      let audited = tail-frame old v in
      let same_rows = ap (selections db) audited in
      rw result (
        chosen row old found is_open candidate met (tail-Recorded old v (ap (entries db) frame))
          (same_rows ∙ written) (both-frames v (tail (some (confirmed old)) v).1 frame audited))

  swap-frame : (row : RepositorySelection) → (swap row).1 ≡ all_but_selections (step w) (swap row).1
  unfolding find_one_and_update
  swap-frame row = refl

  -- Confirming a repository ends in one of five ways: no selection for the run; a selection that
  -- is neither pending nor ambiguous; a repository that is not among its candidates (these write
  -- nothing and name the cause); a status that another client changed after the read (the
  -- selections, the log and the rest of the database are as the others left them, and a conflict
  -- is thrown); or the row is selected with the given repository, nothing else but the log
  -- changes, and either the result is the new row and the log has the one entry more, or the
  -- audit entry is refused, its error is thrown and the log is as the others left it.
  pub confirm-Confirmed :
      Confirmed
        (confirm db step now audit_now run_id input w).0
        (confirm db step now audit_now run_id input w).1
  unfolding confirm tail
  confirm-Confirmed =
      let look =
        find_one-eq db.repository_selections (get_selections db) (put_selections db) (of_run run_id)
          w in
      elim (Option-cases (first (of_run run_id) (selections db w))) [
        | inl missing ↦ rw (look, missing) (absent missing refl refl)
        | inr (row, found) ↦ elim (Bool-cases (is_confirmable row.status)) [
          | inr not_open ↦ rw (look, found, not_open) (closed row found not_open refl refl)
          | inl is_open ↦ elim (Bool-cases (is_candidate input row)) [
            | inr other ↦ rw (look, found, is_open, other) (no_candidate row found other refl refl)
            | inl candidate ↦
                rw (look, found, is_open, candidate)
                  (after_swap row found is_open candidate _ _
                    (find_one_and_update-Updated db.repository_selections (get_selections db)
                      (put_selections db) (λ s u. refl) (of_run_in run_id row.status) confirmed
                      (step w))
                    (swap-frame row))
          ]
        ]
      ]
