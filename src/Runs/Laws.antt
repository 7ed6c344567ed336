-- ===== src/Runs/Laws.antt =====
-- Laws of createIfAbsent of src/orchestrator/repository.ts, by the branches of the code.
use aisdlc.Prelude.{
  ◌≡◌, refl, inl, inr, Bool, List, first, Option-cases, none, some, any, false, true, ◌++◌, ◌∷◌, [],
  ℕ,
}
use aisdlc.Store.{ObjectId}
use aisdlc.Effect.{Result, ok, err}
use aisdlc.Access.Laws.{
  find_one-eq, insert_or_winner-Placed, Placed, fresh, raced, vanished, broken,
}
use aisdlc.Errors.{Error, duplicate_key_error, driver_error}
use aisdlc.Db.{Db, World}
use aisdlc.Documents.{Run}
use aisdlc.Runs.Repository.{
  CreateRunInput, new_run, of_item, create_if_absent, StoredRun, get_runs, put_runs,
}

abbrev pub runs : (db : Db) → World db → List Run
runs db w = db.runs.docs w.runs

module _ (db : Db) (step step' : World db → World db) (now : ℕ) (input : CreateRunInput)
    (w : World db) where
  abbrev pub p : Run → Bool
  p = of_item input.intake_item_id

  -- The call: the run was there; it was inserted; another client inserted it first; or it threw.
  pub data Made (r : Result Error (StoredRun db)) (w' : World db) : Type 0 where
    reused :
        (run : Run)
        → first p (runs db w) ≡ some run
        → r ≡ ok (record { doc = run; was_created = false })
        → w' ≡ w
        → Made r w'
    created :
        (id : ObjectId)
        → first p (runs db w) ≡ none
        → any p (runs db (step w)) ≡ false
        → r ≡ ok (record { doc = new_run now input id; was_created = true })
        → runs db w' ≡ runs db (step w) ++ new_run now input id ∷ []
        → Made r w'
    lost :
        (winner : Run)
        → first p (runs db w) ≡ none
        → first p (runs db (step' (step w))) ≡ some winner
        → r ≡ ok (record { doc = winner; was_created = false })
        → w' ≡ step' (step w)
        → Made r w'
    deleted :
        first p (runs db w) ≡ none
        → first p (runs db (step' (step w))) ≡ none
        → r ≡ err duplicate_key_error
        → w' ≡ step' (step w)
        → Made r w'
    refused : first p (runs db w) ≡ none → r ≡ err driver_error → w' ≡ step w → Made r w'

  Placed-Made :
      {r : Result Error (StoredRun db)} {w' : World db}
      → first p (runs db w) ≡ none
      → Placed db.runs
          (get_runs db)
          (put_runs db)
          (λ s v. refl)
          step'
          (new_run now input)
          p
          (step w)
          r
          w'
      → Made r w'
  unfolding new_run
  Placed-Made none_yet (fresh id free result written) = created id none_yet free result written
  Placed-Made none_yet (raced id winner taken found result end) =
      lost winner none_yet found result end
  Placed-Made none_yet (vanished id taken gone result end) = deleted none_yet gone result end
  Placed-Made none_yet (broken result end) = refused none_yet result end

  -- Creating a run for an intake item ends in one of five ways: the run that is there is returned
  -- and nothing is written; a queued run is inserted; another client inserted first and its run
  -- is returned; that run has gone again; or the driver failed.
  pub create_if_absent-Made :
      Made
        (create_if_absent db step step' now input w).0
        (create_if_absent db step step' now input w).1
  unfolding create_if_absent
  create_if_absent-Made =
      let look = find_one-eq db.runs (get_runs db) (put_runs db) p w in
      elim (Option-cases (first p (runs db w))) [
        | inl none_yet ↦
            rw (look, none_yet)
              (Placed-Made none_yet (
                insert_or_winner-Placed db.runs (get_runs db) (put_runs db) (λ s v. refl) step'
                  (new_run now input) p (step w)))
        | inr (run, found) ↦ rw (look, found) (reused run found refl refl)
      ]
