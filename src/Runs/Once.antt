-- ===== src/Runs/Once.antt =====
-- createIfAbsent of src/orchestrator/repository.ts, called more than once.
use aisdlc.Prelude.{◌≡◌, refl, arith, first, some, false, first-append_none, ℕ}
use aisdlc.Effect.{ok}
use aisdlc.Access.Laws.{find_one-eq}
use aisdlc.Db.{Db, World}
use aisdlc.Runs.Repository.{
  CreateRunInput, new_run, of_item, create_if_absent, StoredRun, get_runs, put_runs,
}
use aisdlc.Runs.Laws.{runs, Made, reused, created, lost, deleted, refused, create_if_absent-Made}

module _ (db : Db) (step step' : World db → World db) (now : ℕ) (input : CreateRunInput)
    (w : World db) where
  Made-first :
      {s : StoredRun db} {w' : World db}
      → Made db step step' now input w (ok s) w'
      → first (of_item input.intake_item_id) (runs db w') ≡ some s.doc
  unfolding new_run
  Made-first (reused run found result end) = rw end (ground arith)
  Made-first (created id none_yet free result written) =
      let last =
        first-append_none (of_item input.intake_item_id) (runs db (step w)) (new_run now input id)
          free (ground arith) in
      rw written (ground arith)
  Made-first (lost winner none_yet found result end) = rw end (ground arith)
  Made-first (deleted none_yet gone result end) = cc
  Made-first (refused none_yet result end) = cc

  create_if_absent-first :
      {s : StoredRun db} {w' : World db}
      → create_if_absent db step step' now input w ≡ (ok s, w')
      → first (of_item input.intake_item_id) (runs db w') ≡ some s.doc
  create_if_absent-first h = Made-first (rw h at (create_if_absent-Made db step step' now input w))

  -- After a call of createIfAbsent that succeeded, whether it inserted the run, found it or lost
  -- the race, a second call for the same input, at another time and with other clients, returns
  -- the same run as not created and leaves the database as it is.
  pub create_if_absent-again :
      (s : StoredRun db) (w' : World db) (step2 step2' : World db → World db) (now2 : ℕ)
      → create_if_absent db step step' now input w ≡ (ok s, w')
      → create_if_absent db step2 step2' now2 input w'
        ≡ (ok (record { doc = s.doc; was_created = false }), w')
  unfolding create_if_absent
  create_if_absent-again s w' step2 step2' now2 h =
      rw
        (
          find_one-eq db.runs (get_runs db) (put_runs db) (of_item input.intake_item_id) w',
          create_if_absent-first h,
        )
        refl
