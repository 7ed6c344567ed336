-- ===== src/Runs/Progress.antt =====
-- queueApprovedRuns of src/orchestrator/worker.ts, as what it makes of the stored runs.
use aisdlc.Prelude.{
  ℕ, ◌≡◌, refl, arith, List, [], ◌∷◌, true, any, any-append, ◌⊎◌, inl, inr, first-some→any, ◌≢◌,
  All,
}
use aisdlc.Db.{Db, World}
use aisdlc.Effect.{Result, ok, err, and_then}
use aisdlc.Errors.{Error}
use aisdlc.Store.{ObjectId}
use aisdlc.AuditLog.Laws.{append-frame}
use aisdlc.Documents.{IntakeItem}
use aisdlc.Runs.Repository.{of_item, create_if_absent, StoredRun, new_run}
use aisdlc.Runs.Laws.{runs, Made, reused, created, lost, deleted, refused, create_if_absent-Made}
use aisdlc.Runs.Worker.{
  QueueRunsSummary, ItemOutcome, item_queued, item_already_queued, item_failed, visit, count,
  queue_from, queue_approved_runs, queue_item, or_failed, after_create, approval_input,
  run_queued_entry,
}

abbrev pub HasRun : (db : Db) → World db → ObjectId → Type 0
HasRun db w id = any (of_item id) (runs db w) ≡ true

-- Other clients may add runs, and delete none.
abbrev pub KeepsRuns : (db : Db) → (World db → World db) → Type 0
KeepsRuns db step = (v : World db) (id : ObjectId) → HasRun db v id → HasRun db (step v) id

module _ (db : Db) (step step' : World db → World db) (now audit_now : ℕ)
    (keeps : KeepsRuns db step) (keeps' : KeepsRuns db step') where
  Made-keeps :
      (item : IntakeItem) (w : World db) {r : Result Error (StoredRun db)} {w' : World db}
      → Made db step step' now (approval_input item) w r w'
      → (id : ObjectId) → HasRun db w id
      → HasRun db w' id
  Made-keeps item w (reused run found result end) id h = rw end h
  Made-keeps item w (created new none_yet free result written) id h =
      let more =
        any-append (of_item id) (runs db (step w)) (new_run now (approval_input item) new ∷ []) in
      let kept = keeps w id h in rw written (ground arith)
  Made-keeps item w (lost winner none_yet found result end) id h =
      rw end (keeps' (step w) id (keeps w id h))
  Made-keeps item w (deleted none_yet gone result end) id h =
      rw end (keeps' (step w) id (keeps w id h))
  Made-keeps item w (refused none_yet result end) id h = rw end (keeps w id h)

  Made-has :
      (item : IntakeItem) (w : World db) {r : Result Error (StoredRun db)} {w' : World db}
      → Made db step step' now (approval_input item) w r w'
      → HasRun db w' item.id ⊎ ((e : Error) × (r ≡ err e))
  unfolding any new_run
  Made-has item w (reused run found result end) =
      inl (rw end (first-some→any (of_item item.id) _ found))
  Made-has item w (created new none_yet free result written) =
      let more =
        any-append (of_item item.id) (runs db (step w))
          (new_run now (approval_input item) new ∷ []) in
      inl (rw written (ground arith))
  Made-has item w (lost winner none_yet found result end) =
      inl (rw end (first-some→any (of_item item.id) _ found))
  Made-has item w (deleted none_yet gone result end) = inr (_, result)
  Made-has item w (refused none_yet result end) = inr (_, result)

  abbrev made : IntakeItem → World db → Result Error (StoredRun db) × World db
  made item w = create_if_absent db step step' now (approval_input item) w

  after_create-runs :
      (item : IntakeItem) (s : StoredRun db) (v : World db)
      → runs db (after_create db step step' now audit_now item s v).1 ≡ runs db v
  unfolding after_create
  after_create-runs item s v =
      let frame = append-frame db audit_now (run_queued_entry item s.doc) v in ground arith

  -- The rest of the call writes to the audit log only.
  rest-runs :
      (item : IntakeItem) (r : Result Error (StoredRun db)) (v : World db)
      → runs db (and_then r (after_create db step step' now audit_now item) v).1 ≡ runs db v
  rest-runs item (ok s) v = after_create-runs item s v
  rest-runs item (err e) v = refl

  visit-runs :
      (item : IntakeItem) (w : World db)
      → runs db (visit db step step' now audit_now item w).1 ≡ runs db (made item w).1
  unfolding visit queue_item
  visit-runs item w = rest-runs item (made item w).0 (made item w).1

  visit-keeps :
      (item : IntakeItem) (w : World db) (id : ObjectId)
      → HasRun db w id
      → HasRun db (visit db step step' now audit_now item w).1 id
  visit-keeps item w id h =
      let kept =
        Made-keeps item w (create_if_absent-Made db step step' now (approval_input item) w) id h in
      let runs_eq = visit-runs item w in rw runs_eq kept

  rest-failed :
      (item : IntakeItem) (r : Result Error (StoredRun db)) (v : World db) {e : Error}
      → r ≡ err e
      → or_failed (and_then r (after_create db step step' now audit_now item) v).0 ≡ item_failed
  unfolding or_failed
  rest-failed item r v h = rw h refl

  visit-has :
      (item : IntakeItem) (w : World db)
      → HasRun db (visit db step step' now audit_now item w).1 item.id
        ⊎ ((visit db step step' now audit_now item w).0 ≡ item_failed)
  unfolding visit queue_item
  visit-has item w =
      elim (Made-has item w (create_if_absent-Made db step step' now (approval_input item) w)) [
        | inl has ↦ inl (rw (visit-runs item w) has)
        | inr (e, thrown) ↦ inr (rest-failed item (made item w).0 (made item w).1 thrown)
      ]

  abbrev after : List IntakeItem → QueueRunsSummary → World db → QueueRunsSummary × World db
  after items s w = queue_from db step step' now audit_now s items w

  queue_from-keeps :
      (items : List IntakeItem) (s : QueueRunsSummary) (w : World db) (id : ObjectId)
      → HasRun db w id
      → HasRun db (after items s w).1 id
  unfolding queue_from
  queue_from-keeps [] s w id h = h
  queue_from-keeps (item ∷ items) s w id h = queue_from-keeps items _ _ id (visit-keeps item w id h)

  count-failed_none :
      (outcome : ItemOutcome) (s : QueueRunsSummary)
      → (count outcome s).failed ≡ 0
      → (s.failed ≡ 0) × (outcome ≢ item_failed)
  unfolding count
  count-failed_none item_queued s h = (h, λ e. cc)
  count-failed_none item_already_queued s h = (h, λ e. cc)
  count-failed_none item_failed s h = (omega (arith, h), omega (arith, h))

  queue_from-failed_none :
      (items : List IntakeItem) (s : QueueRunsSummary) (w : World db)
      → (after items s w).0.failed ≡ 0
      → s.failed ≡ 0
  unfolding queue_from
  queue_from-failed_none [] s w h = h
  queue_from-failed_none (item ∷ items) s w h =
      (count-failed_none _ s (queue_from-failed_none items _ _ h)).0

  queue_from-All :
      (items : List IntakeItem) (s : QueueRunsSummary) (w : World db)
      → (after items s w).0.failed ≡ 0
      → All (λ item. HasRun db (after items s w).1 item.id) items
  unfolding queue_from
  queue_from-All [] s w h = tt
  queue_from-All (item ∷ items) s w h =
      let fine = (count-failed_none _ s (queue_from-failed_none items _ _ h)).1 in
      elim (visit-has item w) [
        | inl has ↦ (queue_from-keeps items _ _ item.id has, queue_from-All items _ _ h)
        | inr failed ↦ absurd (fine failed)
      ]

  -- If other clients delete no run during a pass, and the pass counts no item as failed, then
  -- every approved item that it was given has a run at its end.
  pub queue_approved_runs-All :
      (approved : List IntakeItem) (w : World db)
      → (queue_approved_runs db step step' now audit_now approved w).0.failed ≡ 0
      → All
          (λ item. HasRun db (queue_approved_runs db step step' now audit_now approved w).1 item.id)
          approved
  unfolding queue_approved_runs
  queue_approved_runs-All approved w none_failed = queue_from-All approved _ w none_failed
