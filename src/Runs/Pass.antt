-- ===== src/Runs/Pass.antt =====
-- The summary of queueApprovedRuns of src/orchestrator/worker.ts.
use aisdlc.Prelude.{ℕ, ◌+◌, ◌≡◌, refl, arith, List, [], ◌∷◌, length}
use aisdlc.Db.{Db, World}
use aisdlc.Documents.{IntakeItem}
use aisdlc.Runs.Worker.{
  QueueRunsSummary, ItemOutcome, item_queued, item_already_queued, item_failed, visit, count,
  queue_from, queue_approved_runs,
}

abbrev pub Balanced : ℕ → QueueRunsSummary → Type 0
Balanced n s = (s.examined ≡ n) × (s.queued + s.already_queued + s.failed ≡ n)

count-Balanced :
    (outcome : ItemOutcome) (n : ℕ) (s : QueueRunsSummary)
    → Balanced n s
    → Balanced (n + 1) (count outcome s)
unfolding count
count-Balanced item_queued n s h = (omega (arith, h.0), omega (arith, h.1))
count-Balanced item_already_queued n s h = (omega (arith, h.0), omega (arith, h.1))
count-Balanced item_failed n s h = (omega (arith, h.0), omega (arith, h.1))

module _ (db : Db) (step step' : World db → World db) (now audit_now : ℕ) where
  queue_from-Balanced :
      (items : List IntakeItem) (n : ℕ) (s : QueueRunsSummary) (w : World db)
      → Balanced n s
      → Balanced (n + length items) (queue_from db step step' now audit_now s items w).0
  unfolding queue_from
  queue_from-Balanced [] n s w h = (omega (arith, h.0), omega (arith, h.1))
  queue_from-Balanced (item ∷ items) n s w h =
      let outcome = (visit db step step' now audit_now item w).0 in
      let rest =
        queue_from-Balanced items (n + 1) (count outcome s)
          (visit db step step' now audit_now item w).1 (count-Balanced outcome n s h) in
      (omega (arith, rest.0), omega (arith, rest.1))

  -- A pass examines every item that it is given, whatever fails, and counts each one exactly
  -- once: as queued, as already queued or as failed.
  pub queue_approved_runs-Balanced :
      (approved : List IntakeItem) (w : World db)
      → Balanced (length approved) (queue_approved_runs db step step' now audit_now approved w).0
  unfolding queue_approved_runs
  queue_approved_runs-Balanced approved w =
      let all =
        queue_from-Balanced approved 0
          (record { examined = 0; queued = 0; already_queued = 0; failed = 0 }) w (refl, refl) in
      (omega (arith, all.0), omega (arith, all.1))
