-- ===== src/Enrichment/Budget.antt =====
-- Laws of enrichDelivery of src/enrichment/worker.ts on the attempts of the deliveries.
use aisdlc.Prelude.{
  update_first-All, ◌≡◌, arith, List, true, false, All, All-update_first, ◌<◌, ◌+◌, ℕ,
}
use aisdlc.Effect.{Result}
use aisdlc.Errors.{Error}
use aisdlc.Text.{Text}
use aisdlc.Db.{Db, World}
use aisdlc.Collections.{WebhookDeliveryStatus}
use aisdlc.Documents.{WebhookDelivery}
use aisdlc.Enrichment.Deliveries.{is_open, apply_enriched, apply_retry, apply_delivery_failed}
use aisdlc.Intake.Repository.{create, CreateIntakeResult}
use aisdlc.Enrichment.Recorded.{deliveries}
use aisdlc.Enrichment.Enriched.{
  Enriched, enrich_delivery-Enriched, no_key, gave_up, will_retry, creation_failed,
}
use aisdlc.Enrichment.Worker.{
  FetchIssueResult, FetchFailureKind, EnrichmentOutcome, gives_up, enrich_delivery, NeutaraIssue,
  enriched_input,
}
use aisdlc.Intake.Creation.{
  create-Created, Created, existed, unhashed, unaudited, lost, deleted, unwritten,
}

-- A row that is still to be tried has an attempt left.
abbrev pub HasBudget : WebhookDelivery → Type 0
HasBudget d = d.status ≡ WebhookDeliveryStatus.pending → d.attempts < d.max_attempts

gives_up-false :
    (kind : FetchFailureKind) (d : WebhookDelivery)
    → gives_up kind d ≡ false
    → d.attempts + 1 < d.max_attempts
unfolding gives_up
gives_up-false kind d h = ground arith

module _ (db : Db) (quote sha256 : Text → Text) (get_issue : Text → FetchIssueResult)
    (step step' : World db → World db) (now : ℕ) (delivery : WebhookDelivery) (w : World db) where
  abbrev after : World db
  after = (enrich_delivery db quote sha256 get_issue step step' now delivery w).1

  -- Creating the intake item writes no delivery: the rows are those of a moment of the call.
  Created-deliveries :
      (P : List WebhookDelivery → Type 0) (issue : NeutaraIssue)
      {r : Result Error CreateIntakeResult} {v : World db}
      → Created db quote sha256 step step' now now (enriched_input issue delivery now) w r v
      → P (deliveries db w)
      → P (deliveries db (step w))
      → P (deliveries db (step' (step w)))
      → P (deliveries db v)
  Created-deliveries P issue (existed _ _ _ end) a b c = rw end a
  Created-deliveries P issue (unhashed _ _ _ _ end) a b c = rw end a
  Created-deliveries P issue (Created.made _ _ _ _ _ _ _ _ _ frame) a b c = rw frame b
  Created-deliveries P issue (unaudited _ _ _ _ _ _ _ _ frame) a b c = rw frame b
  Created-deliveries P issue (lost _ _ _ _ end) a b c = rw end c
  Created-deliveries P issue (deleted _ _ _ end) a b c = rw end c
  Created-deliveries P issue (unwritten _ _ end) a b c = rw end b

  creation-deliveries :
      (P : List WebhookDelivery → Type 0) (issue : NeutaraIssue)
      {r : Result Error CreateIntakeResult} {v : World db}
      → create db quote sha256 step step' now now (enriched_input issue delivery now) w ≡ (r, v)
      → P (deliveries db w)
      → P (deliveries db (step w))
      → P (deliveries db (step' (step w)))
      → P (deliveries db v)
  creation-deliveries P issue h = Created-deliveries P issue (
      rw h at
        (create-Created db quote sha256 step step' now now (enriched_input issue delivery now) w))

  -- The row that is written is the one that was read.
  abbrev pub IsCurrent : WebhookDelivery → Type 0
  IsCurrent d =
      is_open delivery.delivery_id d ≡ true
      → (d.attempts ≡ delivery.attempts) × (d.max_attempts ≡ delivery.max_attempts)

  Enriched-HasBudget :
      {r : Result Error EnrichmentOutcome} {w' : World db}
      → Enriched db quote sha256 get_issue step step' now delivery w r w'
      → All IsCurrent (deliveries db w)
      → All HasBudget (deliveries db w)
      → All HasBudget (deliveries db (step w))
      → All HasBudget (deliveries db (step' (step w)))
      → All HasBudget (deliveries db w')
  unfolding apply_delivery_failed apply_retry apply_enriched
  Enriched-HasBudget (no_key _ _ docs) current a b c =
      rw docs (All-update_first HasBudget _ _ _ a (λ d met h pending. cc))
  Enriched-HasBudget (gave_up _ _ _ _ _ _ _ docs) current a b c =
      rw docs (All-update_first HasBudget _ _ _ a (λ d met h pending. cc))
  Enriched-HasBudget (will_retry _ _ kind _ _ again _ docs) current a b c = rw docs (
      update_first-All HasBudget IsCurrent _ _ _ a current (λ d met same pending.
        let left = gives_up-false kind delivery again in
        let (eq, eq') = same met in omega (arith, left, eq, eq')))
  Enriched-HasBudget (Enriched.made _ issue _ v _ _ h _ docs) current a b c = rw docs (
      All-update_first HasBudget _ _ _ (creation-deliveries (All HasBudget) issue h a b c)
        (λ d met h pending. cc))
  Enriched-HasBudget (creation_failed _ issue _ _ _ h _) current a b c =
      creation-deliveries (All HasBudget) issue h a b c

  -- If every pending delivery has an attempt left, before the call and after each step of the
  -- other clients, and the pending row of this delivery has the counters that were read, then
  -- every pending delivery has an attempt left after the call.
  pub enrich_delivery-HasBudget :
      All IsCurrent (deliveries db w)
      → All HasBudget (deliveries db w)
      → All HasBudget (deliveries db (step w))
      → All HasBudget (deliveries db (step' (step w)))
      → All HasBudget (deliveries db after)
  enrich_delivery-HasBudget =
      Enriched-HasBudget
        (enrich_delivery-Enriched db quote sha256 get_issue step step' now delivery w)
