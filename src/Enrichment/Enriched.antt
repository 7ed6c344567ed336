-- ===== src/Enrichment/Enriched.antt =====
-- Laws of enrichDelivery of src/enrichment/worker.ts, by the branches of the code.
use aisdlc.Prelude.{
  ◌≡◌, refl, arith, inl, inr, List, Option, none, some, true, false, Bool-cases, Option-cases, ◌∙◌,
  ℕ, ◌+◌, update_first, update_first-none, sym, &&-split,
}
use aisdlc.Text.{Text, codes, same}
use aisdlc.Effect.{Result, ok, err, and_then, ◌>>◌, pure}
use aisdlc.Errors.{Error, Do}
use aisdlc.Collections.{WebhookDeliveryStatus}
use aisdlc.Documents.{WebhookDelivery}
use aisdlc.Db.{Db, World}
use aisdlc.Access.Laws.{find_one_and_update-Updated, Updated, missed, hit}
use aisdlc.Intake.Repository.{create, CreateIntakeResult}
use aisdlc.Enrichment.Deliveries.{
  update_open, mark_enriched, schedule_retry, mark_delivery_failed, is_open, get_deliveries,
  put_deliveries, apply_enriched, apply_retry, apply_delivery_failed, is_pending_delivery,
}
use aisdlc.Enrichment.Recorded.{deliveries}
use aisdlc.Enrichment.Worker.{
  FetchIssueResult, FetchFailureKind, fetched, fetch_failed, EnrichmentOutcome, outcome_enriched,
  retry_scheduled, failed_permanently, skipped_no_issue_key, gives_up, failure_message,
  enrichment_backoff_ms, enriched_input, enrich_delivery, usable_key, after_fetch, NeutaraIssue,
}

module _ (db : Db) (delivery_id : Text) (update : WebhookDelivery → WebhookDelivery)
    (w : World db) where
  abbrev discard : Option WebhookDelivery → Do db (Unit {0})
  discard _ = pure tt

  discard-docs :
      (r : Result Error (Option WebhookDelivery)) (v : World db)
      → Updated db.webhook_deliveries
          (get_deliveries db)
          (put_deliveries db)
          (λ s u. refl)
          (is_open delivery_id)
          update
          w
          r
          v
      → ((and_then r discard v).0 ≡ ok tt)
        × (deliveries db (and_then r discard v).1
            ≡ update_first (is_open delivery_id) update (deliveries db w))
  discard-docs r v (missed gone result kept) =
      rw result (refl, kept ∙ sym (update_first-none (is_open delivery_id) update _ gone))
  discard-docs r v (hit old found result written) = rw result (refl, written)

  -- An update of the open row never fails, and writes that row only.
  pub update_open-docs :
      ((update_open db delivery_id update w).0 ≡ ok tt)
      × (deliveries db (update_open db delivery_id update w).1
          ≡ update_first (is_open delivery_id) update (deliveries db w))
  unfolding update_open
  update_open-docs = discard-docs _ _ (
      find_one_and_update-Updated db.webhook_deliveries (get_deliveries db) (put_deliveries db)
        (λ s u. refl) (is_open delivery_id) update w)

-- One row, before and after: the same, or it was pending, and its id, payload and time are kept.
pub data Handled (d e : WebhookDelivery) : Type 0 where
  stays : d ≡ e → Handled d e
  handled :
      d.status ≡ WebhookDeliveryStatus.pending
      → d.id ≡ e.id
      → d.delivery_id ≡ e.delivery_id
      → d.payload ≡ e.payload
      → d.received_at ≡ e.received_at
      → d.max_attempts ≡ e.max_attempts
      → Handled d e

pub is_open-pending :
    (delivery_id : Text) (d : WebhookDelivery)
    → is_open delivery_id d ≡ true
    → d.status ≡ WebhookDeliveryStatus.pending
unfolding is_pending_delivery
is_open-pending delivery_id d met =
    let pending =
      (&&-split (same d.delivery_id delivery_id) (is_pending_delivery d.status) met).1 in
    ground arith

module _ (db : Db) (quote sha256 : Text → Text) (get_issue : Text → FetchIssueResult)
    (step step' : World db → World db) (now : ℕ) (delivery : WebhookDelivery) (w : World db) where
  abbrev outcome : Result Error EnrichmentOutcome × World db
  outcome = enrich_delivery db quote sha256 get_issue step step' now delivery w

  abbrev pub creation : NeutaraIssue → Result Error CreateIntakeResult × World db
  creation issue = create db quote sha256 step step' now now (enriched_input issue delivery now) w

  abbrev pub updated : (WebhookDelivery → WebhookDelivery) → World db → List WebhookDelivery
  updated f v = update_first (is_open delivery.delivery_id) f (deliveries db v)

  pub data Enriched (r : Result Error EnrichmentOutcome) (w' : World db) : Type 0 where
    no_key :
        usable_key delivery.issue_key ≡ none
        → r ≡ ok skipped_no_issue_key
        → deliveries db w'
          ≡ updated (apply_delivery_failed (codes "delivery has no issueKey") now) w
        → Enriched r w'
    -- Not worth a retry, or out of attempts.
    gave_up :
        (key message : Text) (kind : FetchFailureKind)
        → usable_key delivery.issue_key ≡ some key
        → get_issue key ≡ fetch_failed kind message
        → gives_up kind delivery ≡ true
        → r ≡ ok failed_permanently
        → deliveries db w' ≡ updated (apply_delivery_failed (failure_message kind message) now) w
        → Enriched r w'
    will_retry :
        (key message : Text) (kind : FetchFailureKind)
        → usable_key delivery.issue_key ≡ some key
        → get_issue key ≡ fetch_failed kind message
        → gives_up kind delivery ≡ false
        → r ≡ ok retry_scheduled
        → deliveries db w'
          ≡ updated
              (apply_retry
                (failure_message kind message)
                (now + enrichment_backoff_ms delivery.attempts)
                now)
              w
        → Enriched r w'
    -- The intake item is there, created now or before, and the row names it.
    made :
        (key : Text) (issue : NeutaraIssue) (item : CreateIntakeResult) (v : World db)
        → usable_key delivery.issue_key ≡ some key
        → get_issue key ≡ fetched issue
        → creation issue ≡ (ok item, v)
        → r ≡ ok outcome_enriched
        → deliveries db w' ≡ updated (apply_enriched item.id now) v
        → Enriched r w'
    -- The intake item could not be created: the error is thrown, and the row is not written.
    creation_failed :
        (key : Text) (issue : NeutaraIssue) (e : Error)
        → usable_key delivery.issue_key ≡ some key
        → get_issue key ≡ fetched issue
        → creation issue ≡ (err e, w')
        → r ≡ err e
        → Enriched r w'

  enriched-by :
      (key : Text) (issue : NeutaraIssue)
      → usable_key delivery.issue_key ≡ some key
      → get_issue key ≡ fetched issue
      → (r : Result Error CreateIntakeResult) (v : World db) → creation issue ≡ (r, v)
      → Enriched
          (and_then r
            (λ item. mark_enriched db delivery.delivery_id item.id now >> pure outcome_enriched)
            v).0
          (and_then r
            (λ item. mark_enriched db delivery.delivery_id item.id now >> pure outcome_enriched)
            v).1
  unfolding mark_enriched
  enriched-by key issue usable answer (ok item) v h =
      let (fine, docs) = update_open-docs db delivery.delivery_id (apply_enriched item.id now) v in
      made key issue item v usable answer h (rw fine refl) (rw fine docs)
  enriched-by key issue usable answer (err e) v h = creation_failed key issue e usable answer h refl

  failed-by :
      (key message : Text) (kind : FetchFailureKind)
      → usable_key delivery.issue_key ≡ some key
      → get_issue key ≡ fetch_failed kind message
      → Enriched
          (after_fetch db quote sha256 get_issue step step' now delivery
            (fetch_failed kind message)
            w).0
          (after_fetch db quote sha256 get_issue step step' now delivery
            (fetch_failed kind message)
            w).1
  unfolding after_fetch mark_delivery_failed schedule_retry
  failed-by key message kind usable answer =
      let failing = apply_delivery_failed (failure_message kind message) now in
      let retrying =
        apply_retry (failure_message kind message) (now + enrichment_backoff_ms delivery.attempts)
          now in
      let (fine, docs) = update_open-docs db delivery.delivery_id failing w in
      let (fine', docs') = update_open-docs db delivery.delivery_id retrying w in
      elim (Bool-cases (gives_up kind delivery)) [
        | inl stops ↦
            rw stops (gave_up key message kind usable answer stops (rw fine refl) (rw fine docs))
        | inr again ↦
            rw again
              (will_retry key message kind usable answer again (rw fine' refl) (rw fine' docs'))
      ]

  fetched-by :
      (key : Text) (answer : FetchIssueResult)
      → usable_key delivery.issue_key ≡ some key
      → get_issue key ≡ answer
      → Enriched
          (after_fetch db quote sha256 get_issue step step' now delivery answer w).0
          (after_fetch db quote sha256 get_issue step step' now delivery answer w).1
  unfolding after_fetch
  fetched-by key (fetched issue) usable h =
      enriched-by key issue usable h (creation issue).0 (creation issue).1 refl
  fetched-by key (fetch_failed kind message) usable h = failed-by key message kind usable h

  -- Enriching a delivery ends in one of five ways: no usable issue key (the row fails); the issue
  -- cannot be fetched and is given up (the row fails); it is to be retried after the backoff; the
  -- intake item is created or found and the row names it; or the creation threw, and its error is
  -- the result. In the first four, the deliveries are those of the moment of the write with the
  -- pending row of this delivery id updated.
  pub enrich_delivery-Enriched : Enriched outcome.0 outcome.1
  unfolding enrich_delivery mark_delivery_failed
  enrich_delivery-Enriched = elim (Option-cases (usable_key delivery.issue_key)) [
    | inl missing ↦
        let (fine, docs) =
          update_open-docs db delivery.delivery_id
            (apply_delivery_failed (codes "delivery has no issueKey") now) w in
        rw missing (no_key missing (rw fine refl) (rw fine docs))
    | inr (key, usable) ↦ rw usable (fetched-by key (get_issue key) usable refl)
  ]
