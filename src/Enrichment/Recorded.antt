-- ===== src/Enrichment/Recorded.antt =====
-- Laws of record of src/db/webhook-deliveries.ts.
use aisdlc.Prelude.{◌≡◌, refl, ◌⊎◌, List, Bool, ℕ, false, first, some}
use aisdlc.Effect.{ok, err}
use aisdlc.Errors.{driver_error}
use aisdlc.Text.{same}
use aisdlc.Text.Laws.{same_refl, same_sym}
use aisdlc.Documents.{WebhookDelivery}
use aisdlc.Db.{Db, World, delivery_id_unique}
use aisdlc.Access.Unique.{Distinct}
use aisdlc.Access.Once.{insert_or_winner-Distinct, insert_or_winner-first, insert_or_winner-found}
use aisdlc.Enrichment.Deliveries.{
  record_delivery, RecordDeliveryInput, new_delivery, get_deliveries, put_deliveries,
  StoredDelivery,
}

abbrev pub deliveries : (db : Db) → World db → List WebhookDelivery
deliveries db w = db.webhook_deliveries.docs w.webhook_deliveries

abbrev pub OneRowPerDelivery : List WebhookDelivery → Type 0
OneRowPerDelivery = Distinct delivery_id_unique

module _ (db : Db) (step : World db → World db) (now : ℕ) (input : RecordDeliveryInput)
    (w : World db) where
  abbrev pub p : WebhookDelivery → Bool
  p d = same d.delivery_id input.delivery_id

  -- If no two deliveries share a delivery id before a record and after the step of the other
  -- clients, then no two do after the call, whatever its result.
  pub record_delivery-OneRowPerDelivery :
      OneRowPerDelivery (deliveries db w)
      → OneRowPerDelivery (deliveries db (step w))
      → OneRowPerDelivery (deliveries db (record_delivery db step now input w).1)
  unfolding record_delivery
  record_delivery-OneRowPerDelivery =
      insert_or_winner-Distinct db.webhook_deliveries (get_deliveries db) (put_deliveries db)
        (λ s v. refl) (new_delivery now input) p (λ a b. same_sym b.delivery_id a.delivery_id) step
        w

  -- A webhook that is delivered again, with nobody else at work and whatever the second request
  -- holds besides the id: the row of the first delivery is returned as not created, or the driver
  -- fails; in both cases nothing is written.
  pub record_delivery-again :
      (s : StoredDelivery db) (w' : World db) (now2 : ℕ) (input2 : RecordDeliveryInput)
      → record_delivery db step now input w ≡ (ok s, w')
      → input2.delivery_id ≡ input.delivery_id
      → (((record_delivery db (λ v. v) now2 input2 w').0
            ≡ ok (record { doc = s.doc; was_created = false }))
          ⊎ ((record_delivery db (λ v. v) now2 input2 w').0 ≡ err driver_error))
        × ((record_delivery db (λ v. v) now2 input2 w').1 ≡ w')
  unfolding record_delivery new_delivery
  record_delivery-again s w' now2 input2 h key =
      let there : first (λ d. same d.delivery_id input2.delivery_id) (deliveries db w')
          ≡ some s.doc =
        rw key (
          insert_or_winner-first db.webhook_deliveries (get_deliveries db) (put_deliveries db)
            (λ s v. refl) (new_delivery now input) p (λ id d. refl) (λ id. same_refl _) step w h) in
      insert_or_winner-found db.webhook_deliveries (get_deliveries db) (put_deliveries db)
        (λ s v. refl) (new_delivery now2 input2) (λ d. same d.delivery_id input2.delivery_id)
        (λ id d. refl) (λ id. same_refl _) w' s.doc there
