-- ===== src/Enrichment/Deliveries.antt =====
-- src/db/webhook-deliveries.ts
use aisdlc.Prelude.{Bool, true, false, ◌&&◌, ◌+◌, ℕ, Option, some, none}
use aisdlc.Effect.{◌>>=◌, pure}
use aisdlc.Db.{Db, World}
use aisdlc.Collections.{WebhookDeliveryStatus, WebhookEvent, webhook_delivery_max_attempts}
use aisdlc.Text.{Text, same}
use aisdlc.Store.{ObjectId}
use aisdlc.Access.{Stored, insert_or_winner, find_one_and_update}
use aisdlc.Documents.{WebhookDelivery}
use aisdlc.Errors.{Do}
use aisdlc.Json.{Value}
use aisdlc.Intake.Repository.{or_else}

-- The statuses that a delivery may be recorded with: RecordableStatus.
pub data RecordableStatus : Type 0 where
  record_pending record_ignored record_invalid : RecordableStatus

unfoldable pub as_delivery_status : RecordableStatus → WebhookDeliveryStatus
as_delivery_status record_pending = WebhookDeliveryStatus.pending
as_delivery_status record_ignored = WebhookDeliveryStatus.ignored
as_delivery_status record_invalid = WebhookDeliveryStatus.invalid

pub record RecordDeliveryInput : Type 0 where
  pub delivery_id : Text
  pub status : RecordableStatus
  pub event : Option WebhookEvent
  pub issue_key : Option Text
  pub event_timestamp : Option ℕ
  pub payload : Option Value
  pub invalid_reason : Option Text
  pub received_at : Option ℕ

unfoldable pub new_delivery : ℕ → RecordDeliveryInput → ObjectId → WebhookDelivery
unfolding as_delivery_status
new_delivery now input id = record {
  id = id;
  delivery_id = input.delivery_id;
  event = input.event;
  issue_key = input.issue_key;
  event_timestamp = input.event_timestamp;
  payload = input.payload;
  status = as_delivery_status input.status;
  invalid_reason = input.invalid_reason;
  attempts = 0;
  max_attempts = webhook_delivery_max_attempts;
  next_attempt_at = or_else input.received_at now;
  last_error = none;
  intake_item_id = none;
  received_at = or_else input.received_at now;
  updated_at = or_else input.received_at now;
}

unfoldable pub is_pending_delivery : WebhookDeliveryStatus → Bool
is_pending_delivery WebhookDeliveryStatus.pending = true
is_pending_delivery _ = false

-- `{ deliveryId, status: 'pending' }`
abbrev pub is_open : Text → WebhookDelivery → Bool
is_open delivery_id d = same d.delivery_id delivery_id && is_pending_delivery d.status

unfoldable pub apply_enriched : ObjectId → ℕ → WebhookDelivery → WebhookDelivery
apply_enriched intake_item_id now d = record d {
  status = WebhookDeliveryStatus.enriched;
  intake_item_id = some intake_item_id;
  last_error = none;
  updated_at = now;
}

unfoldable pub apply_retry : Text → ℕ → ℕ → WebhookDelivery → WebhookDelivery
apply_retry message next_attempt_at now d = record d {
  attempts = d.attempts + 1;
  next_attempt_at = next_attempt_at;
  last_error = some (record { message = message; at = now });
  updated_at = now;
}

unfoldable pub apply_delivery_failed : Text → ℕ → WebhookDelivery → WebhookDelivery
apply_delivery_failed message now d = record d {
  attempts = d.attempts + 1;
  status = WebhookDeliveryStatus.failed;
  last_error = some (record { message = message; at = now });
  updated_at = now;
}

module _ (db : Db) where
  abbrev pub get_deliveries : World db → db.webhook_deliveries.State
  get_deliveries w = w.webhook_deliveries

  abbrev pub put_deliveries : db.webhook_deliveries.State → World db → World db
  put_deliveries s w = record w { webhook_deliveries = s }

  abbrev pub StoredDelivery : Type 0
  StoredDelivery = Stored db.webhook_deliveries get_deliveries put_deliveries

  -- record
  unfoldable pub record_delivery :
      (World db → World db) → ℕ → RecordDeliveryInput → Do db StoredDelivery
  unfolding new_delivery
  record_delivery step now input =
      insert_or_winner db.webhook_deliveries get_deliveries put_deliveries step
        (new_delivery now input) (λ d. same d.delivery_id input.delivery_id)

  -- `updateOne`: its result is not read.
  unfoldable pub update_open : Text → (WebhookDelivery → WebhookDelivery) → Do db (Unit {0})
  update_open delivery_id update = do
    _ ←
        find_one_and_update db.webhook_deliveries get_deliveries put_deliveries
          (is_open delivery_id) update
    pure tt

  unfoldable pub mark_enriched : Text → ObjectId → ℕ → Do db (Unit {0})
  unfolding update_open
  mark_enriched delivery_id intake_item_id now =
      update_open delivery_id (apply_enriched intake_item_id now)

  unfoldable pub schedule_retry : Text → Text → ℕ → ℕ → Do db (Unit {0})
  unfolding update_open
  schedule_retry delivery_id message next_attempt_at now =
      update_open delivery_id (apply_retry message next_attempt_at now)

  unfoldable pub mark_delivery_failed : Text → Text → ℕ → Do db (Unit {0})
  unfolding update_open
  mark_delivery_failed delivery_id message now =
      update_open delivery_id (apply_delivery_failed message now)
