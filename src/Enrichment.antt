-- ===== src/Enrichment.antt =====
-- src/db/webhook-deliveries.ts and src/enrichment/worker.ts: the queue of deliveries and the
-- enrichment of one delivery into an intake item.
pub mod Deliveries
pub mod Worker
pub mod Recorded
pub mod Enriched
pub mod Budget
