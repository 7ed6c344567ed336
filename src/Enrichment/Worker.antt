-- ===== src/Enrichment/Worker.antt =====
-- src/enrichment/worker.ts: one delivery, and isRetryable of src/neutara/client.ts. The client is a
-- parameter: what getIssue answers for a key. A clock reading serves for all that one delivery needs.
use aisdlc.Prelude.{
  Bool, true, false, not, ◌||◌, ◌+◌, ◌*◌, ◌^◌, ◌++◌, leb, if◌then◌else◌, Option, ℕ, List, some, [],
  none, ◌∷◌,
}
use Prim.Native.Nat.{min}
use aisdlc.Effect.{◌>>=◌, ◌>>◌, pure}
use aisdlc.Db.{Db, World}
use aisdlc.Collections.{IntakeSource}
use aisdlc.Text.{Text, codes}
use aisdlc.Documents.{IntakeSnapshot, WebhookDelivery, IntakeSnapshotMeta}
use aisdlc.Intake.Repository.{or_else, CreateIntakeInput, create}
use aisdlc.Enrichment.Deliveries.{mark_enriched, mark_delivery_failed, schedule_retry}
use aisdlc.Errors.{Do}

pub record Person : Type 0 where
  pub email : Option Text
  pub display_name : Option Text

pub record NeutaraIssue : Type 0 where
  pub key : Text
  pub cf_key : Option Text
  pub summary : Text
  pub description : Option Text
  pub type : Option Text
  pub priority : Option Text
  pub status_name : Option Text
  pub space_key : Option Text
  pub space_name : Option Text
  pub reporter : Option Person
  pub assignee : Option Person
  pub parent_key : Option Text
  pub labels : Option (List Text)
  pub created_at : Option Text

pub data FetchFailureKind : Type 0 where
  not_found unauthorized malformed too_large transient : FetchFailureKind

pub data FetchIssueResult : Type 0 where
  fetched : NeutaraIssue → FetchIssueResult
  fetch_failed : FetchFailureKind → Text → FetchIssueResult

unfoldable pub is_retryable_fetch : FetchFailureKind → Bool
is_retryable_fetch transient = true
is_retryable_fetch _ = false

unfoldable pub kind_name : FetchFailureKind → Text
kind_name not_found = codes "not_found"
kind_name unauthorized = codes "unauthorized"
kind_name malformed = codes "malformed"
kind_name too_large = codes "too_large"
kind_name transient = codes "transient"

abbrev pub enrichment_retry_base_ms : ℕ
enrichment_retry_base_ms = 60000

abbrev pub enrichment_retry_max_ms : ℕ
enrichment_retry_max_ms = 60 * 60000

unfoldable pub enrichment_backoff_ms : ℕ → ℕ
enrichment_backoff_ms attempts =
    min enrichment_retry_max_ms (enrichment_retry_base_ms * 2 ^ attempts)

-- `p?.email ?? p?.displayName ?? null`
abbrev contact : Option Person → Option Text
contact none = none
contact (some p) = elim p.email [ none ↦ p.display_name | some e ↦ some e ]

unfoldable pub to_snapshot : NeutaraIssue → IntakeSnapshot
to_snapshot issue = record {
  title = issue.summary;
  description = or_else issue.description [];
  issue_type = or_else issue.type (codes "task");
  priority = issue.priority;
  reporter = contact issue.reporter;
  project = issue.space_key;
  labels = some (or_else issue.labels []);
  parent_key = issue.parent_key;
}

unfoldable pub to_snapshot_meta : NeutaraIssue → ℕ → IntakeSnapshotMeta
to_snapshot_meta issue fetched_at = record {
  created_at = issue.created_at;
  cf_key = issue.cf_key;
  status = issue.status_name;
  assignee = contact issue.assignee;
  space_name = issue.space_name;
  description_truncated = none;
  fetched_at = some fetched_at;
}

pub data EnrichmentOutcome : Type 0 where
  outcome_enriched retry_scheduled failed_permanently skipped_no_issue_key : EnrichmentOutcome

abbrev pub usable_key : Option Text → Option Text
usable_key none = none
usable_key (some []) = none
usable_key (some (c ∷ s)) = some (c ∷ s)

unfoldable pub failure_message : FetchFailureKind → Text → Text
unfolding kind_name
failure_message kind message = kind_name kind ++ (codes ": " ++ message)

unfoldable pub gives_up : FetchFailureKind → WebhookDelivery → Bool
unfolding is_retryable_fetch
gives_up kind delivery =
    not (is_retryable_fetch kind) || leb delivery.max_attempts (delivery.attempts + 1)

unfoldable pub enriched_input : NeutaraIssue → WebhookDelivery → ℕ → CreateIntakeInput
unfolding to_snapshot to_snapshot_meta
enriched_input issue delivery fetched_at = record {
  issue_key = issue.key;
  source = IntakeSource.webhook;
  snapshot = to_snapshot issue;
  snapshot_meta = some (to_snapshot_meta issue fetched_at);
  delivery_ref = some delivery.id;
  received_at = some delivery.received_at;
}

module _ (db : Db) (quote sha256 : Text → Text) (get_issue : Text → FetchIssueResult)
    (step step' : World db → World db) (now : ℕ) where
  unfoldable pub after_fetch : WebhookDelivery → FetchIssueResult → Do db EnrichmentOutcome
  unfolding gives_up failure_message enrichment_backoff_ms enriched_input mark_enriched
      schedule_retry mark_delivery_failed
  after_fetch delivery (fetch_failed kind message) =
      if gives_up kind delivery
      then (do
        mark_delivery_failed db delivery.delivery_id (failure_message kind message) now
        pure failed_permanently)
      else (do
        schedule_retry db delivery.delivery_id (failure_message kind message)
            (now + enrichment_backoff_ms delivery.attempts) now
        pure retry_scheduled)
  after_fetch delivery (fetched issue) = do
    created ← create db quote sha256 step step' now now (enriched_input issue delivery now)
    mark_enriched db delivery.delivery_id created.id now
    pure outcome_enriched

  unfoldable pub with_key : WebhookDelivery → Option Text → Do db EnrichmentOutcome
  unfolding after_fetch mark_delivery_failed
  with_key delivery none = do
    mark_delivery_failed db delivery.delivery_id (codes "delivery has no issueKey") now
    pure skipped_no_issue_key
  with_key delivery (some issue_key) = after_fetch delivery (get_issue issue_key)

  unfoldable pub enrich_delivery : WebhookDelivery → Do db EnrichmentOutcome
  unfolding with_key
  enrich_delivery delivery = with_key delivery (usable_key delivery.issue_key)
