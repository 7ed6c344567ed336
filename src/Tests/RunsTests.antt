-- ===== src/Tests/RunsTests.antt =====
-- src/orchestrator, src/db/webhook-deliveries.ts, src/enrichment: the theorems at concrete data.
use aisdlc.Prelude.{List, [], ◌∷◌, none, ◌≡◌, refl, arith, All, ◌⊎◌, any, first, false}
use aisdlc.Text.{Text, codes, same, is_empty, trim}
use aisdlc.Access.{find_one, insert_or_winner}
use aisdlc.AuditLog.{append, require_non_empty}
use aisdlc.Effect.{Result, ok, err}
use aisdlc.Errors.{Error, driver_error}
use aisdlc.Collections.{IntakeStatus, RunTrigger}
use aisdlc.Documents.{IntakeItem}
use aisdlc.Db.{World}
use aisdlc.Runs.Repository.{CreateRunInput, create_if_absent, StoredRun, new_run}
use aisdlc.Runs.Worker.{queue_approved_runs, QueueRunsSummary}
use aisdlc.Runs.Laws.{Made, create_if_absent-Made}
use aisdlc.Runs.Once.{create_if_absent-again}
use aisdlc.Runs.Progress.{HasRun, queue_approved_runs-All}
use aisdlc.Enrichment.Deliveries.{
  record_delivery, RecordDeliveryInput, StoredDelivery, record_pending,
}
use aisdlc.Enrichment.Recorded.{deliveries, OneRowPerDelivery, record_delivery-again}
use aisdlc.Enrichment.Worker.{
  FetchIssueResult, fetch_failed, enrich_delivery, EnrichmentOutcome, transient,
}
use aisdlc.Enrichment.Enriched.{Enriched, enrich_delivery-Enriched}
use aisdlc.Enrichment.Budget.{HasBudget, IsCurrent, enrich_delivery-HasBudget}
use aisdlc.Tests.Fixtures.{
  test_db, test_world, alone, test_text, test_item, test_run, test_delivery,
}

abbrev run_input : CreateRunInput
run_input = record { intake_item_id = 1; issue_key = codes "A-1"; trigger = RunTrigger.approval }

abbrev other_input : CreateRunInput
other_input = record { intake_item_id = 2; issue_key = codes "A-2"; trigger = RunTrigger.approval }

create_if_absent-Made_example :
    Made test_db alone alone 5 other_input test_world
      (create_if_absent test_db alone alone 5 other_input test_world).0
      (create_if_absent test_db alone alone 5 other_input test_world).1
create_if_absent-Made_example = create_if_absent-Made test_db alone alone 5 other_input test_world

abbrev stored_run : StoredRun test_db
stored_run = record { doc = test_run; was_created = false }

reused_run :
    create_if_absent test_db alone alone 5 run_input test_world ≡ (ok stored_run, test_world)
unfolding create_if_absent test_db test_world first find_one
reused_run = refl

create_if_absent-again_example :
    create_if_absent test_db alone alone 9 run_input test_world ≡ (ok stored_run, test_world)
create_if_absent-again_example =
    create_if_absent-again test_db alone alone 5 run_input test_world stored_run test_world alone
      alone 9 reused_run

abbrev approved_items : List IntakeItem
approved_items =
    test_item 1 (codes "A-1") IntakeStatus.approved
    ∷ test_item 2 (codes "A-2") IntakeStatus.approved
    ∷ []

abbrev pass : QueueRunsSummary × World test_db
pass = queue_approved_runs test_db alone alone 5 6 approved_items test_world

none_failed : pass.0.failed ≡ 0
unfolding queue_approved_runs test_db test_world first any find_one insert_or_winner new_run append
    require_non_empty is_empty trim
none_failed = refl

queue_approved_runs-All_example : All (λ item. HasRun test_db pass.1 item.id) approved_items
queue_approved_runs-All_example =
    queue_approved_runs-All test_db alone alone 5 6 (λ v id h. h) (λ v id h. h) approved_items
      test_world none_failed

abbrev delivery_input : RecordDeliveryInput
delivery_input = record {
  delivery_id = codes "w";
  status = record_pending;
  event = none;
  issue_key = none;
  event_timestamp = none;
  payload = none;
  invalid_reason = none;
  received_at = none;
}

test_deliveries-OneRowPerDelivery : OneRowPerDelivery (deliveries test_db test_world)
unfolding test_db test_world any
test_deliveries-OneRowPerDelivery = (refl, tt)

abbrev stored_delivery : StoredDelivery test_db
stored_delivery = record { doc = test_delivery; was_created = false }

recorded :
    record_delivery test_db alone 5 delivery_input test_world ≡ (ok stored_delivery, test_world)
unfolding record_delivery test_db test_world first any same insert_or_winner
recorded = refl

record_delivery-again_example :
    (((record_delivery test_db alone 9 delivery_input test_world).0 ≡ ok stored_delivery)
      ⊎ ((record_delivery test_db alone 9 delivery_input test_world).0 ≡ err driver_error))
    × ((record_delivery test_db alone 9 delivery_input test_world).1 ≡ test_world)
record_delivery-again_example =
    record_delivery-again test_db alone 5 delivery_input test_world stored_delivery test_world 9
      delivery_input recorded refl

abbrev get_issue : Text → FetchIssueResult
get_issue key = fetch_failed transient (codes "timeout")

abbrev enriched_run : Result Error EnrichmentOutcome × World test_db
enriched_run =
    enrich_delivery test_db test_text test_text get_issue alone alone 9 test_delivery test_world

enrich_delivery-Enriched_example :
    Enriched test_db test_text test_text get_issue alone alone 9 test_delivery test_world
      enriched_run.0 enriched_run.1
enrich_delivery-Enriched_example =
    enrich_delivery-Enriched test_db test_text test_text get_issue alone alone 9 test_delivery
      test_world

test_deliveries-HasBudget : All HasBudget (deliveries test_db test_world)
unfolding test_db test_world
test_deliveries-HasBudget = (λ pending. omega arith, tt)

test_deliveries-IsCurrent :
    All
      (IsCurrent test_db test_text test_text get_issue alone alone 9 test_delivery test_world)
      (deliveries test_db test_world)
unfolding test_db test_world
test_deliveries-IsCurrent = (λ met. (refl, refl), tt)

enrich_delivery-HasBudget_example : All HasBudget (deliveries test_db enriched_run.1)
enrich_delivery-HasBudget_example =
    enrich_delivery-HasBudget test_db test_text test_text get_issue alone alone 9 test_delivery
      test_world test_deliveries-IsCurrent test_deliveries-HasBudget test_deliveries-HasBudget
      test_deliveries-HasBudget
