-- ===== src/Runs/Worker.antt =====
-- src/orchestrator/worker.ts: one pass over the approved intake items. `approved` is what
-- `intake.list({ status: 'approved' }, limit)` returned; each item is handled in turn, and an error
-- at one item is counted and does not stop the pass.
use aisdlc.Prelude.{ℕ, ◌+◌, List, if◌then◌else◌, some, ◌∷◌, [], none}
use aisdlc.Effect.{Result, ok, err, ◌>>=◌, pure}
use aisdlc.Db.{Db, World}
use aisdlc.Collections.{AuditSubjectType, RunTrigger}
use aisdlc.Text.{Text, codes}
use aisdlc.Documents.{IntakeItem, Run, a_text, an_id}
use aisdlc.Runs.Repository.{create_if_absent, CreateRunInput, StoredRun}
use aisdlc.Errors.{Error, Do}
use aisdlc.AuditLog.{AuditEntryInput, append}

pub record QueueRunsSummary : Type 0 where
  pub examined : ℕ
  pub queued : ℕ
  pub already_queued : ℕ
  pub failed : ℕ

unfoldable pub orchestrator_system_actor : Text
orchestrator_system_actor = codes "system:orchestrator"

unfoldable pub run_queued_entry : IntakeItem → Run → AuditEntryInput
unfolding orchestrator_system_actor
run_queued_entry item run = record {
  actor = orchestrator_system_actor;
  action = codes "run.queued";
  subject_type = AuditSubjectType.run;
  subject_id = run.id;
  detail = some (
      (codes "issueKey", a_text item.issue_key)
      ∷ (codes "intakeItemId", an_id item.id)
      ∷ (codes "trigger", a_text (codes "approval"))
      ∷ []);
  occurred_at = none;
}

abbrev pub approval_input : IntakeItem → CreateRunInput
approval_input item = record {
  intake_item_id = item.id;
  issue_key = item.issue_key;
  trigger = RunTrigger.approval;
}

-- The counters that one item adds to.
pub data ItemOutcome : Type 0 where
  item_queued item_already_queued item_failed : ItemOutcome

unfoldable pub count : ItemOutcome → QueueRunsSummary → QueueRunsSummary
count item_queued s = record s { examined = s.examined + 1; queued = s.queued + 1 }
count item_already_queued s = record s {
  examined = s.examined + 1;
  already_queued = s.already_queued + 1;
}
count item_failed s = record s { examined = s.examined + 1; failed = s.failed + 1 }

-- `catch`: the item counts as failed.
unfoldable pub or_failed : Result Error ItemOutcome → ItemOutcome
or_failed (ok outcome) = outcome
or_failed (err e) = item_failed

module _ (db : Db) (step step' : World db → World db) (now audit_now : ℕ) where
  unfoldable pub after_create : IntakeItem → StoredRun db → Do db ItemOutcome
  unfolding run_queued_entry
  after_create item result =
      if result.was_created
      then (do _ ← append db audit_now (run_queued_entry item result.doc); pure item_queued)
      else pure item_already_queued

  unfoldable pub queue_item : IntakeItem → Do db ItemOutcome
  unfolding create_if_absent after_create
  queue_item item = do
    result ← create_if_absent db step step' now (approval_input item)
    after_create item result

  unfoldable pub visit : IntakeItem → World db → ItemOutcome × World db
  unfolding queue_item or_failed
  visit item w = (or_failed (queue_item item w).0, (queue_item item w).1)

  unfoldable pub queue_from :
      QueueRunsSummary → List IntakeItem → World db → QueueRunsSummary × World db
  unfolding visit count
  queue_from s [] w = (s, w)
  queue_from s (item ∷ items) w = queue_from (count (visit item w).0 s) items (visit item w).1

  unfoldable pub queue_approved_runs : List IntakeItem → World db → QueueRunsSummary × World db
  unfolding queue_from
  queue_approved_runs approved w =
      queue_from (record { examined = 0; queued = 0; already_queued = 0; failed = 0 }) approved w
