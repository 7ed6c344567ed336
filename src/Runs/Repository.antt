-- ===== src/Runs/Repository.antt =====
-- src/orchestrator/repository.ts
use aisdlc.Prelude.{Bool, false, ◌==◌, ℕ, Option, some, none}
use aisdlc.Effect.{◌>>=◌, ◌>>◌, pure, others}
use aisdlc.Db.{Db, World}
use aisdlc.Store.{ObjectId}
use aisdlc.Access.{Stored, find_one, insert_or_winner}
use aisdlc.Text.{Text}
use aisdlc.Documents.{Run}
use aisdlc.Errors.{Do}
use aisdlc.Collections.{RunTrigger, RunStatus}

pub record CreateRunInput : Type 0 where
  pub intake_item_id : ObjectId
  pub issue_key : Text
  pub trigger : RunTrigger

unfoldable pub new_run : ℕ → CreateRunInput → ObjectId → Run
new_run now input id = record {
  id = id;
  intake_item_id = input.intake_item_id;
  issue_key = input.issue_key;
  status = RunStatus.queued;
  trigger = input.trigger;
  created_at = now;
  started_at = none;
  completed_at = none;
  updated_at = now;
}

abbrev pub of_item : ObjectId → Run → Bool
of_item intake_item_id run = run.intake_item_id == intake_item_id

module _ (db : Db) where
  abbrev pub get_runs : World db → db.runs.State
  get_runs w = w.runs

  abbrev pub put_runs : db.runs.State → World db → World db
  put_runs s w = record w { runs = s }

  abbrev pub StoredRun : Type 0
  StoredRun = Stored db.runs get_runs put_runs

  unfoldable pub find_by_intake_item_id : ObjectId → Do db (Option Run)
  find_by_intake_item_id intake_item_id =
      find_one db.runs get_runs put_runs (of_item intake_item_id)

  reuse_or_insert :
      (World db → World db)
      → (World db → World db)
      → ℕ
      → CreateRunInput
      → Option Run
      → Do db StoredRun
  reuse_or_insert step step' now input (some existing) =
      pure (record { doc = existing; was_created = false })
  reuse_or_insert step step' now input none = do
    others step
    insert_or_winner db.runs get_runs put_runs step' (new_run now input)
        (of_item input.intake_item_id)

  -- createIfAbsent: `step` and `step'` are what other clients do before the insert, and between a
  -- refused insert and the look-up of the winner.
  unfoldable pub create_if_absent :
      (World db → World db) → (World db → World db) → ℕ → CreateRunInput → Do db StoredRun
  unfolding reuse_or_insert
  create_if_absent step step' now input = do
    existing ← find_one db.runs get_runs put_runs (of_item input.intake_item_id)
    reuse_or_insert step step' now input existing
