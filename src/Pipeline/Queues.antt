-- ===== src/Pipeline/Queues.antt =====
-- The passes of src/pipeline/change-execution-queue.ts and src/pipeline/github-publish-queue.ts. Both have
-- one shape: for each listed item, a look-up of its outcome where there is one, and else a call of the
-- service, whose error is caught and counted. The service's call is an argument.
use aisdlc.Prelude.{◌+◌, ℕ, Option, List, some, none, [], ◌∷◌, length}
use aisdlc.Effect.{Result, ok, err, Action}
use aisdlc.Errors.{Error}
use aisdlc.Store.{ObjectId}
use aisdlc.Db.{Db}
use aisdlc.Documents.{ChangeReview, ChangeExecution}
use aisdlc.Execution.Executions.{of_review}
use aisdlc.Publish.Records.{GithubPublication, PublishResult, published_as, not_published}
use aisdlc.Publish.Publications.{of_execution}
use aisdlc.Site.{Site}

-- examined, and how the items ended.
pub record QueueSummary : Type 0 where
  pub examined : ℕ
  pub completed : ℕ
  pub already_done : ℕ
  pub failed : ℕ

pub data ItemOutcome : Type 0 where
  item_completed item_already_done item_failed : ItemOutcome

unfoldable pub count_item : ItemOutcome → QueueSummary → QueueSummary
count_item item_completed t = record t { completed = t.completed + 1 }
count_item item_already_done t = record t { already_done = t.already_done + 1 }
count_item item_failed t = record t { failed = t.failed + 1 }

module _ {I S : Type 0} (examine : I → S → ItemOutcome × S) where
  unfoldable pub run_queue : List I → S → QueueSummary → QueueSummary × S
  unfolding count_item
  run_queue [] s t = (t, s)
  run_queue (item ∷ items) s t =
      let (outcome, s') = examine item s in run_queue items s' (count_item outcome t)

  unfoldable pub drain : List I → S → QueueSummary × S
  unfolding run_queue
  drain items s =
      run_queue items s
        (record { examined = length items; completed = 0; already_done = 0; failed = 0 })

-- What executeApprovedChanges of the execution service answers: `result.ok`.
pub data ExecutionAnswer : Type 0 where
  was_executed was_refused : ExecutionAnswer

unfoldable pub executed_outcome : Result Error ExecutionAnswer → ItemOutcome
executed_outcome (ok was_executed) = item_completed
executed_outcome (ok was_refused) = item_failed
executed_outcome (err e) = item_failed

module _ (db : Db) {R : Type 0}
    (execute_approved_changes : (run_id review_id : ObjectId)
      → Action (Site db R) Error ExecutionAnswer) where
  unfoldable pub examine_review :
      ChangeReview → Option ChangeExecution → Site db R → ItemOutcome × Site db R
  unfolding executed_outcome
  examine_review review (some existing) s = (item_already_done, s)
  examine_review review none s =
      let (result, s') = execute_approved_changes review.run_id review.id s in
      (executed_outcome result, s')

  -- executeApprovedReviews; the items are what findApproved gives.
  unfoldable pub execute_approved_reviews : List ChangeReview → Site db R → QueueSummary × Site db R
  unfolding drain examine_review
  execute_approved_reviews = drain λ review s.
      examine_review review
        (db.change_executions.find_one (of_review review.id) s.world.change_executions) s

unfoldable pub published_outcome : Result Error PublishResult → ItemOutcome
published_outcome (ok (published_as success)) = item_completed
published_outcome (ok (not_published failure)) = item_failed
published_outcome (err e) = item_failed

module _ (db : Db) {R : Type 0}
    (publish : (run_id execution_id : ObjectId) → Action (Site db R) Error PublishResult) where
  unfoldable pub examine_execution :
      ChangeExecution → Option GithubPublication → Site db R → ItemOutcome × Site db R
  unfolding published_outcome
  examine_execution execution (some existing) s = (item_already_done, s)
  examine_execution execution none s =
      let (result, s') = publish execution.run_id execution.id s in (published_outcome result, s')

  -- publishSucceededExecutions; the items are what findSucceeded gives.
  unfoldable pub publish_succeeded_executions :
      List ChangeExecution → Site db R → QueueSummary × Site db R
  unfolding drain examine_execution
  publish_succeeded_executions = drain λ execution s.
      examine_execution execution
        (db.github_publications.find_one (of_execution execution.id) s.world.github_publications) s
