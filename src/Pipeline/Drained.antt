-- ===== src/Pipeline/Drained.antt =====
-- Laws of the passes of src/pipeline.
use aisdlc.Prelude.{
  ◌≡◌, refl, arith, ap, ◌∙◌, ◌+◌, ℕ, true, List, [], ◌∷◌, All, any, first, length, Option-cases,
  inl, inr, first-none→any,
}
use aisdlc.Effect.{Action}
use aisdlc.Errors.{Error}
use aisdlc.Store.{ObjectId}
use aisdlc.Db.{Db, World}
use aisdlc.Documents.{ChangeExecution}
use aisdlc.Publish.Records.{PublishResult}
use aisdlc.Publish.Publications.{of_execution}
use aisdlc.Publish.Once.{publications}
use aisdlc.Site.{Site}
use aisdlc.Pipeline.Queues.{
  QueueSummary, ItemOutcome, item_completed, item_already_done, item_failed, count_item, run_queue,
  drain, examine_execution, publish_succeeded_executions,
}

abbrev pub total : QueueSummary → ℕ
total t = t.completed + t.already_done + t.failed

count_item-total : (o : ItemOutcome) (t : QueueSummary) → total (count_item o t) ≡ total t + 1
unfolding count_item
count_item-total item_completed t = omega arith
count_item-total item_already_done t = omega arith
count_item-total item_failed t = omega arith

module _ {I S : Type 0} (examine : I → S → ItemOutcome × S) where
  run_queue-total :
      (items : List I) (s : S) (t : QueueSummary)
      → total (run_queue examine items s t).0 ≡ total t + length items
  unfolding run_queue
  run_queue-total [] s t = omega arith
  run_queue-total (item ∷ items) s t =
      let (outcome, s') = examine item s in
      omega (arith, count_item-total outcome t, run_queue-total items s' (count_item outcome t))

  -- Items that are all done already leave the state as it is.
  run_queue-done :
      (items : List I) (s : S) (t : QueueSummary)
      → All (λ item. examine item s ≡ (item_already_done, s)) items
      → run_queue examine items s t ≡ (record t { already_done = t.already_done + length items }, s)
  unfolding run_queue count_item
  run_queue-done [] s t h = ap (λ (n : ℕ). (record t { already_done = n }, s)) (omega arith)
  run_queue-done (item ∷ items) s t h = rw h.0 (
      run_queue-done items s (record t { already_done = t.already_done + 1 }) h.1
      ∙ ap (λ (n : ℕ). (record t { already_done = n }, s)) (omega arith))

module _ (db : Db) {R : Type 0}
    (publish : (run_id execution_id : ObjectId) → Action (Site db R) Error PublishResult) where
  -- The counts of a pass add up to the number of its items.
  pub publish_succeeded_executions-total :
      (executions : List ChangeExecution) (s : Site db R)
      → total (publish_succeeded_executions db publish executions s).0 ≡ length executions
  unfolding publish_succeeded_executions drain
  publish_succeeded_executions-total executions s =
      run_queue-total _ executions s
        (record { examined = length executions; completed = 0; already_done = 0; failed = 0 })
      ∙ (let e : 0 + length executions ≡ length executions = omega arith in e)

  abbrev pub HasPublication : World db → ChangeExecution → Type 0
  HasPublication w execution = any (of_execution execution.id) (publications db w) ≡ true

  examine-done :
      (execution : ChangeExecution) (s : Site db R)
      → HasPublication s.world execution
      → examine_execution db publish execution
          (db.github_publications.find_one (of_execution execution.id) s.world.github_publications)
          s
        ≡ (item_already_done, s)
  unfolding examine_execution
  examine-done execution s h =
      let look =
        db.github_publications.find_one_lem (of_execution execution.id)
          s.world.github_publications in
      elim (Option-cases (first (of_execution execution.id) (publications db s.world))) [
        | inl gone ↦
            let none_there =
              first-none→any (of_execution execution.id) (publications db s.world) gone in
            cc
        | inr (publication, found) ↦ rw (look, found) refl
      ]

  executions-done :
      (executions : List ChangeExecution) (s : Site db R)
      → All (HasPublication s.world) executions
      → All
          (λ execution.
            examine_execution db publish execution
              (db.github_publications.find_one
                (of_execution execution.id)
                s.world.github_publications)
              s
            ≡ (item_already_done, s))
          executions
  executions-done [] s h = tt
  executions-done (e ∷ es) s h = (examine-done e s h.0, executions-done es s h.1)

  -- If every execution of a pass has a publication, then the pass counts each of them as already
  -- published, calls the publish service for none, and leaves the database and the remote side as
  -- they are.
  pub publish_succeeded_executions-settled :
      (executions : List ChangeExecution) (s : Site db R)
      → All (HasPublication s.world) executions
      → publish_succeeded_executions db publish executions s ≡ (
        record {
          examined = length executions;
          completed = 0;
          already_done = length executions;
          failed = 0;
        },
        s,
      )
  unfolding publish_succeeded_executions drain
  publish_succeeded_executions-settled executions s h =
      run_queue-done _ executions s
        (record { examined = length executions; completed = 0; already_done = 0; failed = 0 })
        (executions-done executions s h)
      ∙ ap
          (λ (n : ℕ). (
            record { examined = length executions; completed = 0; already_done = n; failed = 0 },
            s,
          ))
          (let e : 0 + length executions ≡ length executions = omega arith in e)
