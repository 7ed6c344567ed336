-- ===== src/Selection/Worker.antt =====
-- src/repository-selection/worker.ts: one pass, over the queued runs and then over the rows that are
-- due for a retry. `queued` is what `runs.list({ status: 'queued' }, limit)` returned, and `find_due`
-- what findDueForRetry returns in a world: a sorted read of the driver. `at` and `now` are the clock.
use aisdlc.Prelude.{ℕ, ◌+◌, List, [], ◌∷◌, Option, none, some, length}
use aisdlc.Effect.{Result, ok, err, ◌>>=◌, pure}
use aisdlc.Db.{Db, World}
use aisdlc.Text.{Text}
use aisdlc.Documents.{Run, RepositorySelection, IntakeItem}
use aisdlc.Errors.{Error, Do}
use aisdlc.Intake.Repository.{find_by_issue_key}
use aisdlc.Selection.Repository.{of_run}
use aisdlc.Selection.Matching.{
  MatchCount, count_pending, count_ambiguous, count_failed, count_skipped, match_new_run,
  retry_selection,
}

pub record MatchSelectionsSummary : Type 0 where
  pub newly_examined : ℕ
  pub retries_examined : ℕ
  pub pending : ℕ
  pub ambiguous : ℕ
  pub failed : ℕ
  pub skipped : ℕ

unfoldable pub tally : MatchCount → MatchSelectionsSummary → MatchSelectionsSummary
tally count_pending s = record s { pending = s.pending + 1 }
tally count_ambiguous s = record s { ambiguous = s.ambiguous + 1 }
tally count_failed s = record s { failed = s.failed + 1 }
tally count_skipped s = record s { skipped = s.skipped + 1 }

-- `catch`: the run or the row counts as skipped.
unfoldable pub or_skipped : Result Error MatchCount → MatchCount
or_skipped (ok count) = count
or_skipped (err e) = count_skipped

-- A run that had a selection already adds nothing.
unfoldable pub tally_new : Option MatchCount → MatchSelectionsSummary → MatchSelectionsSummary
unfolding tally
tally_new none s = s
tally_new (some count) s = tally count (record s { newly_examined = s.newly_examined + 1 })

module _ (db : Db) (step : World db → World db) (registry : Text → List Text)
    (find_due : World db → List RepositorySelection) (at now audit_now : ℕ) where
  match_or_skip : Run → Option IntakeItem → Do db MatchCount
  unfolding match_new_run
  match_or_skip run none = pure count_skipped
  match_or_skip run (some item) = match_new_run db step registry at now audit_now run item

  unfoldable pub try_run : Run → Do db MatchCount
  unfolding find_by_issue_key match_or_skip
  try_run run = do item ← find_by_issue_key db run.issue_key; match_or_skip run item

  unfoldable pub examine :
      Run → Option RepositorySelection → World db → Option MatchCount × World db
  unfolding or_skipped try_run
  examine run none w = (some (or_skipped (try_run run w).0), (try_run run w).1)
  examine run (some existing) w = (none, w)

  unfoldable pub visit_run : Run → World db → Option MatchCount × World db
  unfolding examine
  visit_run run w =
      examine run (db.repository_selections.find_one (of_run run.id) w.repository_selections) w

  unfoldable pub match_from :
      MatchSelectionsSummary → List Run → World db → MatchSelectionsSummary × World db
  unfolding visit_run tally_new
  match_from s [] w = (s, w)
  match_from s (run ∷ runs) w =
      match_from (tally_new (visit_run run w).0 s) runs (visit_run run w).1

  unfoldable pub retry_from :
      MatchSelectionsSummary
      → List RepositorySelection
      → World db
      → MatchSelectionsSummary × World db
  unfolding retry_selection tally or_skipped
  retry_from s [] w = (s, w)
  retry_from s (row ∷ rows) w =
      retry_from (tally (or_skipped (retry_selection db step registry at now audit_now row w).0) s)
        rows (retry_selection db step registry at now audit_now row w).1

  abbrev pub nothing_yet : MatchSelectionsSummary
  nothing_yet = record {
    newly_examined = 0;
    retries_examined = 0;
    pending = 0;
    ambiguous = 0;
    failed = 0;
    skipped = 0;
  }

  unfoldable pub retry_due : MatchSelectionsSummary → World db → MatchSelectionsSummary × World db
  unfolding retry_from
  retry_due s w = retry_from (record s { retries_examined = length (find_due w) }) (find_due w) w

  unfoldable pub match_repository_selections :
      List Run → World db → MatchSelectionsSummary × World db
  unfolding match_from retry_due
  match_repository_selections queued w =
      retry_due (match_from nothing_yet queued w).0 (match_from nothing_yet queued w).1
