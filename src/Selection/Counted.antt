-- ===== src/Selection/Counted.antt =====
-- The summary of matchRepositorySelections of src/repository-selection/worker.ts.
use aisdlc.Prelude.{ℕ, ◌+◌, ◌≡◌, ◌≤◌, refl, arith, List, [], ◌∷◌, length, Option, none, some}
use aisdlc.Db.{Db, World}
use aisdlc.Text.{Text}
use aisdlc.Documents.{Run, RepositorySelection}
use aisdlc.Selection.Matching.{
  MatchCount, count_pending, count_ambiguous, count_failed, count_skipped, retry_selection,
}
use aisdlc.Selection.Worker.{
  MatchSelectionsSummary, tally, tally_new, or_skipped, visit_run, match_from, retry_from,
  match_repository_selections, nothing_yet, retry_due,
}

abbrev total : MatchSelectionsSummary → ℕ
total s = s.pending + s.ambiguous + s.failed + s.skipped

tally-total :
    (c : MatchCount) (s : MatchSelectionsSummary)
    → (total (tally c s) ≡ total s + 1)
      × ((tally c s).newly_examined ≡ s.newly_examined)
      × ((tally c s).retries_examined ≡ s.retries_examined)
unfolding tally
tally-total count_pending s = (omega arith, refl, refl)
tally-total count_ambiguous s = (omega arith, refl, refl)
tally-total count_failed s = (omega arith, refl, refl)
tally-total count_skipped s = (omega arith, refl, refl)

module _ (db : Db) (step : World db → World db) (registry : Text → List Text)
    (find_due : World db → List RepositorySelection) (at now audit_now : ℕ) where
  -- A run adds one to the counters and to the runs examined, or nothing at all.
  tally_new-total :
      (c : Option MatchCount) (s : MatchSelectionsSummary) (m n : ℕ)
      → total s ≡ s.newly_examined + m
      → s.newly_examined ≤ n
      → (total (tally_new c s) ≡ (tally_new c s).newly_examined + m)
        × ((tally_new c s).newly_examined ≤ n + 1)
  unfolding tally_new
  tally_new-total none s m n balanced below = (balanced, omega (arith, below))
  tally_new-total (some c) s m n balanced below =
      let (one, new, retries) =
        tally-total c (record s { newly_examined = s.newly_examined + 1 }) in
      (omega (arith, one, new, balanced), omega (arith, new, below))

  match_from-total :
      (queued : List Run) (s : MatchSelectionsSummary) (w : World db) (n : ℕ)
      → total s ≡ s.newly_examined
      → s.newly_examined ≤ n
      → (total (match_from db step registry find_due at now audit_now s queued w).0
          ≡ (match_from db step registry find_due at now audit_now s queued w).0.newly_examined)
        × ((match_from db step registry find_due at now audit_now s queued w).0.newly_examined
            ≤ n + length queued)
  unfolding match_from
  match_from-total [] s w n balanced below = (balanced, omega (arith, below))
  match_from-total (run ∷ queued) s w n balanced below =
      let visited = visit_run db step registry find_due at now audit_now run w in
      let (one, next) = tally_new-total visited.0 s 0 n (omega (arith, balanced)) below in
      let (all, bound) =
        match_from-total queued (tally_new visited.0 s) visited.1 (n + 1) (omega (arith, one))
          next in
      (all, omega (arith, bound))

  retry_from-total :
      (rows : List RepositorySelection) (s : MatchSelectionsSummary) (w : World db)
      → (total (retry_from db step registry find_due at now audit_now s rows w).0
          ≡ total s + length rows)
        × ((retry_from db step registry find_due at now audit_now s rows w).0.newly_examined
            ≡ s.newly_examined)
        × ((retry_from db step registry find_due at now audit_now s rows w).0.retries_examined
            ≡ s.retries_examined)
  unfolding retry_from
  retry_from-total [] s w = (omega arith, refl, refl)
  retry_from-total (row ∷ rows) s w =
      let done = retry_selection db step registry at now audit_now row w in
      let (one, new, retries) = tally-total (or_skipped done.0) s in
      let (all, kept, kept') = retry_from-total rows (tally (or_skipped done.0) s) done.1 in
      (omega (arith, one, all), omega (arith, new, kept), omega (arith, retries, kept'))

  abbrev pass : List Run → World db → MatchSelectionsSummary
  pass queued w =
      (match_repository_selections db step registry find_due at now audit_now queued w).0

  -- A matching pass counts each run that it examines anew and each row that it retries exactly
  -- once, as pending, ambiguous, failed or skipped, whatever fails; and it examines at most the
  -- runs that it is given.
  pub match_repository_selections-total :
      (queued : List Run) (w : World db)
      → ((pass queued w).pending
            + (pass queued w).ambiguous
            + (pass queued w).failed
            + (pass queued w).skipped
          ≡ (pass queued w).newly_examined + (pass queued w).retries_examined)
        × ((pass queued w).newly_examined ≤ length queued)
  unfolding match_repository_selections retry_due
  match_repository_selections-total queued w =
      let zero_yet = nothing_yet db step registry find_due at now audit_now in
      let (all, bound) = match_from-total queued zero_yet w 0 (omega arith) (omega arith) in
      let matched = match_from db step registry find_due at now audit_now zero_yet queued w in
      let due = find_due matched.1 in
      let (sum, new, retries) =
        retry_from-total due (record matched.0 { retries_examined = length due }) matched.1 in
      (omega (arith, all, sum, new, retries), omega (arith, bound, new))
