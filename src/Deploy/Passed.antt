-- ===== src/Deploy/Passed.antt =====
-- The pass of src/deployment/pr-merge-detection.ts over its candidates.
use aisdlc.Prelude.{
  ◌≡◌, arith, ◌∙◌, ◌+◌, true, List, [], ◌∷◌, ℕ, Option, some, none, first, any, All, length,
  Option-cases, inl, inr, first-none→any, ap,
}
use aisdlc.Effect.{Result, ok, err}
use aisdlc.Errors.{Error}
use aisdlc.Text.{Text}
use aisdlc.Db.{Db, World}
use aisdlc.Registry.Records.{RegistryEntry}
use aisdlc.GithubApp.Client.{GithubAppClient}
use aisdlc.Publish.Records.{GithubPublication}
use aisdlc.Site.{Site}
use aisdlc.Deploy.Records.{Deployment}
use aisdlc.Deploy.Deployments.{of_publication}
use aisdlc.Deploy.Claimed.{deployments}
use aisdlc.Deploy.Detection.{
  DetectOutcome, found_merged, found_closed, found_open, not_detected, PrMergeDetectionSummary,
  count, detect_next, detect_all, detect_merged_pull_requests, detect_one, fresh_summary,
}

abbrev pub total : PrMergeDetectionSummary → ℕ
total t = t.merged + t.closed_unmerged + t.still_open + t.already_recorded + t.failed

count-total :
    (r : Result Error DetectOutcome) (t : PrMergeDetectionSummary) → total (count r t) ≡ total t + 1
unfolding count
count-total (ok found_merged) t = omega arith
count-total (ok found_closed) t = omega arith
count-total (ok found_open) t = omega arith
count-total (ok not_detected) t = omega arith
count-total (err e) t = omega arith

module _ (db : Db) {R : Type 0} (client : GithubAppClient R)
    (active : World db → Text → List RegistryEntry) (step : World db → World db)
    (now audit_now : ℕ) where
  next-total :
      (publication : GithubPublication) (found : Option Deployment) (s : Site db R)
      (t : PrMergeDetectionSummary)
      → total (detect_next db client active step now audit_now publication found s t).0
        ≡ total t + 1
  unfolding detect_next
  next-total publication (some d) s t = omega arith
  next-total publication none s t =
      count-total (detect_one db client active step now audit_now publication s).0 t

  all-total :
      (candidates : List GithubPublication) (s : Site db R) (t : PrMergeDetectionSummary)
      → total (detect_all db client active step now audit_now candidates s t).0
        ≡ total t + length candidates
  unfolding detect_all
  all-total [] s t = omega arith
  all-total (p ∷ ps) s t =
      let found = db.deployments.find_one (of_publication p.id) s.world.deployments in
      let one = next-total p found s t in
      let (t', s') = detect_next db client active step now audit_now p found s t in
      let rest = all-total ps s' t' in omega (arith, one, rest)

  -- The counts of a pass add up to the number of its candidates.
  pub detect_merged_pull_requests-total :
      (candidates : List GithubPublication) (s : Site db R)
      → total (detect_merged_pull_requests db client active step now audit_now candidates s).0
        ≡ length candidates
  unfolding detect_merged_pull_requests
  detect_merged_pull_requests-total candidates s =
      all-total candidates s (fresh_summary (length candidates))
      ∙ (let e : 0 + length candidates ≡ length candidates = omega arith in e)

  abbrev pub HasDeployment : World db → GithubPublication → Type 0
  HasDeployment w p = any (of_publication p.id) (deployments db w) ≡ true

  detect_all-recorded :
      (candidates : List GithubPublication) (s : Site db R) (t : PrMergeDetectionSummary)
      → All (HasDeployment s.world) candidates
      → detect_all db client active step now audit_now candidates s t
        ≡ (record t { already_recorded = t.already_recorded + length candidates }, s)
  unfolding detect_all detect_next
  detect_all-recorded [] s t h =
      ap (λ (n : ℕ). (record t { already_recorded = n }, s)) (omega arith)
  detect_all-recorded (p ∷ ps) s t h =
      let look = db.deployments.find_one_lem (of_publication p.id) s.world.deployments in
      elim (Option-cases (first (of_publication p.id) (deployments db s.world))) [
        | inl gone ↦
            let none_there = first-none→any (of_publication p.id) (deployments db s.world) gone in
            let there = h.0 in cc
        | inr (d, found) ↦
            rw (look, found)
              (detect_all-recorded ps s (record t { already_recorded = t.already_recorded + 1 }) h.1
                ∙ ap (λ (n : ℕ). (record t { already_recorded = n }, s)) (omega arith))
      ]

  -- If every candidate of a pass has a deployment, then the pass counts each of them as already
  -- recorded, calls GitHub for none, and leaves the database and the remote side as they are.
  pub detect_merged_pull_requests-recorded :
      (candidates : List GithubPublication) (s : Site db R)
      → All (HasDeployment s.world) candidates
      → detect_merged_pull_requests db client active step now audit_now candidates s ≡ (
        record {
          examined = length candidates;
          merged = 0;
          closed_unmerged = 0;
          still_open = 0;
          already_recorded = length candidates;
          failed = 0;
        },
        s,
      )
  unfolding detect_merged_pull_requests
  detect_merged_pull_requests-recorded candidates s h =
      detect_all-recorded candidates s (fresh_summary (length candidates)) h
      ∙ ap (λ (n : ℕ). (record (fresh_summary (length candidates)) { already_recorded = n }, s))
          (let e : 0 + length candidates ≡ length candidates = omega arith in e)
