-- ===== src/Publish/Published.antt =====
-- When execute of src/github-publish/publish-service.ts reports a publication.
use aisdlc.Prelude.{◌≡◌, refl, arith, inl, inr, Option, some, none, first, List, ℕ, Option-cases}
use aisdlc.Effect.{ok, Action}
use aisdlc.Effect.Laws.{>>=-ok}
use aisdlc.Text.{Text}
use aisdlc.Errors.{Error}
use aisdlc.Store.{ObjectId}
use aisdlc.Db.{Db, World}
use aisdlc.Documents.{ChangeReview, ChangeExecution}
use aisdlc.Registry.Records.{RegistryEntry}
use aisdlc.GithubApp.Client.{Repo, GithubAppClient}
use aisdlc.Publish.Records.{GithubPublication, PublishSuccess, PublishResult, published_as}
use aisdlc.Publish.Publications.{of_execution}
use aisdlc.Site.{Site, on_world, on_remote, ask}
use aisdlc.Publish.Build.{Stop}
use aisdlc.Publish.Verify.{
  Verdict, already_published, refused, cleared, verify_publication, verify_new, verify_execution,
  refuse, verify_review, verify_latest, verify_access, verify_identity, fail_eligibility,
}
use aisdlc.Publish.Cleared.{IsCleared, verify_publication-IsCleared}
use aisdlc.Publish.Attempt.{to_publish_result}
use aisdlc.Publish.Service.{after_verdict, execute}

module _ (db : Db) {R : Type 0} (client : GithubAppClient R)
    (latest : World db → ObjectId → Option ChangeReview)
    (active : World db → Text → List RegistryEntry) (hex : ObjectId → Text)
    (to_lower sha256 : Text → Text) (message : Stop → Text) (step : World db → World db)
    (now audit_now : ℕ) (run_id execution_id : ObjectId) where
  abbrev recorded : World db → Option GithubPublication
  recorded w = first (of_execution execution_id) (db.github_publications.docs w.github_publications)

  -- Why a publication may be reported.
  pub data Justified (w : World db) : Type 0 where
    was_recorded : (publication : GithubPublication) → recorded w ≡ some publication → Justified w
    was_cleared :
        (execution : ChangeExecution) (review : ChangeReview) (target : Repo)
        → IsCleared db client latest active audit_now run_id execution_id w execution review target
        → Justified w

  pub verify_publication-recorded :
      (s : Site db R) (publication : GithubPublication)
      → recorded s.world ≡ some publication
      → verify_publication db client latest active audit_now run_id execution_id s
        ≡ (ok (already_published publication), s)
  unfolding verify_publication verify_new
  verify_publication-recorded s publication there =
      let look =
        db.github_publications.find_one_lem (of_execution execution_id)
          s.world.github_publications in
      rw (verify_publication, look, there, verify_new) refl

  never-recorded :
      (found : Option ChangeExecution) (s s' : Site db R) (publication : GithubPublication)
      → verify_execution db client latest active audit_now run_id execution_id found s
        ≡ (ok (already_published publication), s')
      → ⊥
  unfolding verify_execution verify_review verify_latest verify_access verify_identity refuse
      fail_eligibility on_world on_remote ask
  never-recorded found s s' publication h = ground arith

  abbrev run : Action (Site db R) Error PublishResult
  run =
      execute db client latest active hex to_lower sha256 message step now audit_now run_id
        execution_id

  -- Where a publication is recorded for the execution, execute answers with it and changes
  -- nothing.
  pub execute-recorded :
      (s : Site db R) (publication : GithubPublication)
      → recorded s.world ≡ some publication
      → run s ≡ (ok (to_publish_result run_id publication), s)
  unfolding execute after_verdict
  execute-recorded s publication there =
      rw (execute, verify_publication-recorded s publication there, after_verdict) refl

  from-verdict :
      (s s2 s' : Site db R) (verdict : Verdict) (success : PublishSuccess)
      → recorded s.world ≡ none
      → verify_publication db client latest active audit_now run_id execution_id s
        ≡ (ok verdict, s2)
      → after_verdict db client latest active hex to_lower sha256 message step now audit_now run_id
          execution_id verdict s2
        ≡ (ok (published_as success), s')
      → Justified s.world
  unfolding after_verdict verify_publication verify_new
  from-verdict s s2 s' (refused failure) success unrecorded e k = cc
  from-verdict s s2 s' (already_published publication) success unrecorded e k =
      let look =
        db.github_publications.find_one_lem (of_execution execution_id)
          s.world.github_publications in
      absurd (
        never-recorded _ s s2 publication
          (rw (verify_publication, look, unrecorded, verify_new) at e))
  from-verdict s s2 s' (cleared execution review target) success unrecorded e k =
      was_cleared execution review target (
        verify_publication-IsCleared db client latest active audit_now run_id execution_id execution
          review target s s2 e)

  -- If execute of the publish service returns a publication, then one was already recorded for
  -- the execution, or, in the database as the call found it: the execution is stored, belongs to
  -- the run and succeeded; its review is stored, approved, of the proposal hash that was
  -- executed, and the newest of the run; the repository selection of the run is confirmed, and
  -- its repository, owner, name and branch, which are those of the review, are covered by the
  -- allowed branches, by an active registry entry and by that entry's installation.
  pub execute-Justified :
      (s s' : Site db R) (success : PublishSuccess)
      → run s ≡ (ok (published_as success), s')
      → Justified s.world
  unfolding execute
  execute-Justified s s' success h = elim (Option-cases (recorded s.world)) [
    | inr (publication, there) ↦ was_recorded publication there
    | inl unrecorded ↦
        let (verdict, s2, verified, answered) =
          >>=-ok (verify_publication db client latest active audit_now run_id execution_id)
            (after_verdict db client latest active hex to_lower sha256 message step now audit_now
              run_id execution_id)
            s h in
        from-verdict s s2 s' verdict success unrecorded verified answered
  ]
