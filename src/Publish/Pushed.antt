-- ===== src/Publish/Pushed.antt =====
-- What attempt of src/github-publish/publish-service.ts knows of the branch that it pushed.
use aisdlc.Prelude.{◌≡◌, refl, arith, Bool-cases, inl, inr, Option, some, none, if◌then◌else◌}
use aisdlc.Effect.{ok}
use aisdlc.Effect.Laws.{>>=-ok}
use aisdlc.Text.{Text, same}
use aisdlc.Text.Laws.{same→eq}
use aisdlc.GithubApp.Client.{Answer, answered, refused_with, Repo, GithubAppClient}
use aisdlc.Publish.Records.{PublishFailureCategory}
use aisdlc.Site.{ask}
use aisdlc.Publish.Push.{points_at, verify_push, reconcile_push, after_preflight, push_branch}

module _ {R : Type 0} (client : GithubAppClient R) (target : Repo) (branch sha : Text) where
  -- The last call of GitHub read the branch, and found the commit there.
  abbrev pub SeenAt : R → Type 0
  SeenAt r' = (r : R) × (client.get_ref target branch r ≡ (answered sha, r'))

  found-SeenAt :
      (r r' : R) (out : Answer Text × R)
      → client.get_ref target branch r ≡ out
      → (if points_at sha out.0 then none else some PublishFailureCategory.push_verification_failed)
        ≡ none
      → out.1 ≡ r'
      → SeenAt r'
  unfolding points_at
  found-SeenAt r r' (refused_with kind, r2) e h k = cc
  found-SeenAt r r' (answered found, r2) e h k = elim (Bool-cases (same found sha)) [
    | inl equal ↦ let f = same→eq found sha equal in (r, cc)
    | inr other ↦ cc (rw other at h)
  ]

  verify_push-SeenAt :
      (stopped : Option PublishFailureCategory) (r r' : R)
      → verify_push client target branch sha stopped r ≡ (ok none, r')
      → SeenAt r'
  unfolding verify_push ask
  verify_push-SeenAt (some category) r r' h = cc
  verify_push-SeenAt none r r' h =
      found-SeenAt r r' (client.get_ref target branch r) refl (ground arith) (ground arith)

  after_preflight-SeenAt :
      (answer : Answer Text) (r r' : R)
      → after_preflight client target branch sha answer r ≡ (ok none, r')
      → SeenAt r'
  unfolding after_preflight ask
  after_preflight-SeenAt (answered other) r r' h = cc
  after_preflight-SeenAt (refused_with kind) r r' h =
      let (stopped, later, reconciled, verified) =
        >>=-ok
          (reconcile_push client target branch sha (client.create_branch target branch sha r).0)
          (verify_push client target branch sha) (client.create_branch target branch sha r).1 h in
      verify_push-SeenAt stopped later r' verified

  -- If the push of the branch stops with no failure, then the last look at the branch, whose
  -- state of GitHub is the one left, was answered with the commit that was pushed, also where the
  -- creation of the branch had reported an error.
  pub push_branch-SeenAt :
      (r r' : R) → push_branch client target branch sha r ≡ (ok none, r') → SeenAt r'
  unfolding push_branch ask
  push_branch-SeenAt r r' h =
      after_preflight-SeenAt (client.get_ref target branch r).0 (client.get_ref target branch r).1
        r' h
