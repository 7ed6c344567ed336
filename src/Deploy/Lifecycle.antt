-- ===== src/Deploy/Lifecycle.antt =====
-- The life of a deployment as an abstract machine, and what the writes of
-- src/deployment/deployment-repository.ts do to a row in its terms.
use aisdlc.Prelude.{
  ◌≡◌, refl, arith, sym, ◌∙◌, true, ◌==◌, List, [], ◌∷◌, ℕ, Option, some, none, first, update_first,
  ==_iff, Bool-cases, inl, inr, &&-split, subst, Pointwise, done, next, Pointwise-refl, subst,
}
use aisdlc.Store.{ObjectId}
use aisdlc.Effect.{Result}
use aisdlc.Effect.Keeps.{Keeps, Keeps-map, Leads, Leads-Keeps}
use aisdlc.Errors.{Error}
use aisdlc.Db.{Db, World}
use aisdlc.AuditLog.{AuditEntryInput, append}
use aisdlc.AuditLog.Laws.{append-frame}
use aisdlc.Access.{find_one_and_update}
use aisdlc.Access.Laws.{Updated, missed, hit, find_one_and_update-Updated}
use aisdlc.Collections.{DeploymentStatus}
use aisdlc.Deploy.Records.{Deployment}
use aisdlc.Deploy.Deployments.{
  claimable, is_eligible, start, succeed, fail, get_deployments, put_deployments, has_deployment_id,
  MarkSucceededInput, MarkDeploymentFailedInput, mark_succeeded, mark_deployment_failed,
  audit_ended, succeeded_entry, failed_entry,
}
use aisdlc.Deploy.Claimed.{deployments, OneDeploymentPerId, none-claimable}

-- One step of a deployment.
pub data Move : DeploymentStatus → DeploymentStatus → Type 0 where
  starts : Move DeploymentStatus.eligible DeploymentStatus.running
  completes : Move DeploymentStatus.running DeploymentStatus.succeeded
  fails : Move DeploymentStatus.running DeploymentStatus.failed

pub data Trail (a : DeploymentStatus) : DeploymentStatus → Type 0 where
  here : Trail a a
  then_move : {b c : DeploymentStatus} → Trail a b → Move b c → Trail a c

-- A row before and after: its status went along a trail, and it is still about the same merge.
pub record Lives (d e : Deployment) : Type 0 where
  pub path : Trail d.status e.status
  pub same_id : d.id ≡ e.id
  pub same_run : d.run_id ≡ e.run_id
  pub same_publication : d.publication_id ≡ e.publication_id
  pub same_commit : d.merge_commit_sha ≡ e.merge_commit_sha

abbrev pub AllLive : List Deployment → List Deployment → Type 0
AllLive = Pointwise Lives

pub Lives-refl : (d : Deployment) → Lives d d
Lives-refl d = record {
  path = here;
  same_id = refl;
  same_run = refl;
  same_publication = refl;
  same_commit = refl;
}

start-Lives :
    (now : ℕ) (id : ObjectId) (d : Deployment) → claimable id d ≡ true → Lives d (start now d)
unfolding start is_eligible
start-Lives now id d h =
    let (this, eligible) = &&-split (d.id == id) (is_eligible d.status) h in
    let e : d.status ≡ DeploymentStatus.eligible = ground arith in
    record {
      path = subst (λ s. Trail s DeploymentStatus.running) (sym e) (then_move here starts);
      same_id = refl;
      same_run = refl;
      same_publication = refl;
      same_commit = refl;
    }

-- The row that is about to end is the first with its id, and is running.
abbrev pub IsRunning : ObjectId → List Deployment → Type 0
IsRunning id ds =
    (d : Deployment) × (first (has_deployment_id id) ds ≡ some d)
    × (d.status ≡ DeploymentStatus.running)

-- After the claim.
pub claimed-AllLive :
    (now : ℕ) (id : ObjectId) (ds : List Deployment) {d : Deployment}
    → OneDeploymentPerId ds
    → first (claimable id) ds ≡ some d
    → AllLive ds (update_first (claimable id) (start now) ds)
      × (first (has_deployment_id id) (update_first (claimable id) (start now) ds)
          ≡ some (start now d))
unfolding first update_first start
claimed-AllLive now id [] distinct h = cc
claimed-AllLive now id (x ∷ xs) {d} distinct h = elim (Bool-cases (claimable id x)) [
  | inl this ↦
      let (mine, eligible) = &&-split (x.id == id) (is_eligible x.status) this in
      let e : x ≡ d = ground arith in
      (
        rw this (next (start-Lives now id x this) (Pointwise-refl Lives Lives-refl xs)),
        rw (this, start, mine) (cc e),
      )
  | inr other ↦
      let (lives, found) = claimed-AllLive now id xs {d = d} distinct.1 (rw other at h) in
      elim (Bool-cases (x.id == id)) [
        | inl mine ↦
            let gone = none-claimable id x xs ((==_iff x.id id).0 mine) distinct.0 in
            absurd (cc (rw other at h))
        | inr not_mine ↦ (rw other (next (Lives-refl x) lives), rw (other, not_mine) found)
      ]
]

-- An end of a running row.
ends-AllLive :
    (f : Deployment → Deployment) (id : ObjectId) {ds es : List Deployment} (d : Deployment)
    → AllLive ds es
    → first (has_deployment_id id) es ≡ some d
    → ((e : Deployment) → Lives e d → Lives e (f d))
    → AllLive ds (update_first (has_deployment_id id) f es)
unfolding first update_first
ends-AllLive f id d done h step = done
ends-AllLive f id d (next {x} {y} {xs} {ys} r rs) h step = elim (Bool-cases (y.id == id)) [
  | inl this ↦
      let e : y ≡ d = ground arith in
      rw this (next (subst (λ v. Lives x (f v)) (sym e) (step x (subst (Lives x) e r))) rs)
  | inr other ↦ rw other (next r (ends-AllLive f id d rs (rw other at h) step))
]

end-Lives :
    (d e f : Deployment)
    → d.status ≡ DeploymentStatus.running
    → Move DeploymentStatus.running f.status
    → d.id ≡ f.id
    → d.run_id ≡ f.run_id
    → d.publication_id ≡ f.publication_id
    → d.merge_commit_sha ≡ f.merge_commit_sha
    → Lives e d
    → Lives e f
end-Lives d e f running move id run publication commit l = record {
  path = then_move (subst (Trail e.status) running l.path) move;
  same_id = l.same_id ∙ id;
  same_run = l.same_run ∙ run;
  same_publication = l.same_publication ∙ publication;
  same_commit = l.same_commit ∙ commit;
}

fail-Lives :
    (now : ℕ) (input : MarkDeploymentFailedInput) (d : Deployment)
    → d.status ≡ DeploymentStatus.running
    → (e : Deployment) → Lives e d
    → Lives e (fail now input d)
unfolding fail
fail-Lives now input d running e =
    end-Lives d e (fail now input d) running fails refl refl refl refl

succeed-Lives :
    (now : ℕ) (input : MarkSucceededInput) (d : Deployment)
    → d.status ≡ DeploymentStatus.running
    → (e : Deployment) → Lives e d
    → Lives e (succeed now input d)
unfolding succeed
succeed-Lives now input d running e =
    end-Lives d e (succeed now input d) running completes refl refl refl refl

module _ (db : Db) (T : List Deployment → Type 0) where
  abbrev pub On : World db → Type 0
  On w = T (deployments db w)

  pub append-Keeps :
      (audit_now : ℕ) (entry : AuditEntryInput) → Keeps On (append db audit_now entry)
  append-Keeps audit_now entry = record {
    at = λ w h. subst On (sym (append-frame db audit_now entry w)) h;
  }

  audit_ended-Keeps :
      (audit_now : ℕ) (id : ObjectId) (entry : Deployment → AuditEntryInput)
      (updated : Option Deployment)
      → Keeps On (audit_ended db audit_now id entry updated)
  unfolding audit_ended
  audit_ended-Keeps audit_now id entry none = record { at = λ w h. h }
  audit_ended-Keeps audit_now id entry (some updated) =
      Keeps-map (λ entry_id. updated) _ (append-Keeps audit_now (entry updated))

module _ (db : Db) (id : ObjectId) (before : List Deployment) where
  -- The rows of a deployment that is under way, and those of one that may have ended.
  abbrev pub UnderWay : World db → Type 0
  UnderWay w = AllLive before (deployments db w) × IsRunning id (deployments db w)

  abbrev pub Alive : World db → Type 0
  Alive w = AllLive before (deployments db w)

  ends-Leads :
      (f : Deployment → Deployment)
      → ((d : Deployment)
          → d.status ≡ DeploymentStatus.running
          → (e : Deployment) → Lives e d
          → Lives e (f d))
      → Leads UnderWay Alive (
          find_one_and_update db.deployments
            (get_deployments db)
            (put_deployments db)
            (has_deployment_id id)
            f)
  ends-Leads f step = record {
    at = λ w h. go w h (
        find_one_and_update-Updated db.deployments (get_deployments db) (put_deployments db)
          (λ s v. refl) (has_deployment_id id) f w);
  }
    where
      go :
          (w : World db)
          → UnderWay w
          → {r : Result Error (Option Deployment)} {w' : World db}
          → Updated db.deployments
              (get_deployments db)
              (put_deployments db)
              (λ s v. refl)
              (has_deployment_id id)
              f
              w
              r
              w'
          → Alive w'
      go w (lives, running) (missed gone r end) = subst (AllLive before) (sym end) lives
      go w (lives, (d, found, running)) (hit old there r end) =
          subst (AllLive before) (sym end) (ends-AllLive f id d lives found (step d running))

  pub mark_failed-Leads :
      (now audit_now : ℕ) (input : MarkDeploymentFailedInput)
      → Leads UnderWay Alive (mark_deployment_failed db now audit_now id input)
  unfolding mark_deployment_failed
  mark_failed-Leads now audit_now input =
      Leads-Keeps _ _ (ends-Leads (fail now input) (fail-Lives now input))
        (audit_ended-Keeps db (AllLive before) audit_now id (λ d. failed_entry db input d id))

  pub mark_succeeded-Leads :
      (now audit_now : ℕ) (input : MarkSucceededInput)
      → Leads UnderWay Alive (mark_succeeded db now audit_now id input)
  unfolding mark_succeeded
  mark_succeeded-Leads now audit_now input =
      Leads-Keeps _ _ (ends-Leads (succeed now input) (succeed-Lives now input))
        (audit_ended-Keeps db (AllLive before) audit_now id (λ d. succeeded_entry db input d id))
