-- ===== src/Deploy/Followed.antt =====
-- runDeployment of src/deployment/deployment-service.ts against the abstract machine of Lifecycle.
use aisdlc.Prelude.{Pointwise-refl, ◌≡◌, refl, sym, subst, Bool, false, List, ℕ, Option, some, none}
use aisdlc.Store.{ObjectId}
use aisdlc.Effect.{Result, Action, and_then}
use aisdlc.Effect.Keeps.{Keeps, Keeps-pure, Keeps-map, Leads, Leads-then, Leads-Keeps, Leads-if}
use aisdlc.Errors.{Error, Do}
use aisdlc.Text.{Text, codes}
use aisdlc.Documents.{Datum}
use aisdlc.Db.{Db, World}
use aisdlc.Collections.{DeploymentStatus}
use aisdlc.Site.{Site, on_world, on_remote}
use aisdlc.Deploy.Records.{
  Deployment, not_deployed, is_retryable_deployment_category, DeploymentFailureCategory,
  PostDeploymentValidationSummary,
}
use aisdlc.Deploy.Deployments.{claim, start}
use aisdlc.Deploy.Claimed.{deployments, OneDeploymentPerId, Claim, refused, granted, claim-Claim}
use aisdlc.Deploy.Lifecycle.{
  AllLive, IsRunning, Lives, Lives-refl, claimed-AllLive, append-Keeps, UnderWay, Alive,
  mark_failed-Leads, mark_succeeded-Leads,
}
use aisdlc.Deploy.Service.{
  DeploymentProvider, ValidateDeploymentResult, acceptable, unacceptable, DeployOutcome,
  deploy_done, deploy_refused, note, refuse, give_up, after_validation, after_deploy, reconcile,
  after_check, check_commit, run_claimed, after_claim, run_deployment, call, is_status_succeeded,
  request_for, identifier, failure_category_of,
}

module _ {db : Db} {R : Type 0} (P : World db → Type 0) where
  abbrev On : Site db R → Type 0
  On s = P s.world

  Keeps-on_world : {A : Type 0} (m : Do db A) → Keeps P m → Keeps On (on_world m)
  unfolding on_world
  Keeps-on_world m k = record { at = λ s. k.at s.world }

  Keeps-on_remote : {A : Type 0} (m : Action R Error A) → Keeps On (on_remote m)
  unfolding on_remote
  Keeps-on_remote m = record { at = λ s h. h }

  Leads-on_world :
      (Q : World db → Type 0) {A : Type 0} (m : Do db A)
      → Leads P Q m
      → Leads On (λ (s : Site db R). Q s.world) (on_world m)
  unfolding on_world
  Leads-on_world Q m k = record { at = λ s. k.at s.world }

started : (now : ℕ) (d : Deployment) → (start now d).status ≡ DeploymentStatus.running
unfolding start
started now d = refl

module _ (db : Db) {R : Type 0} (provider : DeploymentProvider R) (hex : ObjectId → Text)
    (provider_name target : Text) (now audit_now : ℕ) (deployment_id : ObjectId)
    (before : List Deployment) where
  abbrev GoingIn : World db → Type 0
  GoingIn = UnderWay db deployment_id before

  abbrev LiveIn : World db → Type 0
  LiveIn = Alive db deployment_id before

  abbrev Going : Site db R → Type 0
  Going s = GoingIn s.world

  abbrev Live : Site db R → Type 0
  Live s = LiveIn s.world

  weaken : (s : Site db R) → Going s → Live s
  weaken s h = h.0

  note-Keeps :
      (T : List Deployment → Type 0) (action : Text) (detail : List (Text × Datum))
      → Keeps
          (λ (s : Site db R). T (deployments db s.world))
          (note db provider hex provider_name target now audit_now deployment_id action detail)
  unfolding note
  note-Keeps T action detail =
      Keeps-on_world (λ w. T (deployments db w)) _ (append-Keeps db T audit_now _)

  abbrev GoingRows : List Deployment → Type 0
  GoingRows ds = AllLive before ds × IsRunning deployment_id ds

  give_up-Leads :
      (run_id : ObjectId) (category : DeploymentFailureCategory) (message : Text) (retryable : Bool)
      → Leads Going Live (
          give_up db provider hex provider_name target now audit_now deployment_id run_id category
            message retryable)
  unfolding give_up
  give_up-Leads run_id category message retryable =
      Leads-Keeps _ _
        (Leads-on_world GoingIn LiveIn _
          (mark_failed-Leads db deployment_id before now audit_now _))
        λ d. Keeps-pure _

  module _ (claimed : Deployment) where
    after_validation-Leads :
        (v : PostDeploymentValidationSummary)
        → Leads Going Live (
            after_validation db provider hex provider_name target now audit_now deployment_id
              claimed v)
    unfolding after_validation
    after_validation-Leads v = Leads-then weaken _ _ (note-Keeps GoingRows _ _) λ id.
        Leads-Keeps _ _
          (Leads-on_world GoingIn LiveIn _
            (mark_succeeded-Leads db deployment_id before now audit_now _))
          λ d. Keeps-pure _

    after_deploy-Leads :
        (sha : Text)
        → Leads Going Live (
            after_deploy db provider hex provider_name target now audit_now deployment_id claimed
              sha)
    unfolding after_deploy
    after_deploy-Leads sha = Leads-then weaken _ _ (note-Keeps GoingRows _ _) λ id.
        Leads-then weaken _ _
          (Keeps-on_remote GoingIn (
            call (
              provider.validate
                (request_for db provider hex provider_name target now audit_now deployment_id
                  claimed sha)
                (identifier db provider hex provider_name target now audit_now deployment_id
                  claimed))))
          after_validation-Leads

    reconcile-Leads :
        (sha : Text) (outcome : DeployOutcome)
        → Leads Going Live (
            reconcile db provider hex provider_name target now audit_now deployment_id claimed sha
              outcome)
    unfolding reconcile
    reconcile-Leads sha deploy_done = after_deploy-Leads sha
    reconcile-Leads sha (deploy_refused message retryable) =
        Leads-then weaken _ _
          (Keeps-on_remote GoingIn (
            call (
              provider.get_deployment_status (
                identifier db provider hex provider_name target now audit_now deployment_id
                  claimed))))
          λ status.
            Leads-if (is_status_succeeded status) (after_deploy-Leads sha)
              (give_up-Leads claimed.run_id (failure_category_of retryable) message retryable)

    after_check-Leads :
        (sha : Text) (checked : ValidateDeploymentResult)
        → Leads Going Live (
            after_check db provider hex provider_name target now audit_now deployment_id claimed sha
              checked)
    unfolding after_check
    after_check-Leads sha (unacceptable message) =
        give_up-Leads claimed.run_id DeploymentFailureCategory.configuration_invalid message false
    after_check-Leads sha acceptable =
        Leads-then weaken _ _
          (Keeps-on_remote GoingIn (
            call (
              provider.deploy (
                request_for db provider hex provider_name target now audit_now deployment_id claimed
                  sha))))
          (reconcile-Leads sha)

    check_commit-Leads :
        (commit : Option Text)
        → Leads Going Live (
            check_commit db provider hex provider_name target now audit_now deployment_id claimed
              commit)
    unfolding check_commit
    check_commit-Leads none =
        give_up-Leads claimed.run_id DeploymentFailureCategory.configuration_invalid
          (codes "deployment has no merge commit sha") false
    check_commit-Leads (some sha) =
        Leads-then weaken _ _
          (Keeps-on_remote GoingIn (
            call (
              provider.validate_deployment (
                request_for db provider hex provider_name target now audit_now deployment_id claimed
                  sha))))
          (after_check-Leads sha)

    run_claimed-Leads :
        Leads Going Live
          (run_claimed db provider hex provider_name target now audit_now deployment_id claimed)
    unfolding run_claimed
    run_claimed-Leads = Leads-then weaken _ _ (note-Keeps GoingRows _ _) λ id. check_commit-Leads _

  refuse-Keeps :
      (run_id : ObjectId) (category : DeploymentFailureCategory)
      → Keeps Live
          (refuse db provider hex provider_name target now audit_now deployment_id run_id category)
  unfolding refuse
  refuse-Keeps run_id category =
      Keeps-map
        (λ id.
          not_deployed run_id deployment_id category (is_retryable_deployment_category category))
        _ (Keeps-on_world LiveIn _ (append-Keeps db (AllLive before) audit_now _))

module _ (db : Db) {R : Type 0} (provider : DeploymentProvider R) (hex : ObjectId → Text)
    (provider_name target : Text) (now audit_now : ℕ) (deployment_id : ObjectId) where
  claimed_answer-AllLive :
      (run_id : ObjectId) (s : Site db R) (answer : Result Error (Option Deployment))
      (w' : World db)
      → OneDeploymentPerId (deployments db s.world)
      → Claim db now deployment_id s.world answer w'
      → AllLive (deployments db s.world) (
          deployments db
            (and_then answer
              (after_claim db provider hex provider_name target now audit_now deployment_id run_id)
              (record s { world = w' })).1.world)
  unfolding after_claim
  claimed_answer-AllLive run_id s answer w' distinct (refused gone r end) = rw r (
      (refuse-Keeps db provider hex provider_name target now audit_now deployment_id
          (deployments db s.world) run_id DeploymentFailureCategory.already_deployed).at
        (record s { world = w' })
        (subst (AllLive (deployments db s.world)) (sym end)
          (Pointwise-refl Lives Lives-refl (deployments db s.world))))
  claimed_answer-AllLive run_id s answer w' distinct (granted old found r end) =
      let (lives, first_one) =
        claimed-AllLive now deployment_id (deployments db s.world) distinct found in
      rw r (
        (run_claimed-Leads db provider hex provider_name target now audit_now deployment_id
            (deployments db s.world) (start now old)).at
          (record s { world = w' })
          (
            subst (AllLive (deployments db s.world)) (sym end) lives,
            subst (IsRunning deployment_id) (sym end) (start now old, first_one, started now old),
          ))

  -- If no two deployments share an id, then runDeployment, whatever its outcome and whatever the
  -- provider and the validator answer, takes every stored deployment along a path of the abstract
  -- machine (eligible to running, running to succeeded or to failed, or no move), keeps its id,
  -- run, publication and merge commit, and adds and removes none.
  pub run_deployment-AllLive :
      (run_id : ObjectId) (s : Site db R)
      → OneDeploymentPerId (deployments db s.world)
      → AllLive (deployments db s.world) (
          deployments db
            (run_deployment db provider hex provider_name target now audit_now deployment_id run_id
              s).1.world)
  unfolding run_deployment on_world
  run_deployment-AllLive run_id s distinct =
      claimed_answer-AllLive run_id s (claim db now deployment_id s.world).0
        (claim db now deployment_id s.world).1 distinct (claim-Claim db now deployment_id s.world)
