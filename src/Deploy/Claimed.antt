-- ===== src/Deploy/Claimed.antt =====
-- Laws of the claim of src/deployment/deployment-repository.ts.
use aisdlc.Prelude.{
  ◌≡◌, refl, arith, Bool, false, ◌==◌, List, [], ◌∷◌, ℕ, Option, some, none, first, any,
  update_first,
}
use aisdlc.Store.{ObjectId}
use aisdlc.Effect.{Result, ok}
use aisdlc.Errors.{Error}
use aisdlc.Db.{Db, World}
use aisdlc.Access.Unique.{Distinct}
use aisdlc.Access.Laws.{Updated, missed, hit, find_one_and_update-Updated}
use aisdlc.Deploy.Records.{Deployment}
use aisdlc.Deploy.Deployments.{
  claim, claimable, is_eligible, start, get_deployments, put_deployments,
}

abbrev pub deployments : (db : Db) → World db → List Deployment
deployments db w = db.deployments.docs w.deployments

abbrev pub same_deployment_id : Deployment → Deployment → Bool
same_deployment_id d e = e.id == d.id

-- `_id` is unique in every collection.
abbrev pub OneDeploymentPerId : List Deployment → Type 0
OneDeploymentPerId = Distinct same_deployment_id

pub none-claimable :
    (id : ObjectId) (d : Deployment) (ds : List Deployment)
    → d.id ≡ id
    → any (same_deployment_id d) ds ≡ false
    → first (claimable id) ds ≡ none
unfolding any first
none-claimable id d [] e h = refl
none-claimable id d (x ∷ xs) e h = ground (arith, none-claimable id d xs e)

claimed-list :
    (now : ℕ) (id : ObjectId) (ds : List Deployment) {d : Deployment}
    → OneDeploymentPerId ds
    → first (claimable id) ds ≡ some d
    → first (claimable id) (update_first (claimable id) (start now) ds) ≡ none
unfolding first update_first start is_eligible
claimed-list now id [] distinct h = refl
claimed-list now id (x ∷ xs) {d} distinct h =
    let fact = none-claimable id x xs in
    ground (arith, fact, claimed-list now id xs {d = d} distinct.1)

module _ (db : Db) (now : ℕ) (id : ObjectId) where
  -- What the claim makes of the rows.
  pub data Claim (w : World db) (r : Result Error (Option Deployment)) (w' : World db)
      : Type 0 where
    refused :
        first (claimable id) (deployments db w) ≡ none
        → r ≡ ok none
        → deployments db w' ≡ deployments db w
        → Claim w r w'
    granted :
        (old : Deployment)
        → first (claimable id) (deployments db w) ≡ some old
        → r ≡ ok (some (start now old))
        → deployments db w' ≡ update_first (claimable id) (start now) (deployments db w)
        → Claim w r w'

  from-Updated :
      (w : World db) {r : Result Error (Option Deployment)} {w' : World db}
      → Updated db.deployments
          (get_deployments db)
          (put_deployments db)
          (λ s v. refl)
          (claimable id)
          (start now)
          w
          r
          w'
      → Claim w r w'
  from-Updated w (missed gone r end) = refused gone r end
  from-Updated w (hit old found r end) = granted old found r end

  pub claim-Claim : (w : World db) → Claim w (claim db now id w).0 (claim db now id w).1
  unfolding claim
  claim-Claim w = from-Updated w (
      find_one_and_update-Updated db.deployments (get_deployments db) (put_deployments db)
        (λ s v. refl) (claimable id) (start now) w)

  pub claim-refused :
      (w : World db)
      → first (claimable id) (deployments db w) ≡ none
      → (claim db now id w).0 ≡ ok none
  claim-refused w gone = go (claim-Claim w)
    where
      go : {r : Result Error (Option Deployment)} {w' : World db} → Claim w r w' → r ≡ ok none
      go (refused h r end) = r
      go (granted old found r end) = cc

module _ (db : Db) (now later : ℕ) (id : ObjectId) where
  -- If no two deployments share an id and a claim of a deployment is granted, then a claim of the
  -- same deployment on the database that it left is refused.
  pub claim-once :
      (w w' : World db) (d : Deployment)
      → OneDeploymentPerId (deployments db w)
      → claim db now id w ≡ (ok (some d), w')
      → (claim db later id w').0 ≡ ok none
  claim-once w w' d distinct h =
      claim-refused db later id w' (go (rw h at (claim-Claim db now id w)) refl)
    where
      go :
          {r : Result Error (Option Deployment)} {v : World db}
          → Claim db now id w r v
          → r ≡ ok (some d)
          → first (claimable id) (deployments db v) ≡ none
      go (refused h r end) e = cc
      go (granted old found r end) e =
          rw end (claimed-list now id (deployments db w) distinct found)
