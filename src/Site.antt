-- ===== src/Site.antt =====
-- What the services that call another system work on: the database of the service, and the remote side
-- (GitHub, or what is deployed to).
use aisdlc.Effect.{ok, Action}
use aisdlc.Errors.{Error, Do}
use aisdlc.Db.{Db, World}
use aisdlc.GithubApp.Client.{Answer, Call}

pub record Site (db : Db) (R : Type 0) : Type 0 where
  pub world : World db
  pub remote : R

module _ {db : Db} {R : Type 0} where
  unfoldable pub on_world : {A : Type 0} → Do db A → Action (Site db R) Error A
  on_world m s = let (result, w) = m s.world in (result, record s { world = w })

  unfoldable pub on_remote : {A : Type 0} → Action R Error A → Action (Site db R) Error A
  on_remote m s = let (result, r) = m s.remote in (result, record s { remote = r })

-- One call of GitHub, whose refusal is a value.
unfoldable pub ask : {R A : Type 0} → Call R A → Action R Error (Answer A)
ask call r = let (answer, r') = call r in (ok answer, r')
