-- ===== src/Registry/Records.antt =====
-- src/repository-registry/repository.ts: the stored entry.
use aisdlc.Prelude.{ℕ, List, Option}
use aisdlc.Text.{Text}
use aisdlc.Json.{Value}
use aisdlc.Store.{ObjectId}
use aisdlc.Collections.{RepositoryRegistryStatus}

pub record RegistryEntry : Type 0 where
  pub id : ObjectId
  pub project_identifier : Text
  pub repository_id : Text
  pub repository_url : Text
  pub default_branch : Text
  pub allowed_branches : List Text
  pub status : RepositoryRegistryStatus
  pub access_policy : Option Value
  pub created_at : ℕ
  pub updated_at : ℕ
  pub created_by : Text
  pub updated_by : Text
