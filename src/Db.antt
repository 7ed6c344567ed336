-- ===== src/Db.antt =====
-- The database of the service: one collection of the driver for each collection of
-- src/db/collections.ts that is modelled, under the unique index that INDEXES declares for it.
-- A world is what all the collections hold at one moment.
use aisdlc.Prelude.{Bool, false, ◌==◌}
use aisdlc.Text.{same}
use aisdlc.Store.{Collection}
use aisdlc.Documents.{
  AuditEntry, IntakeItem, WebhookDelivery, Run, RequirementsAnalysis, RepositorySelection,
  ChangeReview, ChangeExecution,
}
use aisdlc.Publish.Records.{GithubPublication}
use aisdlc.Deploy.Records.{Deployment}

-- INDEXES: `clash d e` when both have the value of the unique key.
abbrev pub issue_key_unique : IntakeItem → IntakeItem → Bool
issue_key_unique d e = same e.issue_key d.issue_key

abbrev pub delivery_id_unique : WebhookDelivery → WebhookDelivery → Bool
delivery_id_unique d e = same e.delivery_id d.delivery_id

abbrev pub run_intake_item_id_unique : Run → Run → Bool
run_intake_item_id_unique d e = e.intake_item_id == d.intake_item_id

abbrev pub analysis_intake_item_id_unique : RequirementsAnalysis → RequirementsAnalysis → Bool
analysis_intake_item_id_unique d e = e.intake_item_id == d.intake_item_id

abbrev pub run_id_unique : RepositorySelection → RepositorySelection → Bool
run_id_unique d e = e.run_id == d.run_id

abbrev pub proposal_hash_unique : ChangeReview → ChangeReview → Bool
proposal_hash_unique d e = same e.proposal_hash d.proposal_hash

abbrev pub review_id_unique : ChangeExecution → ChangeExecution → Bool
review_id_unique d e = e.review_id == d.review_id

abbrev pub execution_id_unique : GithubPublication → GithubPublication → Bool
execution_id_unique d e = e.execution_id == d.execution_id

abbrev pub publication_id_unique : Deployment → Deployment → Bool
publication_id_unique d e = e.publication_id == d.publication_id

-- auditLog has no unique index.
abbrev pub no_unique : AuditEntry → AuditEntry → Bool
no_unique d e = false

pub record Db : Type 1 where
  pub audit_log : Collection AuditEntry no_unique
  pub intake_items : Collection IntakeItem issue_key_unique
  pub webhook_deliveries : Collection WebhookDelivery delivery_id_unique
  pub runs : Collection Run run_intake_item_id_unique
  pub requirements_analyses : Collection RequirementsAnalysis analysis_intake_item_id_unique
  pub repository_selections : Collection RepositorySelection run_id_unique
  pub change_reviews : Collection ChangeReview proposal_hash_unique
  pub change_executions : Collection ChangeExecution review_id_unique
  pub github_publications : Collection GithubPublication execution_id_unique
  pub deployments : Collection Deployment publication_id_unique

pub record World (db : Db) : Type 0 where
  pub audit_log : db.audit_log.State
  pub intake_items : db.intake_items.State
  pub webhook_deliveries : db.webhook_deliveries.State
  pub runs : db.runs.State
  pub requirements_analyses : db.requirements_analyses.State
  pub repository_selections : db.repository_selections.State
  pub change_reviews : db.change_reviews.State
  pub change_executions : db.change_executions.State
  pub github_publications : db.github_publications.State
  pub deployments : db.deployments.State
