-- ===== src/Collections.antt =====
-- src/db/collections.ts: the status vocabularies, and the constants that the components share.
use aisdlc.Prelude.{ℕ}
use aisdlc.Text.{Text, codes}

pub data IntakeStatus : Type 0 where
  received pending_approval approved rejected failed : IntakeStatus

pub data IntakeSource : Type 0 where
  webhook manual backfill : IntakeSource

pub data WebhookEvent : Type 0 where
  created updated deleted status_changed assigned commented department_changed : WebhookEvent

pub data WebhookDeliveryStatus : Type 0 where
  pending ignored invalid enriched failed : WebhookDeliveryStatus

pub data RunStatus : Type 0 where
  queued running succeeded failed cancelled : RunStatus

pub data RunTrigger : Type 0 where
  approval : RunTrigger

pub data RequirementsAnalysisStatus : Type 0 where
  pending completed failed : RequirementsAnalysisStatus

pub data RepositorySelectionStatus : Type 0 where
  pending selected failed ambiguous : RepositorySelectionStatus

pub data ChangeReviewStatus : Type 0 where
  pending approved rejected : ChangeReviewStatus

pub data ChangeExecutionStatus : Type 0 where
  succeeded failed : ChangeExecutionStatus

pub data RepositoryRegistryStatus : Type 0 where
  active inactive : RepositoryRegistryStatus

pub data GithubPublicationStatus : Type 0 where
  published failed : GithubPublicationStatus

pub data DeploymentStatus : Type 0 where
  eligible queued running succeeded failed closed_unmerged : DeploymentStatus

pub data AuditSubjectType : Type 0 where
  intake_item run run_artifact checkpoint outbound_write webhook_delivery : AuditSubjectType
  repository_registry_entry repository_selection change_review change_execution : AuditSubjectType
  github_publication deployment : AuditSubjectType

abbrev pub webhook_delivery_max_attempts : ℕ
webhook_delivery_max_attempts = 5

unfoldable pub operator_principal_prefix : Text
operator_principal_prefix = codes "operator:"
