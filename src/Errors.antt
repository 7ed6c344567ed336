-- ===== src/Errors.antt =====
-- The errors that the components throw, and the actions that may throw them.
use aisdlc.Text.{Text}
use aisdlc.Store.{ObjectId}
use aisdlc.Collections.{IntakeStatus, ChangeReviewStatus}
use aisdlc.Effect.{Action}
use aisdlc.Db.{Db, World}

pub data Error : Type 0 where
  -- An error of the driver that is not a duplicate key.
  driver_error : Error
  -- The duplicate-key error, where it is rethrown.
  duplicate_key_error : Error
  -- TypeError, with the field it is about.
  type_error : Text → Error
  -- RangeError, which toISOString throws for an invalid date.
  range_error : Text → Error
  -- intake/state.ts
  invalid_transition : IntakeStatus → IntakeStatus → Error
  -- intake/repository.ts
  approval_requires_operator : Text → Error
  intake_not_found : Text → Error
  intake_conflict : Text → Error
  -- requirements/repository.ts
  requirements_analysis_not_found : ObjectId → Error
  -- repository-selection/repository.ts
  selection_not_found : ObjectId → Error
  selection_conflict : ObjectId → Error
  selection_validation : Text → Error
  -- change-execution/review-repository.ts
  review_not_found : ObjectId → Error
  review_not_pending : ObjectId → ChangeReviewStatus → Error
  review_decision_requires_operator : Text → Error
  -- deployment/deployment-repository.ts
  deployment_not_found : ObjectId → Error
  -- repository-registry/repository.ts
  registry_validation : Text → Error
  -- An error that a call outside the repository threw (an analyzer, a provider).
  external_error : Text → Error

abbrev pub Do : Db → Type 0 → Type 0
Do db A = Action (World db) Error A
