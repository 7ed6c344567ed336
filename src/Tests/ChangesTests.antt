-- ===== src/Tests/ChangesTests.antt =====
-- src/coding-agent, src/change-execution, src/repository-selection: the theorems at concrete data.
use aisdlc.Prelude.{
  List, [], ◌∷◌, none, some, ◌≡◌, refl, arith, All, ◌⊎◌, length, any, first, true, Pointwise, false,
  Option,
}
use aisdlc.Text.{Text, codes, same}
use aisdlc.Effect.{Result, ok, err}
use aisdlc.Errors.{Error, driver_error}
use aisdlc.Collections.{ChangeExecutionStatus, ChangeReviewStatus}
use aisdlc.Documents.{
  ProposedChange, ProposedChangeOperation, ImplementationPlan, RepositorySelection, ChangeReview,
}
use aisdlc.Db.{World}
use aisdlc.Coding.PathSafety.{validate_path, safe}
use aisdlc.Coding.Changes.{ProviderProposedChange, changes_ok, generate_proposed_changes}
use aisdlc.Coding.Accepted.{IsAcceptable, generate_proposed_changes-IsAcceptable}
use aisdlc.Execution.Disk.{is_under}
use aisdlc.Execution.MemoryDisk.{memory_disk}
use aisdlc.Execution.LocalApply.{apply_changes_locally, resolve_under_root}
use aisdlc.Execution.Confined.{validate_path-is_under}
use aisdlc.Execution.Atomic.{Applied, apply_changes_locally-Applied}
use aisdlc.Execution.Reviews.{
  decide, approve, ReviewDecisionInput, CreateChangeReviewInput, StoredReview, has_hash,
  create_if_absent,
}
use aisdlc.Execution.Decisions.{Settles, decide-Settles, reviews}
use aisdlc.Execution.Proposed.{OneReviewPerProposal, create_if_absent-found}
use aisdlc.Execution.Executions.{RecordExecutionInput}
use aisdlc.Execution.Eligibility.{
  AccessResult, accessed, eligible, verify_eligibility, is_same_review,
}
use aisdlc.Execution.Authorized.{
  IsAuthorized, verify_eligibility-IsAuthorized, IsAuthorized-verify_eligibility,
}
use aisdlc.Store.{ObjectId}
use aisdlc.Execution.Recorded.{executions, OneExecutionPerReview}
use aisdlc.Selection.Repository.{confirm, ConfirmSelectionInput}
use aisdlc.Selection.Confirm.{Confirmed, confirm-Confirmed}
use aisdlc.Selection.Worker.{match_repository_selections, MatchSelectionsSummary}
use aisdlc.Tests.Fixtures.{
  test_db, test_world, alone, test_run, test_text, test_plan, test_change, test_review,
  test_selection,
}

abbrev proposal : ProviderProposedChange
proposal = record {
  file_path = some (codes "a.ts");
  operation = some ProposedChangeOperation.create;
  proposed_content = some (codes "x");
  reason = some (codes "r");
  related_plan_item_id = some (codes "i");
}

accepted :
    generate_proposed_changes test_text test_plan [] (proposal ∷ []) ≡ changes_ok (test_change ∷ [])
unfolding generate_proposed_changes any same
accepted = refl

generate_proposed_changes-IsAcceptable_example :
    All (IsAcceptable test_text test_plan []) (test_change ∷ [])
    × (length (test_change ∷ []) ≡ length (proposal ∷ []))
generate_proposed_changes-IsAcceptable_example =
    generate_proposed_changes-IsAcceptable test_text test_plan [] (proposal ∷ []) (test_change ∷ [])
      accepted

safe_path : validate_path (codes "src/a.ts") ≡ safe
unfolding validate_path
safe_path = refl

validate_path-is_under_example :
    is_under (codes "tmp" ∷ []) (resolve_under_root (codes "tmp" ∷ []) (codes "src/a.ts")) ≡ true
validate_path-is_under_example =
    validate_path-is_under (codes "tmp" ∷ []) (codes "src/a.ts") safe_path

unfoldable disk_before : memory_disk.State
unfolding memory_disk
disk_before = (codes "etc" ∷ [], codes "keep") ∷ []

apply_changes_locally-Applied_example :
    Applied test_text [] memory_disk
      (test_change ∷ [])
      disk_before
      (apply_changes_locally test_text [] memory_disk (test_change ∷ []) disk_before).0
      (apply_changes_locally test_text [] memory_disk (test_change ∷ []) disk_before).1
apply_changes_locally-Applied_example =
    apply_changes_locally-Applied test_text [] memory_disk (test_change ∷ []) disk_before

abbrev decision : ReviewDecisionInput
decision = record { actor = codes "operator:kim"; comment = none }

abbrev decided_run : Result Error ChangeReview × World test_db
decided_run = decide test_db alone 5 6 3 approve decision test_world

decide-Settles_example :
    (decided_run.1 ≡ test_world)
    ⊎ Pointwise Settles (reviews test_db test_world) (reviews test_db decided_run.1)
decide-Settles_example = decide-Settles test_db alone 5 6 3 approve decision test_world

abbrev review_input : CreateChangeReviewInput
review_input = record {
  run_id = 8;
  intake_item_id = 2;
  repository_id = codes "r";
  owner = codes "o";
  repo = codes "r";
  branch = codes "b";
  plan = test_plan;
  proposed_changes = test_change ∷ [];
}

abbrev test_hash : ImplementationPlan → List ProposedChange → Text
test_hash plan changes = codes "h"

test_reviews-OneReviewPerProposal : OneReviewPerProposal (reviews test_db test_world)
unfolding test_db test_world any
test_reviews-OneReviewPerProposal = (refl, tt)

review_found :
    first (has_hash test_db test_hash review_input) (reviews test_db test_world) ≡ some test_review
unfolding test_db test_world first same
review_found = refl

abbrev found_review : StoredReview test_db
found_review = record { doc = test_review; was_created = false }

-- The run 8 gets the review of the run 7.
create_if_absent-found_example :
    (create_if_absent test_db test_hash alone 5 6 review_input test_world
      ≡ (ok found_review, test_world))
    ⊎ (create_if_absent test_db test_hash alone 5 6 review_input test_world
        ≡ (err driver_error, test_world))
create_if_absent-found_example =
    create_if_absent-found test_db test_hash 5 6 review_input test_world test_review review_found

abbrev execution_input : RecordExecutionInput
execution_input = record {
  run_id = 7;
  review_id = 3;
  proposal_hash = codes "h";
  status = ChangeExecutionStatus.succeeded;
  applied_changes = [];
  validation = none;
  failure_category = none;
  failure_message = none;
}

test_executions-OneExecutionPerReview : OneExecutionPerReview (executions test_db test_world)
unfolding test_db test_world
test_executions-OneExecutionPerReview = tt

abbrev confirmation : ConfirmSelectionInput
confirmation = record {
  repository_id = codes "s";
  repository_url = codes "u";
  default_branch = codes "main";
  allowed_branches = [];
  access_policy = none;
  confirmed_by = codes "operator:kim";
  confirm_now = none;
}

abbrev confirmed_run : Result Error RepositorySelection × World test_db
confirmed_run = confirm test_db alone 5 6 7 confirmation test_world

confirm-Confirmed_example :
    Confirmed test_db alone 5 6 7 confirmation test_world confirmed_run.0 confirmed_run.1
confirm-Confirmed_example = confirm-Confirmed test_db alone 5 6 7 confirmation test_world

abbrev registry : Text → List Text
registry project = codes "r" ∷ []

abbrev queued_pass : MatchSelectionsSummary
queued_pass =
    (match_repository_selections test_db alone registry (λ w. test_selection ∷ []) 5 5 6
      (test_run ∷ []) test_world).0

abbrev approved_review : ChangeReview
approved_review = record test_review {
  status = ChangeReviewStatus.approved;
  reviewed_by = some (codes "operator:kim");
  reviewed_at = some 2;
}

unfoldable approved_world : World test_db
unfolding test_db test_world
approved_world = record test_world { change_reviews = approved_review ∷ [] }

abbrev newest_review : World test_db → ObjectId → Option ChangeReview
newest_review w run_id = some approved_review

abbrev resolved : ObjectId → AccessResult
resolved run_id = accessed (codes "o") (codes "r") (codes "b")

abbrev hex : ObjectId → Text
hex id = []

approved_review-IsAuthorized :
    IsAuthorized test_db hex newest_review resolved 5 10 6 7 3 approved_world approved_review
unfolding approved_world test_db test_world first is_same_review
approved_review-IsAuthorized = record {
  stored = refl;
  unexecuted = refl;
  of_the_run = refl;
  approved = refl;
  reviewed_at = 2;
  reviewed = refl;
  in_time = omega arith;
  newest = refl;
  identity = refl;
}

IsAuthorized-verify_eligibility_example :
    verify_eligibility test_db hex newest_review resolved 5 10 6 7 3 approved_world
    ≡ (ok (eligible approved_review), approved_world)
IsAuthorized-verify_eligibility_example =
    IsAuthorized-verify_eligibility test_db hex newest_review resolved 5 10 6 7 3 approved_world
      approved_review approved_review-IsAuthorized

authorized :
    verify_eligibility test_db hex newest_review resolved 5 10 6 7 3 approved_world
    ≡ (ok (eligible approved_review), approved_world)
authorized =
    IsAuthorized-verify_eligibility test_db hex newest_review resolved 5 10 6 7 3 approved_world
      approved_review approved_review-IsAuthorized

verify_eligibility-IsAuthorized_example :
    IsAuthorized test_db hex newest_review resolved 5 10 6 7 3 approved_world approved_review
verify_eligibility-IsAuthorized_example =
    verify_eligibility-IsAuthorized test_db hex newest_review resolved 5 10 6 7 3 approved_world
      approved_review approved_world authorized
