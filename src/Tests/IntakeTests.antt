-- ===== src/Tests/IntakeTests.antt =====
-- src/intake, src/requirements: the theorems at concrete data.
use aisdlc.Prelude.{
  first, true, ◌⊎◌, any, [], ◌∷◌, none, some, ◌≡◌, refl, All, ◌≢◌, any, ◌⊎◌, ◌≤◌, ◌<◌,
}
use aisdlc.Text.{codes, same, Text}
use aisdlc.Effect.{Result, ok, err}
use aisdlc.Json.{field, end, text, object, array, date, cons, bigint, null, nil}
use aisdlc.Collections.{IntakeStatus, IntakeSource}
use aisdlc.Documents.{IntakeItem, RequirementsResult, IntakeSnapshot, RequirementsAnalysis}
use aisdlc.Db.{World}
use aisdlc.Access.{find_one, insert_or_winner, find_one_and_update}
use aisdlc.AuditLog.{append, require_non_empty}
use aisdlc.Intake.Hash.{canonicalize, render_entries, content_hash, hash_snapshot, join}
use aisdlc.Intake.Repository.{
  transition, TransitionOptions, create, CreateIntakeInput, CreateIntakeResult,
}
use aisdlc.Intake.Transition.{items}
use aisdlc.Intake.Outcome.{Outcome, transition-Outcome}
use aisdlc.Intake.History.{IsSound, Evolves, transition-IsSound, transition-Evolves}
use aisdlc.Intake.Creation.{Created, create-Created}
use aisdlc.Intake.Keys.{WellFormed, create-WellFormed}
use aisdlc.Intake.Canonical.{swapped, content_hash-Reordered}
use aisdlc.Requirements.Repository.{outcome_completed, of_item, apply_completed, new_analysis}
use aisdlc.Requirements.Agent.{
  is_up_to_date, skipped_no_fresh_completion, RequirementsAgentResult, run_requirements_agent,
}
use aisdlc.Requirements.Advanced.{Advanced}
use aisdlc.Tests.Fixtures.{test_db, test_world, alone, test_text, test_item, test_snapshot}
use aisdlc.Errors.{Error, range_error}
use aisdlc.Intake.Total.{hash_snapshot-IsOk}
use aisdlc.Requirements.Repeated.{analyses, analyze_and_advance, analyze_and_advance-repeated}
use aisdlc.Requirements.Judged.{Judged, run_requirements_agent-Judged}
use aisdlc.Intake.State.{
  can_transition, intake_transitions, same_status, is_terminal, initial_intake_status,
}
use aisdlc.Intake.Terminates.{Course, Course-terminates, then_to, stay}

abbrev approval : TransitionOptions
approval = record {
  actor = codes "operator:kim";
  reason = none;
  approved_by = some (codes "operator:kim");
}

abbrev new_input : CreateIntakeInput
new_input = record {
  issue_key = codes "A-3";
  source = IntakeSource.webhook;
  snapshot = test_snapshot;
  snapshot_meta = none;
  delivery_ref = none;
  received_at = none;
}

abbrev approved_run : Result Error IntakeItem × World test_db
approved_run = transition test_db alone 5 6 (codes "A-1") IntakeStatus.approved approval test_world

abbrev created_run : Result Error CreateIntakeResult × World test_db
created_run = create test_db test_text test_text alone alone 5 6 new_input test_world

transition-Outcome_example :
    Outcome test_db alone 5 6
      (codes "A-1")
      IntakeStatus.approved
      approval
      test_world
      approved_run.0
      approved_run.1
transition-Outcome_example =
    transition-Outcome test_db alone 5 6 (codes "A-1") IntakeStatus.approved approval test_world

test_items-IsSound : All IsSound (items test_db test_world)
unfolding test_db test_world
test_items-IsSound = (
  record { approver = λ e. cc; approved_when = λ e. cc },
  (record { approver = λ e. cc; approved_when = λ e. cc }, tt),
)

transition-IsSound_example : All IsSound (items test_db approved_run.1)
transition-IsSound_example =
    transition-IsSound test_db alone 5 6 (codes "A-1") IntakeStatus.approved approval test_world
      test_items-IsSound test_items-IsSound

transition-Evolves_example :
    (items test_db approved_run.1 ≡ items test_db test_world)
    ⊎ Evolves (items test_db test_world) (items test_db approved_run.1)
transition-Evolves_example =
    transition-Evolves test_db alone 5 6 (codes "A-1") IntakeStatus.approved approval test_world

create-Created_example :
    Created test_db test_text test_text alone alone 5 6 new_input test_world created_run.0
      created_run.1
create-Created_example =
    create-Created test_db test_text test_text alone alone 5 6 new_input test_world

test_items-WellFormed : WellFormed (items test_db test_world)
unfolding any same test_db test_world
test_items-WellFormed = record { distinct = (refl, (refl, tt)); sound = test_items-IsSound }

create-WellFormed_example : WellFormed (items test_db created_run.1)
create-WellFormed_example =
    create-WellFormed test_db test_text test_text alone alone 5 6 new_input test_world
      test_items-WellFormed test_items-WellFormed test_items-WellFormed

-- The empty key is not another key.
key_differs : codes "" ≢ codes "b"
key_differs e = cc

content_hash-Reordered_example :
    content_hash test_text test_text
      (object (field (codes "") (text []) (field (codes "b") (text []) end)))
    ≡ content_hash test_text test_text
        (object (field (codes "b") (text []) (field (codes "") (text []) end)))
content_hash-Reordered_example =
    content_hash-Reordered test_text test_text
      (field (codes "") (text []) (field (codes "b") (text []) end))
      (field (codes "b") (text []) (field (codes "") (text []) end))
      (swapped (codes "") (codes "b") (text []) (text []) end key_differs)

canonical_array :
    canonicalize test_text
      (array (cons (date (some (codes "2026"))) (cons (bigint (codes "7")) (cons null nil))))
    ≡ ok (codes "[2026,7,null]")
unfolding canonicalize join
canonical_array = refl

canonical_invalid_date :
    canonicalize test_text (object (field (codes "at") (date none) end))
    ≡ err (range_error (codes "Invalid time value"))
unfolding canonicalize render_entries
canonical_invalid_date = refl

-- The analyzer's answer.
abbrev test_result : RequirementsResult
test_result = record {
  summary = codes "s";
  problem_statement = codes "p";
  functional_requirements = [];
  acceptance_criteria = [];
  assumptions = [];
  risks = [];
  suggested_area = none;
}

abbrev analyze : IntakeSnapshot → Result Text RequirementsResult
analyze snapshot = ok test_result

abbrev no_hash : Text → Text
no_hash s = []

abbrev received_item : IntakeItem
received_item = test_item 2 (codes "A-2") IntakeStatus.received

abbrev agent_run : Result Error RequirementsAgentResult × World test_db
agent_run =
    run_requirements_agent test_db test_text no_hash analyze (codes "v") alone alone 5 6
      received_item test_world

abbrev analysis_row : RequirementsAnalysis
analysis_row =
    apply_completed
      (record { result = test_result; input_hash = []; agent_version = codes "v"; now = 5 })
      (new_analysis 5 (record { intake_item_id = 2; issue_key = codes "A-2"; input_hash = [] }) 1)

agent_returns :
    agent_run ≡ (ok (record { outcome = outcome_completed; document = analysis_row }), agent_run.1)
unfolding run_requirements_agent test_db test_world hash_snapshot canonicalize render_entries
    find_one insert_or_winner append require_non_empty new_analysis find_one_and_update
agent_returns = refl

run_requirements_agent-Judged_example :
    (input_hash : Text) × (hash_snapshot test_text no_hash test_snapshot ≡ ok input_hash)
    × Judged test_db test_text no_hash analyze
        (codes "v")
        alone
        alone
        5
        6
        received_item
        input_hash
        outcome_completed
        analysis_row
run_requirements_agent-Judged_example =
    run_requirements_agent-Judged test_db test_text no_hash analyze (codes "v") alone alone 5 6
      received_item test_world (record { outcome = outcome_completed; document = analysis_row })
      agent_run.1 agent_returns

unfoldable analyzed_world : World test_db
unfolding test_db test_world
analyzed_world = record test_world { requirements_analyses = analysis_row ∷ [] }

received_hash : hash_snapshot test_text no_hash test_snapshot ≡ ok []
unfolding hash_snapshot canonicalize render_entries
received_hash = refl

analyzed_found : first (of_item 2) (analyses test_db analyzed_world) ≡ some analysis_row
unfolding analyzed_world test_db test_world first apply_completed new_analysis
analyzed_found = refl

analyzed_fresh : is_up_to_date analysis_row [] ≡ true
unfolding is_up_to_date apply_completed
analyzed_fresh = refl

analyze_and_advance-repeated_example :
    analyze_and_advance test_db test_text no_hash analyze
      (codes "v")
      alone
      alone
      5
      6
      received_item
      analyzed_world
    ≡ (ok skipped_no_fresh_completion, analyzed_world)
analyze_and_advance-repeated_example =
    analyze_and_advance-repeated test_db test_text no_hash analyze (codes "v") alone alone 5 6
      received_item analyzed_world analysis_row [] received_hash analyzed_found analyzed_fresh

hash_snapshot-IsOk_example :
    (hash : Text) × (hash_snapshot test_text test_text test_snapshot ≡ ok hash)
hash_snapshot-IsOk_example = hash_snapshot-IsOk test_text test_text test_snapshot

shortest : Course initial_intake_status IntakeStatus.approved 2
unfolding can_transition intake_transitions same_status any
shortest = then_to (then_to stay IntakeStatus.pending_approval refl) IntakeStatus.approved refl

Course-terminates_example : (2 ≤ 2) × ((2 < 2) ⊎ (is_terminal IntakeStatus.approved ≡ true))
Course-terminates_example = Course-terminates IntakeStatus.approved 2 shortest
