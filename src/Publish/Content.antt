-- ===== src/Publish/Content.antt =====
-- src/github-publish/pr-content.ts: the commit message, and the title and body of the pull request.
-- `hex` is toHexString of an ObjectId. The characters beyond ASCII are the code units of the source.
use aisdlc.Prelude.{
  Bool, true, false, ◌++◌, ◌+◌, ◌-◌, ◌/◌, ◌%◌, leb, length, take, map, if◌then◌else◌, List, ℕ, zero,
  suc, ◌∷◌, [], Option, some, none,
}
use aisdlc.Text.{Text, codes, trim, trim_end}
use aisdlc.Store.{ObjectId}
use aisdlc.Documents.{
  ChangeReview, ChangeExecution, AppliedChange, ProposedChange, ProposedChangeOperation,
  ValidationStepResult, ValidationSummary,
}

-- The decimal digits of a number, in front of a text; Publish.Digits has the bound of the fuel.
unfoldable pub digits : ℕ → ℕ → Text → Text
digits zero n rest = rest
digits (suc fuel) n rest =
    let more = digits fuel (n / 10) ((b'0' + n % 10) ∷ rest) in
    if leb 10 n then more else (b'0' + n) ∷ rest

-- `${n}`
unfoldable pub number_text : ℕ → Text
unfolding digits
number_text n = digits (n + 1) n []

-- `lines.join('\n')`
unfoldable pub join_lines : List Text → Text
join_lines [] = []
join_lines (l ∷ []) = l
join_lines (l ∷ m ∷ ms) = l ++ 10 ∷ join_lines (m ∷ ms)

unfoldable pub truncate : Text → ℕ → Text
unfolding trim trim_end
truncate s max_length =
    let trimmed = trim s in
    if leb (length trimmed) max_length
    then trimmed
    else trim_end (take (max_length - 1) trimmed) ++ 0x2026 ∷ []

abbrev pub subject_max_length : ℕ
subject_max_length = 72

pub record PublishIdentifiers : Type 0 where
  pub run_id : ObjectId
  pub review_id : ObjectId
  pub execution_id : ObjectId

unfoldable pub subject_prefix : Text
subject_prefix = codes "AISDLC: "

-- The first line of the commit message.
unfoldable pub commit_subject : Text → Text
unfolding truncate subject_prefix
commit_subject summary =
    subject_prefix ++ truncate summary (subject_max_length - length subject_prefix)

abbrev pub to_applied : ProposedChange → AppliedChange
to_applied c = record { path = c.file_path; operation = c.operation }

abbrev pub listed : List AppliedChange → List ProposedChange → List AppliedChange
listed [] proposed = map to_applied proposed
listed (c ∷ cs) proposed = c ∷ cs

module _ (hex : ObjectId → Text) where
  unfoldable pub build_commit_message : ChangeReview → PublishIdentifiers → Text
  unfolding join_lines commit_subject number_text
  build_commit_message review ids = join_lines (
      commit_subject review.plan.summary
      ∷ []
      ∷ (codes "Run: " ++ hex ids.run_id)
      ∷ (codes "Review: " ++ hex ids.review_id)
      ∷ (codes "Execution: " ++ hex ids.execution_id)
      ∷ []
      ∷ (number_text (length review.proposed_changes) ++ codes " file(s) changed.")
      ∷ [])

  abbrev operation_text : ProposedChangeOperation → Text
  operation_text ProposedChangeOperation.create = codes "create"
  operation_text ProposedChangeOperation.modify = codes "modify"

  abbrev change_line : AppliedChange → Text
  change_line c =
      codes "- `" ++ (operation_text c.operation ++ (codes "`: `" ++ (c.path ++ codes "`")))

  abbrev verdict_text : Bool → Text
  verdict_text true = 0x2705 ∷ codes " passed"
  verdict_text false = 0x274c ∷ codes " failed"

  abbrev validation_line : Text → Option ValidationStepResult → Text
  validation_line name none = codes "- " ++ (name ++ codes ": not run")
  validation_line name (some result) =
      codes "- "
      ++ (name
          ++ (codes ": "
              ++ (verdict_text result.passed
                  ++ (codes " " ++ 0x2014 ∷ codes " ")
                  ++ result.summary)))

  abbrev step_of :
      (ValidationSummary → ValidationStepResult)
      → Option ValidationSummary
      → Option ValidationStepResult
  step_of f none = none
  step_of f (some v) = some (f v)

  unfoldable pub closing_line : Text
  closing_line =
      codes "_Generated through the approved AISDLC workflow: Coding Agent "
      ++ (0x2192 ∷ codes " Human Review ")
      ++ (0x2192 ∷ codes " Local Execution ")
      ++ (0x2192 ∷ codes " Local Validation ")
      ++ (0x2192 ∷ codes " this pull request. Merge remains a human-controlled decision._")

  pub record PullRequestContent : Type 0 where
    pub title : Text
    pub body : Text

  unfoldable pub build_pull_request_content :
      ChangeReview → ChangeExecution → PublishIdentifiers → PullRequestContent
  unfolding join_lines truncate closing_line subject_prefix
  build_pull_request_content review execution ids = record {
    title = subject_prefix ++ truncate review.plan.summary 100;
    body = join_lines (
        codes "## Summary"
        ∷ review.plan.requirements_understanding
        ∷ []
        ∷ codes "## Implemented changes"
        ∷ (map change_line (listed execution.applied_changes review.proposed_changes)
            ++ ([]
                ∷ codes "## Validation results"
                ∷ validation_line (codes "Tests") (step_of (λ v. v.tests) execution.validation)
                ∷ validation_line (codes "Typecheck")
                    (step_of (λ v. v.typecheck) execution.validation)
                ∷ validation_line (codes "Build") (step_of (λ v. v.build) execution.validation)
                ∷ []
                ∷ codes "## AISDLC references"
                ∷ (codes "- Run: `" ++ (hex ids.run_id ++ codes "`"))
                ∷ (codes "- Review: `" ++ (hex ids.review_id ++ codes "`"))
                ∷ (codes "- Execution: `" ++ (hex ids.execution_id ++ codes "`"))
                ∷ []
                ∷ codes "---"
                ∷ closing_line
                ∷ [])));
  }
