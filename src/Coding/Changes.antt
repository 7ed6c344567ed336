-- ===== src/Coding/Changes.antt =====
-- src/coding-agent/changes.ts: the validation of the changes that the provider proposed. sha256 is a
-- parameter; the provider's answer is the argument.
use aisdlc.Prelude.{Bool, not, any, if◌then◌else◌, Option, List, first, some, none, ◌∷◌, []}
use aisdlc.Documents.{
  ProposedChange, ProposedChangeOperation, create, modify, RepositoryContextFile,
  ImplementationPlan,
}
use aisdlc.Text.{trim, Text, is_empty, same}
use aisdlc.Coding.PathSafety.{validate_file_reference, valid_reference}

-- A change as the provider gave it. A field that is not of the type that ProviderProposedChange
-- states is `none`.
pub record ProviderProposedChange : Type 0 where
  pub file_path : Option Text
  pub operation : Option ProposedChangeOperation
  pub proposed_content : Option Text
  pub reason : Option Text
  pub related_plan_item_id : Option Text

pub data ChangesResult : Type 0 where
  changes_ok : List ProposedChange → ChangesResult
  malformed_model_output validation_failure unsafe_proposed_change : ChangesResult

unfoldable pub is_non_empty : Text → Bool
unfolding trim is_empty
is_non_empty s = not (is_empty (trim s))

abbrev non_empty : Option Text → Option Text
non_empty none = none
non_empty (some s) = if is_non_empty s then some s else none

-- A change of the right shape: isWellShapedProviderChange.
pub record WellShaped : Type 0 where
  pub file_path : Text
  pub operation : ProposedChangeOperation
  pub proposed_content : Text
  pub reason : Text
  pub related_plan_item_id : Text

abbrev shaped :
    Option Text
    → Option ProposedChangeOperation
    → Option Text
    → Option Text
    → Option Text
    → Option WellShaped
shaped (some path) (some operation) (some content) (some reason) (some item) = some (record {
  file_path = path;
  operation = operation;
  proposed_content = content;
  reason = reason;
  related_plan_item_id = item;
})
shaped _ _ _ _ _ = none

unfoldable pub well_shaped : ProviderProposedChange → Option WellShaped
unfolding is_non_empty
well_shaped c =
    shaped (non_empty c.file_path) c.operation c.proposed_content (non_empty c.reason)
      (non_empty c.related_plan_item_id)

unfoldable pub find_file : List RepositoryContextFile → Text → Option RepositoryContextFile
unfolding first same
find_file files path = first (λ f. same f.path path) files

module _ (sha256 : Text → Text) where
  unfoldable pub hash_file_content : Text → Text
  hash_file_content content = sha256 content

  abbrev content_hash_of : Option RepositoryContextFile → Option Text
  content_hash_of none = none
  content_hash_of (some f) = some (hash_file_content f.content)

  -- The hash is of the content that this run's context holds, never the provider's.
  unfoldable pub original_content_hash :
      ProposedChangeOperation → List RepositoryContextFile → Text → Option Text
  unfolding hash_file_content find_file
  original_content_hash create files path = none
  original_content_hash modify files path = content_hash_of (find_file files path)

  module _ (plan : ImplementationPlan) (files : List RepositoryContextFile) where
    unfoldable pub accept_change : WellShaped → ProposedChange
    unfolding original_content_hash
    accept_change raw = record {
      file_path = raw.file_path;
      operation = raw.operation;
      original_content_hash = original_content_hash raw.operation files raw.file_path;
      proposed_content = raw.proposed_content;
      reason = raw.reason;
      related_plan_item_id = raw.related_plan_item_id;
    }

    abbrev pub refers_to_plan : WellShaped → Bool
    refers_to_plan raw = any (λ item. same item.id raw.related_plan_item_id) plan.items

    abbrev pub with_change : ProposedChange → ChangesResult → ChangesResult
    with_change change (changes_ok changes) = changes_ok (change ∷ changes)
    with_change change other = other

    -- The loop: the first change that is refused decides the result.
    unfoldable pub validate_changes : List ProviderProposedChange → ChangesResult
    unfolding well_shaped accept_change validate_file_reference
    validate_changes [] = changes_ok []
    validate_changes (c ∷ cs) =
        let rest = validate_changes cs in
        elim (well_shaped c) [
          | none ↦ malformed_model_output
          | some raw ↦
              if not (refers_to_plan raw)
              then validation_failure
              else elim (validate_file_reference raw.file_path raw.operation files) [
                | valid_reference ↦ with_change (accept_change raw) rest
                | _ ↦ unsafe_proposed_change
              ]
        ]

    unfoldable pub generate_proposed_changes : List ProviderProposedChange → ChangesResult
    unfolding validate_changes
    generate_proposed_changes [] = malformed_model_output
    generate_proposed_changes (c ∷ cs) = validate_changes (c ∷ cs)
