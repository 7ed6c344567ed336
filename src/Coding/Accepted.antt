-- ===== src/Coding/Accepted.antt =====
-- Laws of generateProposedChanges of src/coding-agent/changes.ts.
use aisdlc.Prelude.{
  ◌≡◌, refl, arith, Bool, true, false, any, List, [], ◌∷◌, some, Option-cases, Bool-cases, inl, inr,
  ◌⊎◌, All, length, ◌≢◌,
}
use aisdlc.Text.{Text, same}
use aisdlc.Documents.{
  ProposedChange, ProposedChangeOperation, create, modify, RepositoryContextFile,
  ImplementationPlan,
}
use aisdlc.Coding.PathSafety.{
  validate_path, safe, validate_file_reference, check_operation, in_context, FileReferenceResult,
  valid_reference, unsafe_path, modify_target_not_in_context, create_target_already_exists,
}
use aisdlc.Coding.Changes.{
  ProviderProposedChange, ChangesResult, changes_ok, malformed_model_output, validation_failure,
  unsafe_proposed_change, WellShaped, well_shaped, original_content_hash, accept_change,
  refers_to_plan, with_change, validate_changes, generate_proposed_changes,
}

module _ (sha256 : Text → Text) (plan : ImplementationPlan)
    (files : List RepositoryContextFile) where
  -- What a change must be to go to the reviewer.
  pub record IsAcceptable (change : ProposedChange) : Type 0 where
    pub path : validate_path change.file_path ≡ safe
    pub planned : any (λ item. same item.id change.related_plan_item_id) plan.items ≡ true
    pub created : change.operation ≡ create → in_context files change.file_path ≡ false
    pub modified : change.operation ≡ modify → in_context files change.file_path ≡ true
    -- The hash is of this run's own content of the file.
    pub hash :
        change.original_content_hash
        ≡ original_content_hash sha256 change.operation files change.file_path

  reference-safe :
      (path : Text) (operation : ProposedChangeOperation)
      → validate_file_reference path operation files ≡ valid_reference
      → (validate_path path ≡ safe)
        × (check_operation operation (in_context files path) ≡ valid_reference)
  unfolding validate_file_reference
  reference-safe path operation h = ground arith

  check_operation-valid :
      (operation : ProposedChangeOperation) (existing : Bool)
      → check_operation operation existing ≡ valid_reference
      → (operation ≡ create → existing ≡ false) × (operation ≡ modify → existing ≡ true)
  unfolding check_operation
  check_operation-valid operation existing h = ground arith

  accept_change-IsAcceptable :
      (raw : WellShaped)
      → refers_to_plan sha256 plan files raw ≡ true
      → validate_file_reference raw.file_path raw.operation files ≡ valid_reference
      → IsAcceptable (accept_change sha256 plan files raw)
  unfolding accept_change
  accept_change-IsAcceptable raw planned valid =
      let (path, checked) = reference-safe raw.file_path raw.operation valid in
      let (fresh, known) = check_operation-valid raw.operation _ checked in
      record { path = path; planned = planned; created = fresh; modified = known; hash = refl }

  with_change-ok :
      (change : ProposedChange) (r : ChangesResult) {changes : List ProposedChange}
      → with_change sha256 plan files change r ≡ changes_ok changes
      → (rest : List ProposedChange) × (r ≡ changes_ok rest) × (changes ≡ change ∷ rest)
  with_change-ok change (changes_ok rest) h = (rest, refl, cc)
  with_change-ok change malformed_model_output h = cc
  with_change-ok change validation_failure h = cc
  with_change-ok change unsafe_proposed_change h = cc

  FileReferenceResult-cases :
      (r : FileReferenceResult) → (r ≡ valid_reference) ⊎ (r ≢ valid_reference)
  FileReferenceResult-cases valid_reference = inl refl
  FileReferenceResult-cases (unsafe_path reason) = inr (λ e. cc)
  FileReferenceResult-cases modify_target_not_in_context = inr (λ e. cc)
  FileReferenceResult-cases create_target_already_exists = inr (λ e. cc)

  -- A loop that returns changes has accepted the first one.
  validate_changes-first :
      (c : ProviderProposedChange) (cs : List ProviderProposedChange)
      {changes : List ProposedChange}
      → validate_changes sha256 plan files (c ∷ cs) ≡ changes_ok changes
      → (raw : WellShaped) × (well_shaped c ≡ some raw)
        × (refers_to_plan sha256 plan files raw ≡ true)
        × (validate_file_reference raw.file_path raw.operation files ≡ valid_reference)
        × (with_change sha256 plan files
              (accept_change sha256 plan files raw)
              (validate_changes sha256 plan files cs)
            ≡ changes_ok changes)
  unfolding validate_changes
  validate_changes-first c cs h = elim (Option-cases (well_shaped c)) [
    | inl misshapen ↦ ground arith
    | inr (raw, shaped) ↦ elim (Bool-cases (refers_to_plan sha256 plan files raw)) [
      | inr unplanned ↦ ground arith
      | inl planned ↦
          elim (FileReferenceResult-cases
            (validate_file_reference raw.file_path raw.operation files)) [
              | inl valid ↦ (raw, shaped, planned, valid, ground arith)
              | inr other ↦ ground arith
            ]
    ]
  ]

  validate_changes-ok :
      (proposals : List ProviderProposedChange) {changes : List ProposedChange}
      → validate_changes sha256 plan files proposals ≡ changes_ok changes
      → All IsAcceptable changes × (length changes ≡ length proposals)
  unfolding validate_changes
  validate_changes-ok [] {changes} h =
      let none_left : changes ≡ [] = cc in (rw none_left tt, rw none_left refl)
  validate_changes-ok (c ∷ cs) {changes} h =
      let (raw, shaped, planned, valid, added) = validate_changes-first c cs h in
      let (rest, later, split) = with_change-ok (accept_change sha256 plan files raw) _ added in
      let (all, count) = validate_changes-ok cs {changes = rest} later in
      (
        rw split (accept_change-IsAcceptable raw planned valid, all),
        rw split (omega (arith, count)),
      )

  -- If the provider's proposals are accepted, then there is one change for each proposal, and
  -- each has a safe path, names an item of the plan, modifies a file of the context or creates
  -- one that is not there, and carries the hash of the content in this run's context (none for a
  -- created file).
  pub generate_proposed_changes-IsAcceptable :
      (proposals : List ProviderProposedChange) (changes : List ProposedChange)
      → generate_proposed_changes sha256 plan files proposals ≡ changes_ok changes
      → All IsAcceptable changes × (length changes ≡ length proposals)
  unfolding generate_proposed_changes
  generate_proposed_changes-IsAcceptable [] changes h = cc
  generate_proposed_changes-IsAcceptable (c ∷ cs) changes h = validate_changes-ok (c ∷ cs) h
