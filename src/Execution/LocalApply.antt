-- ===== src/Execution/LocalApply.antt =====
-- src/change-execution/local-apply.ts
use aisdlc.Prelude.{
  Bool, true, false, not, ◌||◌, ◌++◌, if◌then◌else◌, List, [], Option, none, some, ◌∷◌,
}
use mathlib.Core.List.{reverse}
use aisdlc.Documents.{ProposedChange, AppliedChange, create, modify}
use aisdlc.Coding.PathSafety.{
  PathSafetyFailureReason, safe, unsafe, credential_or_secret_file, unauthorized_configuration_file,
  validate_path,
}
use aisdlc.Execution.Disk.{FilePath, Disk, is_under}
use aisdlc.Text.{same, split, Text, codes}
use aisdlc.Coding.Changes.{hash_file_content}

pub data LocalApplyFailureReason : Type 0 where
  apply_invalid_path apply_unauthorized_file apply_stale_file apply_write_failed :
      LocalApplyFailureReason

-- The failure names the file that it is about, where there is one.
pub data LocalApplyResult : Type 0 where
  applied : FilePath → List AppliedChange → LocalApplyResult
  refused : LocalApplyFailureReason → Option Text → LocalApplyResult

unfoldable pub to_local_apply_reason : PathSafetyFailureReason → LocalApplyFailureReason
to_local_apply_reason credential_or_secret_file = apply_unauthorized_file
to_local_apply_reason unauthorized_configuration_file = apply_unauthorized_file
to_local_apply_reason _ = apply_invalid_path

-- `path.join`: empty and `.` segments are dropped, `..` goes up. The stack has its top at the head.
unfoldable pub push_segment : FilePath → Text → FilePath
unfolding same
push_segment stack segment =
    if same segment [] || same segment (codes ".")
    then stack
    else if same segment (codes "..")
    then elim stack [ [] ↦ [] | s ∷ ss ↦ ss ]
    else segment ∷ stack

unfoldable pub push_all : FilePath → List Text → FilePath
unfolding push_segment
push_all stack [] = stack
push_all stack (segment ∷ segments) = push_all (push_segment stack segment) segments

-- `join(root, ...path.split('/'))`, for a root that is in normal form.
unfoldable pub resolve_under_root : FilePath → Text → FilePath
unfolding push_all split
resolve_under_root root path = reverse (push_all (reverse root) (split b'/' path))

unfoldable pub lookup_content : Text → List (Text × Text) → Option Text
unfolding same
lookup_content path [] = none
lookup_content path ((p, content) ∷ rest) =
    if same p path then some content else lookup_content path rest

abbrev same_hash : Text → Option Text → Bool
same_hash hash none = false
same_hash hash (some other) = same hash other

abbrev pub to_applied : ProposedChange → AppliedChange
to_applied change = record { path = change.file_path; operation = change.operation }

module _ (sha256 : Text → Text) (contents : List (Text × Text)) where
  abbrev is_current : Option Text → Option Text → Bool
  is_current none hash = false
  is_current (some live) hash = same_hash (hash_file_content sha256 live) hash

  -- A `modify` needs the live content, with the hash that was reviewed.
  unfoldable pub check_stale : ProposedChange → Bool
  unfolding lookup_content hash_file_content same
  check_stale change = elim change.operation [
    | create ↦ false
    | modify ↦
        not (is_current (lookup_content change.file_path contents) change.original_content_hash)
  ]

  -- Pass 1: `none` when every change may be applied.
  unfoldable pub first_refusal : List ProposedChange → Option LocalApplyResult
  unfolding validate_path check_stale to_local_apply_reason
  first_refusal [] = none
  first_refusal (change ∷ changes) =
      let rest = first_refusal changes in
      elim (validate_path change.file_path) [
        | unsafe reason ↦ some (refused (to_local_apply_reason reason) (some change.file_path))
        | safe ↦
            if check_stale change
            then some (refused apply_stale_file (some change.file_path))
            else rest
      ]

  module _ (disk : Disk) where
    -- The second pass, in the working directory `root`, with what has been applied so far.
    unfoldable pub write_all :
        FilePath
        → List AppliedChange
        → List ProposedChange
        → disk.State
        → LocalApplyResult × disk.State
    unfolding resolve_under_root is_under
    write_all root done [] s = (applied root done, s)
    write_all root done (change ∷ changes) s =
        let destination = resolve_under_root root change.file_path in
        elim (is_under root destination) [
          | false ↦ (refused apply_invalid_path (some change.file_path), s)
          | true ↦ elim (disk.write destination change.proposed_content s) [
            | none ↦ (refused apply_write_failed none, disk.remove root s)
            | some s' ↦ write_all root (done ++ to_applied change ∷ []) changes s'
          ]
        ]

    unfoldable pub in_temp :
        List ProposedChange
        → disk.State
        → Option (FilePath × disk.State)
        → LocalApplyResult × disk.State
    unfolding write_all
    in_temp changes s none = (refused apply_write_failed none, s)
    in_temp changes s (some (root, s')) = write_all root [] changes s'

    unfoldable pub after_checks :
        List ProposedChange → disk.State → Option LocalApplyResult → LocalApplyResult × disk.State
    unfolding in_temp
    after_checks changes s (some refusal) = (refusal, s)
    after_checks changes s none = in_temp changes s (disk.make_temp s)

    unfoldable pub apply_changes_locally :
        List ProposedChange → disk.State → LocalApplyResult × disk.State
    unfolding first_refusal after_checks
    apply_changes_locally changes s = after_checks changes s (first_refusal changes)
