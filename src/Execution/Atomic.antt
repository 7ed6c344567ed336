-- ===== src/Execution/Atomic.antt =====
-- Laws of applyChangesLocally of src/change-execution/local-apply.ts.
use aisdlc.Prelude.{
  ◌≡◌, refl, arith, ap, ◌∙◌, sym, true, false, List, [], ◌∷◌, ◌++◌, Bool-cases, inl, inr, ◌⊎◌,
  Option, none, some, Option-cases, map, if◌then◌else◌, All,
}
use mathlib.Core.List.{append_assoc, append-nil}
use aisdlc.Text.{Text}
use aisdlc.Text.Laws.{same→eq}
use aisdlc.Documents.{ProposedChange, AppliedChange}
use aisdlc.Coding.PathSafety.{
  validate_path, safe, unsafe, PathSafetyResult, PathSafetyFailureReason,
}
use aisdlc.Execution.Disk.{FilePath, Disk, is_under, same_path}
use aisdlc.Execution.Confined.{validate_path-is_under}
use aisdlc.Execution.LocalApply.{
  LocalApplyResult, applied, refused, apply_write_failed, first_refusal, check_stale, write_all,
  apply_changes_locally, in_temp, after_checks, resolve_under_root, to_applied,
}

-- Every change has a safe path and is not stale.
abbrev pub AllFit : (sha256 : Text → Text) → List (Text × Text) → List ProposedChange → Type 0
AllFit sha256 contents changes =
    All
      (λ change.
        (validate_path change.file_path ≡ safe) × (check_stale sha256 contents change ≡ false))
      changes

PathSafetyResult-cases :
    (r : PathSafetyResult) → (r ≡ safe) ⊎ ((reason : PathSafetyFailureReason) × (r ≡ unsafe reason))
PathSafetyResult-cases safe = inl refl
PathSafetyResult-cases (unsafe reason) = inr (reason, refl)

pub same_path→eq : (p q : FilePath) → same_path p q ≡ true → p ≡ q
unfolding same_path
same_path→eq [] [] h = refl
same_path→eq [] (t ∷ q) h = cc
same_path→eq (s ∷ p) [] h = cc
same_path→eq (s ∷ p) (t ∷ q) h = ground (arith, same→eq s t, same_path→eq p q)

-- What a file holds once the changes are written below `root`, given what it held before.
unfoldable pub overlay : FilePath → List ProposedChange → FilePath → Option Text → Option Text
unfolding same_path
overlay root [] path before = before
overlay root (change ∷ changes) path before = overlay root changes path (
    if same_path (resolve_under_root root change.file_path) path
    then some change.proposed_content
    else before)

module _ (sha256 : Text → Text) (contents : List (Text × Text)) where
  -- The first pass finds nothing exactly when every change fits.
  pub first_refusal-AllFit :
      (changes : List ProposedChange)
      → first_refusal sha256 contents changes ≡ none
      → AllFit sha256 contents changes
  unfolding first_refusal
  first_refusal-AllFit [] h = tt
  first_refusal-AllFit (change ∷ changes) h =
      elim (PathSafetyResult-cases (validate_path change.file_path)) [
        | inr (reason, bad) ↦ ground arith
        | inl good ↦ elim (Bool-cases (check_stale sha256 contents change)) [
          | inl stale ↦ ground arith
          | inr fresh ↦ ((good, fresh), first_refusal-AllFit changes (ground arith))
        ]
      ]

  module _ (disk : Disk) where
    -- What writing below a root leaves of the other files.
    write_all-outside :
        (root : FilePath) (done : List AppliedChange) (changes : List ProposedChange)
        (s : disk.State) (path : FilePath)
        → AllFit sha256 contents changes
        → is_under root path ≡ false
        → disk.read (write_all sha256 contents disk root done changes s).1 path ≡ disk.read s path
    unfolding write_all
    write_all-outside root done [] s path fit outside = refl
    write_all-outside root done (change ∷ changes) s path fit outside =
        let destination = resolve_under_root root change.file_path in
        let under = validate_path-is_under root change.file_path fit.0.0 in
        let elsewhere : same_path destination path ≡ false =
          elim (Bool-cases (same_path destination path)) [
            | inr other ↦ other
            | inl same ↦ cc (same_path→eq destination path same)
          ] in
        elim (Option-cases (disk.write destination change.proposed_content s)) [
          | inl failed ↦
              rw (write_all, under, failed) (disk.remove-read root s path ∙ (rw outside refl))
          | inr (s', written) ↦
              rw (write_all, under, written)
                (write_all-outside root (done ++ to_applied change ∷ []) changes s' path fit.1
                    outside
                  ∙ disk.write-read destination change.proposed_content s s' path written
                  ∙ (rw elsewhere refl))
        ]

    abbrev WriteEnds :
        FilePath
        → List AppliedChange
        → List ProposedChange
        → disk.State
        → LocalApplyResult × disk.State
        → Type 0
    WriteEnds root done changes s end =
        ((end.0 ≡ applied root (done ++ map to_applied changes))
          × ((path : FilePath)
              → disk.read end.1 path ≡ overlay root changes path (disk.read s path)))
        ⊎ ((end.0 ≡ refused apply_write_failed none)
            × ((path : FilePath) → is_under root path ≡ true → disk.read end.1 path ≡ none))

    more-result :
        (root : FilePath) (done : List AppliedChange) (change : ProposedChange)
        (changes : List ProposedChange) (s s' : disk.State) {end : LocalApplyResult × disk.State}
        → disk.write (resolve_under_root root change.file_path) change.proposed_content s ≡ some s'
        → WriteEnds root (done ++ to_applied change ∷ []) changes s' end
        → WriteEnds root done (change ∷ changes) s end
    unfolding overlay
    more-result root done change changes s s' written (inl (result, content)) =
        let destination = resolve_under_root root change.file_path in
        inl (
          result
              ∙ ap (applied root)
                  (append_assoc done (to_applied change ∷ []) (map to_applied changes)),
          λ path.
              content path
              ∙ ap (overlay root changes path)
                  (disk.write-read destination change.proposed_content s s' path written),
        )
    more-result root done change changes s s' written (inr fails) = inr fails

    -- A failure in the second pass leaves nothing below the root; a success reports each change.
    write_all-result :
        (root : FilePath) (done : List AppliedChange) (changes : List ProposedChange)
        (s : disk.State)
        → AllFit sha256 contents changes
        → WriteEnds root done changes s (write_all sha256 contents disk root done changes s)
    unfolding write_all overlay
    write_all-result root done [] s fit =
        inl (ap (applied root) (sym (append-nil done)), λ path. refl)
    write_all-result root done (change ∷ changes) s fit =
        let destination = resolve_under_root root change.file_path in
        let under = validate_path-is_under root change.file_path fit.0.0 in
        elim (Option-cases (disk.write destination change.proposed_content s)) [
          | inl failed ↦
              rw (write_all, under, failed)
                (inr (refl, λ path below. disk.remove-read root s path ∙ (rw below refl)))
          | inr (s', written) ↦
              rw (write_all, under, written)
                (more-result root done change changes s s' written
                  (write_all-result root (done ++ to_applied change ∷ []) changes s' fit.1))
        ]

    -- How the call ends: `root` is the new working directory.
    pub data Applied (changes : List ProposedChange) (s : disk.State) (r : LocalApplyResult)
        (s' : disk.State) : Type 0 where
      -- Refused before anything is written.
      turned_down :
          (refusal : LocalApplyResult)
          → first_refusal sha256 contents changes ≡ some refusal
          → r ≡ refusal
          → s' ≡ s
          → Applied changes s r s'
      -- The working directory could not be made, or a file could not be written.
      undone :
          AllFit sha256 contents changes
          → r ≡ refused apply_write_failed none
          → ((path : FilePath) → disk.read s' path ≡ disk.read s path)
          → Applied changes s r s'
      all_written :
          (root : FilePath)
          → AllFit sha256 contents changes
          → r ≡ applied root (map to_applied changes)
          → ((path : FilePath) → is_under root path ≡ true → disk.read s path ≡ none)
          → ((path : FilePath) → is_under root path ≡ false → disk.read s' path ≡ disk.read s path)
          → ((path : FilePath) → disk.read s' path ≡ overlay root changes path (disk.read s path))
          → Applied changes s r s'

    written-Applied :
        (changes : List ProposedChange) (s s' : disk.State) (root : FilePath)
        → AllFit sha256 contents changes
        → disk.make_temp s ≡ some (root, s')
        → Applied changes s
            (write_all sha256 contents disk root [] changes s').0
            (write_all sha256 contents disk root [] changes s').1
    written-Applied changes s s' root fit made = elim (write_all-result root [] changes s' fit) [
      | inl (result, content) ↦
          all_written root fit result (λ path. disk.make_temp-fresh s s' root path made)
            (λ path out.
              write_all-outside root [] changes s' path fit out
              ∙ disk.make_temp-read s s' root path made)
            (λ path.
              content path
              ∙ ap (overlay root changes path) (disk.make_temp-read s s' root path made))
      | inr (result, gone) ↦ undone fit result (λ path. elim (Bool-cases (is_under root path)) [
        | inl below ↦ gone path below ∙ sym (disk.make_temp-fresh s s' root path made below)
        | inr out ↦
            write_all-outside root [] changes s' path fit out
            ∙ disk.make_temp-read s s' root path made
      ])
    ]

    -- Local application of changes, on a disk that meets the laws of the file system: it is
    -- refused in the first pass and the disk is as before; or a directory or write error leaves
    -- every file reading as before; or every change had a safe path and was not stale, all are
    -- reported in order, the root was fresh, no file outside it has changed, and each file below
    -- it holds what the changes written in order give.
    pub apply_changes_locally-Applied :
        (changes : List ProposedChange) (s : disk.State)
        → Applied changes s
            (apply_changes_locally sha256 contents disk changes s).0
            (apply_changes_locally sha256 contents disk changes s).1
    unfolding apply_changes_locally after_checks in_temp
    apply_changes_locally-Applied changes s =
        elim (Option-cases (first_refusal sha256 contents changes)) [
          | inr (refusal, found) ↦
              rw (apply_changes_locally, found) (turned_down refusal found refl refl)
          | inl passed ↦ elim (Option-cases (disk.make_temp s)) [
            | inl failed ↦
                rw (apply_changes_locally, passed, failed)
                  (undone (first_refusal-AllFit changes passed) refl (λ path. refl))
            | inr ((root, s'), made) ↦
                rw (apply_changes_locally, passed, made)
                  (written-Applied changes s s' root (first_refusal-AllFit changes passed) made)
          ]
        ]
