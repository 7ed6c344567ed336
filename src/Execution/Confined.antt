-- ===== src/Execution/Confined.antt =====
-- resolveUnderRoot of src/change-execution/local-apply.ts on the paths that validatePath of
-- src/coding-agent/path-safety.ts accepts.
use mathlib.Core.List.{reverse, reverse-append, reverse-reverse}
use aisdlc.Prelude.{
  ◌≡◌, refl, arith, ap, ◌∙◌, true, false, ◌||◌, List, [], ◌∷◌, ◌++◌, Bool-cases, inl, inr,
}
use aisdlc.Text.{Text, same, codes, split, has_segment}
use aisdlc.Text.Laws.{same_refl}
use aisdlc.Coding.PathSafety.{validate_path, safe}
use aisdlc.Execution.Disk.{FilePath, is_under}
use aisdlc.Execution.LocalApply.{push_segment, push_all, resolve_under_root}

pub is_under-append : (root rest : FilePath) → is_under root (root ++ rest) ≡ true
unfolding is_under
is_under-append [] rest = refl
is_under-append (s ∷ root) rest = ground (arith, is_under-append root rest, same_refl s)

-- Without `..`, nothing is taken off the stack.
push_segment-grows :
    (added stack : FilePath) (segment : Text)
    → same segment (codes "..") ≡ false
    → (more : FilePath) × (push_segment (added ++ stack) segment ≡ more ++ stack)
unfolding push_segment
push_segment-grows added stack segment down =
    elim (Bool-cases (same segment [] || same segment (codes "."))) [
      | inl dropped ↦ (added, rw dropped refl)
      | inr kept ↦ (segment ∷ added, rw (kept, down) refl)
    ]

push_all-grows :
    (segments : List Text) (added stack : FilePath)
    → has_segment (codes "..") segments ≡ false
    → (more : FilePath) × (push_all (added ++ stack) segments ≡ more ++ stack)
unfolding push_all has_segment
push_all-grows [] added stack down = (added, refl)
push_all-grows (segment ∷ segments) added stack down =
    let here : same segment (codes "..") ≡ false = ground arith in
    let later : has_segment (codes "..") segments ≡ false = ground arith in
    let (more, e) = push_segment-grows added stack segment here in
    let (all, e') = push_all-grows segments more stack later in
    (all, ap (λ s. push_all s segments) e ∙ e')

validate_path-down :
    (path : Text) → validate_path path ≡ safe → has_segment (codes "..") (split b'/' path) ≡ false
unfolding validate_path
validate_path-down path h = ground arith

-- A path that the path safety accepts is resolved, under any root, to a path that is the root or
-- lies below it.
pub validate_path-is_under :
    (root : FilePath) (path : Text)
    → validate_path path ≡ safe
    → is_under root (resolve_under_root root path) ≡ true
unfolding resolve_under_root
validate_path-is_under root path h =
    let (more, e) =
      push_all-grows (split b'/' path) [] (reverse root) (validate_path-down path h) in
    let shape : resolve_under_root root path ≡ root ++ reverse more =
      ap reverse e
      ∙ reverse-append more (reverse root)
      ∙ ap (λ r. r ++ reverse more) (reverse-reverse root) in
    rw shape (is_under-append root (reverse more))
