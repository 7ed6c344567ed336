-- ===== src/Publish/Valid.antt =====
-- What a valid branch name of src/github-publish/branch-name.ts is.
use aisdlc.Prelude.{
  ◌≡◌, refl, arith, Bool, true, false, not, ◌||◌, ◌∷◌, [], any, every, if◌then◌else◌,
}
use aisdlc.Text.{Text, same, starts_with, ends_with, includes, split, trim, is_empty, codes}
use aisdlc.Publish.BranchName.{
  BranchNameResult, valid_branch, invalid_ref_name, protected_branch, validate_branch_name,
  always_protected_branch_names, aisdlc_branch_prefix, is_safe_ref_segment,
}

unless-protected :
    (b : Bool) (rest : BranchNameResult)
    → (if b then protected_branch else rest) ≡ valid_branch
    → (b ≡ false) × (rest ≡ valid_branch)
unless-protected true rest h = cc
unless-protected false rest h = (refl, h)

unless-invalid :
    (b : Bool) (rest : BranchNameResult)
    → (if b then invalid_ref_name else rest) ≡ valid_branch
    → (b ≡ false) × (rest ≡ valid_branch)
unless-invalid true rest h = cc
unless-invalid false rest h = (refl, h)

not-false : (b : Bool) → not b ≡ false → b ≡ true
not-false b h = ground arith

-- A valid name lies in the namespace of the service, and is neither the base branch nor protected.
pub validate_branch_name-inside :
    (to_lower : Text → Text) (branch base : Text)
    → validate_branch_name to_lower branch base ≡ valid_branch
    → (starts_with branch aisdlc_branch_prefix ≡ true)
      × (same (to_lower branch) (to_lower base) ≡ false)
      × (any (same (to_lower branch)) always_protected_branch_names ≡ false)
      × (every is_safe_ref_segment (split b'/' branch) ≡ true)
unfolding validate_branch_name
validate_branch_name-inside to_lower branch base h =
    let (base_free, h1) = unless-protected (same (to_lower branch) (to_lower base)) _ h in
    let (names_free, h2) =
      unless-protected (any (same (to_lower branch)) always_protected_branch_names) _ h1 in
    let (trimmed, h3) =
      unless-invalid (is_empty (trim branch) || not (same branch (trim branch))) _ h2 in
    let (no_nul, h4) = unless-invalid (includes branch (0 ∷ [])) _ h3 in
    let (no_dots, h5) = unless-invalid (includes branch (codes "..")) _ h4 in
    let (no_slashes, h6) =
      unless-invalid
        (starts_with branch (codes "/")
          || ends_with branch (codes "/")
          || includes branch (codes "//"))
        _ h5 in
    let (no_lock, h7) = unless-invalid (ends_with branch (codes ".lock")) _ h6 in
    let (no_backslash, h8) = unless-invalid (includes branch (codes "\\")) _ h7 in
    let (segments, h9) =
      unless-invalid (not (every is_safe_ref_segment (split b'/' branch))) _ h8 in
    let (namespace, h10) =
      unless-invalid (not (starts_with branch aisdlc_branch_prefix)) valid_branch h9 in
    (not-false _ namespace, base_free, names_free, not-false _ segments)
