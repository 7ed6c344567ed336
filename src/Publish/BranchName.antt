-- ===== src/Publish/BranchName.antt =====
-- src/github-publish/branch-name.ts. `hex` is toHexString of an ObjectId.
use aisdlc.Prelude.{
  Bool, false, not, ◌&&◌, ◌||◌, ◌==◌, ◌++◌, every, any, if◌then◌else◌, List, ℕ, ◌∷◌, [],
}
use aisdlc.Text.{Text, same, codes, trim, is_empty, includes, starts_with, ends_with, split}
use aisdlc.Store.{ObjectId}
use aisdlc.Regex.{is_letter, is_digit}

pub data BranchNameResult : Type 0 where
  valid_branch invalid_ref_name protected_branch : BranchNameResult

unfoldable pub aisdlc_branch_prefix : Text
aisdlc_branch_prefix = codes "aisdlc/"

unfoldable pub generate_branch_name : (ObjectId → Text) → ObjectId → ObjectId → Text
unfolding aisdlc_branch_prefix
generate_branch_name hex run_id execution_id =
    aisdlc_branch_prefix ++ hex run_id ++ codes "/" ++ hex execution_id

-- `toLowerCase` is the argument `to_lower`.
abbrev pub always_protected_branch_names : List Text
always_protected_branch_names = codes "main" ∷ codes "master" ∷ []

abbrev is_alphanumeric : ℕ → Bool
is_alphanumeric c = is_letter c || is_digit c

unfoldable pub is_ref_unit : ℕ → Bool
is_ref_unit c = is_alphanumeric c || c == b'.' || c == b'_' || c == b'-'

-- `/^[A-Za-z0-9][A-Za-z0-9._-]*$/`
unfoldable pub is_safe_ref_segment : Text → Bool
unfolding every is_ref_unit
is_safe_ref_segment [] = false
is_safe_ref_segment (c ∷ s) = is_alphanumeric c && every is_ref_unit s

unfoldable pub validate_branch_name : (Text → Text) → Text → Text → BranchNameResult
unfolding same any trim is_empty includes starts_with ends_with every is_safe_ref_segment split
    aisdlc_branch_prefix
validate_branch_name to_lower branch base_branch =
    if same (to_lower branch) (to_lower base_branch)
    then protected_branch
    else if any (same (to_lower branch)) always_protected_branch_names
    then protected_branch
    else if is_empty (trim branch) || not (same branch (trim branch))
    then invalid_ref_name
    else if includes branch (0 ∷ [])
    then invalid_ref_name
    else if includes branch (codes "..")
    then invalid_ref_name
    else if starts_with branch (codes "/")
        || ends_with branch (codes "/")
        || includes branch (codes "//")
    then invalid_ref_name
    else if ends_with branch (codes ".lock")
    then invalid_ref_name
    else if includes branch (codes "\\")
    then invalid_ref_name
    else if not (every is_safe_ref_segment (split b'/' branch))
    then invalid_ref_name
    else if not (starts_with branch aisdlc_branch_prefix)
    then invalid_ref_name
    else valid_branch
