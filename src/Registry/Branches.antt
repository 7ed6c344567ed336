-- ===== src/Registry/Branches.antt =====
-- src/repository-registry/repository.ts: the URLs and the branch names that an entry may hold, and
-- which branches an entry authorises. The parser of a repository URL is that of
-- src/github-app/access.ts: its pattern differs only in capturing the owner and the name, the name
-- without a `.git` at its end, so that one reading serves both.
use aisdlc.Prelude.{
  Bool, true, false, not, ◌&&◌, ◌||◌, ◌==◌, every, any, if◌then◌else◌, List, ℕ, ◌∷◌, [], Option,
  some, none,
}
use aisdlc.Text.{Text, same, codes, trim, is_empty, includes, starts_with, ends_with, split}
use aisdlc.Regex.{is_letter, is_digit}
use aisdlc.Effect.{Result, ok, err}
use aisdlc.Errors.{Error, registry_validation}

-- `[A-Za-z0-9_.-]`
unfoldable pub is_name_unit : ℕ → Bool
is_name_unit c = is_letter c || is_digit c || c == b'_' || c == b'.' || c == b'-'

-- What follows a prefix.
unfoldable pub after_prefix : Text → Text → Option Text
after_prefix [] s = some s
after_prefix (a ∷ p) [] = none
after_prefix (a ∷ p) (b ∷ s) = if a == b then after_prefix p s else none

-- The longest start of a text whose units are in the class, and the rest.
unfoldable pub span_name : Text → Text × Text
unfolding is_name_unit
span_name [] = ([], [])
span_name (c ∷ s) =
    let (name, rest) = span_name s in if is_name_unit c then (c ∷ name, rest) else ([], c ∷ s)

unfoldable pub dot_git : Text
dot_git = codes ".git"

-- `+?(?:\.git)?`: one `.git` at the end is no part of the name, unless the name is nothing else.
unfoldable pub without_git : Text → Text
unfolding same dot_git
without_git [] = []
without_git (c ∷ s) = if same s dot_git then c ∷ [] else c ∷ without_git s

unfoldable pub github_prefix : Text
github_prefix = codes "https://github.com/"

-- `\/?$`
unfoldable pub is_url_end : Text → Bool
is_url_end [] = true
is_url_end (c ∷ []) = c == b'/'
is_url_end (c ∷ d ∷ s) = false

unfoldable pub match_repo : Text → Text × Text → Option (Text × Text)
unfolding is_empty is_url_end without_git
match_repo owner (name, rest) =
    if is_empty name then none else if is_url_end rest then some (owner, without_git name) else none

unfoldable pub match_owner : Text × Text → Option (Text × Text)
unfolding is_empty span_name match_repo
match_owner (owner, []) = none
match_owner (owner, c ∷ rest) =
    if is_empty owner then none else if c == b'/' then match_repo owner (span_name rest) else none

abbrev pub after_github : Option Text → Option (Text × Text)
after_github none = none
after_github (some rest) = match_owner (span_name rest)

-- parseOwnerAndRepo; `none` where the pattern does not match.
unfoldable pub parse_owner_and_repo : Text → Option (Text × Text)
unfolding trim after_prefix span_name github_prefix match_owner
parse_owner_and_repo url = after_github (after_prefix github_prefix (trim url))

abbrev pub is_some : {A : Type 0} → Option A → Bool
is_some none = false
is_some (some a) = true

unfoldable pub is_valid_github_repository_url : Text → Bool
unfolding parse_owner_and_repo
is_valid_github_repository_url url = is_some (parse_owner_and_repo url)

-- `/^[A-Za-z0-9._-]+$/`
unfoldable pub is_branch_segment : Text → Bool
unfolding is_name_unit every is_empty
is_branch_segment s = not (is_empty s) && every is_name_unit s

unfoldable pub is_valid_branch_name : Text → Bool
unfolding is_empty trim same starts_with ends_with includes split every is_branch_segment
is_valid_branch_name value =
    if is_empty (trim value) || not (same value (trim value))
    then false
    else if starts_with value (codes "/")
        || ends_with value (codes "/")
        || includes value (codes "..")
    then false
    else every is_branch_segment (split b'/' value)

-- `s.slice(0, -1)`
unfoldable pub without_last : Text → Text
without_last [] = []
without_last (c ∷ []) = []
without_last (c ∷ d ∷ s) = c ∷ without_last (d ∷ s)

unfoldable pub is_valid_branch_pattern : Text → Bool
unfolding ends_with without_last is_empty is_valid_branch_name
is_valid_branch_pattern value =
    if not (ends_with value (codes "/*"))
    then false
    else let prefix = without_last (without_last value) in
      not (is_empty prefix) && is_valid_branch_name prefix

unfoldable pub is_valid_branch_name_or_pattern : Text → Bool
unfolding is_valid_branch_name is_valid_branch_pattern
is_valid_branch_name_or_pattern value = is_valid_branch_name value || is_valid_branch_pattern value

unfoldable pub allows : Text → Text → Bool
unfolding ends_with starts_with without_last same
allows branch allowed =
    if ends_with allowed (codes "/*")
    then starts_with branch (without_last allowed)
    else same branch allowed

unfoldable pub matches_allowed_branch : Text → List Text → Bool
unfolding any allows
matches_allowed_branch branch allowed_branches = any (allows branch) allowed_branches

pub record EntryShape : Type 0 where
  pub repository_url : Text
  pub default_branch : Text
  pub allowed_branches : List Text

abbrev is_none_left : List Text → Bool
is_none_left [] = true
is_none_left (b ∷ bs) = false

-- The field that the error names.
unfoldable pub validate_entry_shape : EntryShape → Result Error (Unit {0})
unfolding is_valid_github_repository_url every is_valid_branch_name_or_pattern is_valid_branch_name
    matches_allowed_branch
validate_entry_shape input =
    if not (is_valid_github_repository_url input.repository_url)
    then err (registry_validation (codes "repositoryUrl"))
    else if is_none_left input.allowed_branches
    then err (registry_validation (codes "allowedBranches"))
    else if not (every is_valid_branch_name_or_pattern input.allowed_branches)
    then err (registry_validation (codes "allowedBranches"))
    else if not (is_valid_branch_name input.default_branch)
    then err (registry_validation (codes "defaultBranch"))
    else if not (matches_allowed_branch input.default_branch input.allowed_branches)
    then err (registry_validation (codes "defaultBranch"))
    else ok tt
