-- ===== src/Coding/PathSafety.antt =====
-- src/coding-agent/path-safety.ts
use aisdlc.Prelude.{Bool, false, not, ◌||◌, ◌==◌, any, if◌then◌else◌, ℕ, List, ◌∷◌, []}
use aisdlc.Regex.{
  Regex, one, seq, either, line_start, line_end, word_boundary, plus, optional, literal_i, any_unit,
  is_letter, test, is_digit, lower,
}
use aisdlc.Text.{same, Text, trim, is_empty, includes, starts_with, has_segment, split, codes}
use aisdlc.Documents.{ProposedChangeOperation, RepositoryContextFile, modify, create}

pub data PathSafetyFailureReason : Type 0 where
  invalid_path absolute_path path_traversal : PathSafetyFailureReason
  credential_or_secret_file unauthorized_configuration_file : PathSafetyFailureReason

-- `{ ok: true }`, or the reason of the failure.
pub data PathSafetyResult : Type 0 where
  safe : PathSafetyResult
  unsafe : PathSafetyFailureReason → PathSafetyResult

-- `(^|\/)`
abbrev at_segment : Regex
at_segment = either line_start (literal_i "/")

-- `[A-Za-z0-9_-]`
abbrev is_name_unit : ℕ → Bool
is_name_unit c = is_letter c || is_digit c || c == b'_' || c == b'-'

abbrev pub sensitive_path_patterns : List Regex
sensitive_path_patterns =
    seq at_segment (
      seq (literal_i ".env")
        (seq (optional (seq (literal_i ".") (plus (one is_name_unit)))) line_end))
    ∷ seq at_segment (literal_i ".git/")
    ∷ seq (literal_i ".") (
        seq
          (either (literal_i "pem") (
            either (literal_i "key")
              (either (literal_i "p12") (either (literal_i "pfx") (literal_i "jks")))))
          line_end)
    ∷ seq at_segment (seq (literal_i "id_rsa") word_boundary)
    ∷ seq at_segment (seq (literal_i "id_ed25519") word_boundary)
    ∷ seq at_segment (literal_i ".ssh/")
    ∷ seq at_segment (literal_i ".aws/")
    ∷ []

abbrev dot_something : Regex
dot_something = optional (seq (literal_i ".") (plus (one any_unit)))

abbrev pub unauthorized_config_patterns : List Regex
unauthorized_config_patterns =
    seq at_segment (literal_i ".github/workflows/")
    ∷ seq at_segment (seq (literal_i "Dockerfile") (seq dot_something line_end))
    ∷ seq at_segment (
        seq (literal_i "docker-compose") (
          seq dot_something (
            seq (literal_i ".y") (seq (optional (literal_i "a")) (seq (literal_i "ml") line_end)))))
    ∷ []

-- `[A-Za-z0-9_.\-/]`
unfoldable pub is_path_unit : ℕ → Bool
is_path_unit c = is_letter c || is_digit c || c == b'_' || c == b'.' || c == b'-' || c == b'/'

abbrev pub safe_path_pattern : Regex
safe_path_pattern = seq line_start (seq (plus (one is_path_unit)) line_end)

-- `/^[A-Za-z]:/`
abbrev pub drive_pattern : Regex
drive_pattern = seq line_start (seq (one is_letter) (literal_i ":"))

unfoldable pub tests_any : List Regex → Text → Bool
unfolding test
tests_any [] path = false
tests_any (r ∷ rs) path = test r path || tests_any rs path

unfoldable pub validate_path : Text → PathSafetyResult
unfolding same trim is_empty includes starts_with test is_path_unit has_segment split tests_any
    lower
validate_path path =
    if is_empty (trim path) || not (same path (trim path))
    then unsafe invalid_path
    else if includes path (0 ∷ [])
    then unsafe invalid_path
    else if includes path (codes "://")
    then unsafe invalid_path
    else if starts_with path (codes "/") || test drive_pattern path
    then unsafe absolute_path
    else if includes path (codes "\\")
    then unsafe invalid_path
    else if has_segment (codes "..") (split b'/' path)
    then unsafe path_traversal
    else if not (test safe_path_pattern path)
    then unsafe invalid_path
    else if tests_any sensitive_path_patterns path
    then unsafe credential_or_secret_file
    else if tests_any unauthorized_config_patterns path
    then unsafe unauthorized_configuration_file
    else safe

pub data FileReferenceResult : Type 0 where
  valid_reference : FileReferenceResult
  unsafe_path : PathSafetyFailureReason → FileReferenceResult
  modify_target_not_in_context create_target_already_exists : FileReferenceResult

unfoldable pub in_context : List RepositoryContextFile → Text → Bool
unfolding any same
in_context files path = any (λ f. same f.path path) files

-- `operation` has one of its two values here: the callers have checked its shape.
unfoldable pub check_operation : ProposedChangeOperation → Bool → FileReferenceResult
check_operation modify existing = if existing then valid_reference else modify_target_not_in_context
check_operation create existing = if existing then create_target_already_exists else valid_reference

unfoldable pub validate_file_reference :
    Text → ProposedChangeOperation → List RepositoryContextFile → FileReferenceResult
unfolding validate_path in_context check_operation
validate_file_reference path operation files = elim (validate_path path) [
  | unsafe reason ↦ unsafe_path reason
  | safe ↦ check_operation operation (in_context files path)
]
