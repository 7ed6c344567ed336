-- ===== src/Coding/Tests.antt =====
-- Paths that are accepted and refused.
use Prim.Native.String.{String}
use aisdlc.Prelude.{◌≡◌, refl}
use aisdlc.Text.{codes}
use aisdlc.Coding.PathSafety.{
  validate_path, safe, unsafe, absolute_path, path_traversal, credential_or_secret_file,
  unauthorized_configuration_file, invalid_path, PathSafetyResult,
}

abbrev check : String → PathSafetyResult
check path = validate_path (codes path)

paths :
    (check "src/index.ts" ≡ safe)
    × (check "../etc/passwd" ≡ unsafe path_traversal)
    × (check "a/../b" ≡ unsafe path_traversal)
    × (check "/etc/passwd" ≡ unsafe absolute_path)
    × (check "c:\\x" ≡ unsafe absolute_path)
    × (check "a b" ≡ unsafe invalid_path)
    × (check "config/.ENV.local" ≡ unsafe credential_or_secret_file)
    × (check "certs/server.pem" ≡ unsafe credential_or_secret_file)
    × (check ".git/config" ≡ unsafe credential_or_secret_file)
    × (check "id_rsa.pub" ≡ unsafe credential_or_secret_file)
    × (check "id_rsax" ≡ safe)
    × (check ".github/workflows/ci.yml" ≡ unsafe unauthorized_configuration_file)
    × (check "docker/Dockerfile.prod" ≡ unsafe unauthorized_configuration_file)
    × (check "docker-compose.dev.yaml" ≡ unsafe unauthorized_configuration_file)
unfolding validate_path
paths = (refl, refl, refl, refl, refl, refl, refl, refl, refl, refl, refl, refl, refl, refl)

-- A dot segment hides a refused path from the patterns.
dotted :
    (check ".github/./workflows/ci.yml" ≡ safe)
    × (check ".env/." ≡ safe)
    × (check ".github//workflows/ci.yml" ≡ safe)
unfolding validate_path
dotted = (refl, refl, refl)
