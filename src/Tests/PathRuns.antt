-- ===== src/Tests/PathRuns.antt =====
-- Paths: normalisation on both sides.
use remote_sandbox_cli.Base.{
  ℕ_discrete, Text-discrete, ◌≡◌, refl, codes, if◌then◌else◌, split, join, ◌↔◌,
}
use remote_sandbox_cli.Base.Result.{ok, err, value_error}
use remote_sandbox_cli.Paths.{
  normalize_relative_path, validate_relative_path, nt_isabs, push_component, collapse,
  initial_slashes, normpath,
}
use remote_sandbox_cli.Paths.Canonical.{IsCanonical}
use remote_sandbox_cli.Paths.Normal.{normalize-IsCanonical}
use remote_sandbox_cli.Paths.Idempotent.{normalize_again}
use remote_sandbox_cli.Paths.Agreement.{
  validate_iff_IsCanonical, normalize-validate, validate-normalize,
}

normal_path : normalize_relative_path (codes "a//b/../c/.") ≡ ok (codes "a/c")
unfolding normalize_relative_path normpath nt_isabs push_component collapse initial_slashes split
    join ℕ_discrete Text-discrete
normal_path = refl

hidden_drive : normalize_relative_path (codes "./C:/x") ≡ ok (codes "C:/x")
unfolding normalize_relative_path normpath nt_isabs push_component collapse initial_slashes split
    join ℕ_discrete Text-discrete
hidden_drive = refl

drive_path : validate_relative_path (codes "C:/x") ≡ ok (codes "C:/x")
unfolding validate_relative_path normalize_relative_path normpath nt_isabs push_component collapse
    initial_slashes split join ℕ_discrete Text-discrete
drive_path = refl

climbing_path : normalize_relative_path (codes "a\\..\\..") ≡ err value_error
unfolding normalize_relative_path normpath nt_isabs push_component collapse initial_slashes split
    join ℕ_discrete Text-discrete
climbing_path = refl

normalize-IsCanonical_example : IsCanonical (codes "a/c")
normalize-IsCanonical_example =
    normalize-IsCanonical (codes "a//b/../c/.") (codes "a/c") normal_path

-- A path that a first normalisation admits and a second one rejects.
normalize_again_example :
    normalize_relative_path (codes "C:/x")
    ≡ (if nt_isabs (codes "C:/x") then err value_error else ok (codes "C:/x"))
normalize_again_example = normalize_again (codes "./C:/x") (codes "C:/x") hidden_drive

validate_iff_IsCanonical_example :
    (validate_relative_path (codes "C:/x") ≡ ok (codes "C:/x")) ↔ IsCanonical (codes "C:/x")
validate_iff_IsCanonical_example = validate_iff_IsCanonical (codes "C:/x")

normalize-validate_example :
    (codes "C:/x" ≡ codes "C:/x")
    × (normalize_relative_path (codes "C:/x")
        ≡ (if nt_isabs (codes "C:/x") then err value_error else ok (codes "C:/x")))
normalize-validate_example = normalize-validate (codes "C:/x") (codes "C:/x") drive_path

validate-normalize_example : validate_relative_path (codes "a/c") ≡ ok (codes "a/c")
validate-normalize_example = validate-normalize (codes "a//b/../c/.") (codes "a/c") normal_path
