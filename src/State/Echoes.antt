-- ===== src/State/Echoes.antt =====
-- Expected echoes: what a side will report because the engine has just written it there.
use remote_sandbox_cli.Base.{ℕ, Bool, true, false, Option, none, some, if◌then◌else◌, ◌==◌, Text}
use remote_sandbox_cli.Base.Dict.{Dict, lookup, insert, erase}
use remote_sandbox_cli.Base.Result.{Result, ok, err, value_error, require}
use remote_sandbox_cli.Base.Result
use remote_sandbox_cli.Paths.{normalize_relative_path}
use remote_sandbox_cli.Replica.{Side}
use remote_sandbox_cli.Journal.{EventKey, event_key_eq}
use remote_sandbox_cli.Manifest.{FingerprintState, state_path, state_eq}
use remote_sandbox_cli.Sqlite.{pure, lift, query, execute, transaction, ◌>>=◌, ◌>>◌}
use remote_sandbox_cli.State.Codec.{Payload, encode_expected_echo, decode_expected_echo}
use remote_sandbox_cli.State.Tables.{Store}

abbrev pub or_value_error : Option Text → Result Text
or_value_error none = err value_error
or_value_error (some path) = ok path

-- `if fingerprint.path is None: raise`
abbrev pub required_path : FingerprintState → Result Text
required_path s = or_value_error (state_path s)

abbrev pub set_echoes :
    (Dict EventKey (Payload × ℕ) → Dict EventKey (Payload × ℕ)) → Store (Unit {0})
set_echoes f = execute (λ db. record db { expected_echoes = f db.expected_echoes })

unfoldable pub set_expected_echo : ℕ → Side → FingerprintState → Store (Unit {0})
set_expected_echo now side s = do
  path ← lift (required_path s)
  transaction
      (do payload ← lift (encode_expected_echo s); set_echoes (insert (side, path) (payload, now)))

abbrev pub decode_echo : Text → Option (Payload × ℕ) → Result (Option FingerprintState)
decode_echo path none = ok none
decode_echo path (some (payload, _)) =
    Result.◌>>=◌ (decode_expected_echo payload path) (λ s. ok (some s))

unfoldable pub get_expected_echo : Side → Text → Store (Option FingerprintState)
get_expected_echo side p = do
  path ← lift (normalize_relative_path p)
  row ← query (λ db. lookup (side, path) db.expected_echoes)
  lift (decode_echo path row)

-- The two early returns of `consume_expected_echo`, and its deletion.
abbrev pub consume_if : Side → Text → FingerprintState → Option FingerprintState → Store Bool
consume_if side path s none = pure false
consume_if side path s (some expected) =
    if expected == s then (do set_echoes (erase (side, path)); pure true) else pure false

unfoldable pub consume_expected_echo : Side → FingerprintState → Store Bool
consume_expected_echo side s = do
  path ← lift (required_path s)
  transaction (do
    row ← query (λ db. lookup (side, path) db.expected_echoes)
    expected ← lift (decode_echo path row)
    consume_if side path s expected)
