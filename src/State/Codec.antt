-- ===== src/State/Codec.antt =====
-- The JSON payloads of src/remote_sandbox/state.py, behind `json.dumps` and `json.loads`: an object
-- is the list of its fields. Its keys are sorted on the way out, and order does not matter on the
-- way in.
pub mod RoundTrip
use remote_sandbox_cli.Base.{
  ℕ, nat_eq, ◌≡◌, Bool, true, false, not, ◌&&◌, Option, none, some, List, [], ◌∷◌, if◌then◌else◌,
  Eq, ◌==◌, Text, Text-discrete, text_eq, codes,
}
use remote_sandbox_cli.Base.Dict.{Dict, lookup}
use remote_sandbox_cli.Base.Result.{Result, ok, err, value_error, ◌>>=◌, ◌>>◌, require}
use remote_sandbox_cli.Manifest.{
  EntryKind, file, dir, symlink, special, ℤ, pos, EntryFingerprint, FingerprintState, entry,
  missing, is_negative, entry_fingerprint, missing_entry,
}

pub data Json : Type 0 where
  null : Json
  boolean : Bool → Json
  number : ℤ → Json
  text : Text → Json

abbrev pub Payload : Type 0
Payload = Dict Text Json

abbrev pub nullable {ℓ} : {A : Type ℓ} → (A → Json) → Option A → Json
nullable f none = null
nullable f (some a) = f a

-- The values of the enumeration `EntryKind`.
abbrev pub kind_value : EntryKind → Text
kind_value file = codes "file"
kind_value dir = codes "dir"
kind_value symlink = codes "symlink"
kind_value special = codes "special"

-- `EntryKind(value)`, with the legacy name that `_missing_` admits.
unfoldable pub entry_kind : Text → Result EntryKind
entry_kind value =
    if value == codes "file"
    then ok file
    else if value == codes "dir"
    then ok dir
    else if value == codes "symlink"
    then ok symlink
    else if value == codes "special"
    then ok special
    else if value == codes "unsupported"
    then ok special
    else err value_error

-- `_encode_fingerprint`
unfoldable pub encode_fingerprint : EntryFingerprint → Payload
encode_fingerprint e =
    (codes "schema_version", number (pos 1))
    ∷ (codes "path", text e.path)
    ∷ (codes "kind", text (kind_value e.kind))
    ∷ (codes "size", nullable number e.size)
    ∷ (codes "mtime_ns", nullable number e.mtime_ns)
    ∷ (codes "mode", nullable number e.mode)
    ∷ (codes "link_target", nullable text e.link_target)
    ∷ (codes "content_hash", nullable text e.content_hash)
    ∷ (codes "is_placeholder", boolean e.is_placeholder)
    ∷ []

-- `_require_json_schema` on `payload.get("schema_version")`
abbrev check_schema : Option Json → Result (Unit {0})
check_schema (some (number (pos n))) = if n == 1 then ok tt else err value_error
check_schema _ = err value_error

-- `_required_string`
abbrev required_string : Option Json → Result Text
required_string (some (text s)) = ok s
required_string _ = err value_error

-- `_optional_json_int`
abbrev pub optional_int : Option Json → Result (Option ℤ)
optional_int none = ok none
optional_int (some null) = ok none
optional_int (some (number n)) = ok (some n)
optional_int (some (boolean b)) = err value_error
optional_int (some (text s)) = err value_error

-- `_optional_json_string`
abbrev pub optional_string : Option Json → Result (Option Text)
optional_string none = ok none
optional_string (some null) = ok none
optional_string (some (text s)) = ok (some s)
optional_string (some (boolean b)) = err value_error
optional_string (some (number n)) = err value_error

abbrev required_bool : Option Json → Result Bool
required_bool (some (boolean b)) = ok b
required_bool _ = err value_error

-- `_decode_fingerprint`
unfoldable pub decode_fingerprint : Payload → Text → Result EntryFingerprint
decode_fingerprint payload expected_path = do
  check_schema (lookup (codes "schema_version") payload)
  path ← required_string (lookup (codes "path") payload)
  require (path == expected_path) value_error
  kind_name ← required_string (lookup (codes "kind") payload)
  kind ← entry_kind kind_name
  size ← optional_int (lookup (codes "size") payload)
  mtime_ns ← optional_int (lookup (codes "mtime_ns") payload)
  mode ← optional_int (lookup (codes "mode") payload)
  link_target ← optional_string (lookup (codes "link_target") payload)
  content_hash ← optional_string (lookup (codes "content_hash") payload)
  is_placeholder ← required_bool (lookup (codes "is_placeholder") payload)
  require (not (is_negative size)) value_error
  entry_fingerprint (record {
    path = path;
    kind = kind;
    size = size;
    mtime_ns = mtime_ns;
    mode = mode;
    link_target = link_target;
    content_hash = content_hash;
    is_placeholder = is_placeholder;
  })

-- `_encode_expected_echo`
unfoldable pub encode_expected_echo : FingerprintState → Result Payload
encode_expected_echo (entry e) = ok (encode_fingerprint e)
encode_expected_echo (missing none) = err value_error
encode_expected_echo (missing (some path)) = ok (
    (codes "schema_version", number (pos 1))
    ∷ (codes "path", text path)
    ∷ (codes "missing", boolean true)
    ∷ [])

abbrev is_true : Option Json → Bool
is_true (some (boolean b)) = b
is_true _ = false

-- `_decode_expected_echo`
unfoldable pub decode_expected_echo : Payload → Text → Result FingerprintState
decode_expected_echo payload expected_path =
    if is_true (lookup (codes "missing") payload)
    then (do
      check_schema (lookup (codes "schema_version") payload)
      path ← required_string (lookup (codes "path") payload)
      require (path == expected_path) value_error
      missing_entry (some path))
    else (do e ← decode_fingerprint payload expected_path; ok (entry e))
