-- ===== src/Manifest.antt =====
-- The fingerprints of src/remote_sandbox/manifest.py: what one side holds at a path, or that it
-- holds nothing there. Python's type checks on the fields are the types of the fields here; a
-- SHA-256 digest is a text like any other.
use remote_sandbox_cli.Base.{ℕ, Bool, true, false, not, Option, none, some, Eq, Text, ℕ_discrete}
use remote_sandbox_cli.Base.Result.{Result, ok, value_error, ◌>>=◌, ◌>>◌, require}
use remote_sandbox_cli.Paths.{normalize_relative_path}

pub data EntryKind : Type 0 where
  file dir symlink special : EntryKind

-- Python's `int`: `negsuc n` is -(n + 1). The fields below are compared and never computed with.
pub data ℤ : Type 0 where
  pos : ℕ → ℤ
  negsuc : ℕ → ℤ

pub record EntryFingerprint : Type 0 where
  pub path : Text
  pub kind : EntryKind
  pub size : Option ℤ
  pub mtime_ns : Option ℤ
  pub mode : Option ℤ
  pub link_target : Option Text
  pub content_hash : Option Text
  pub is_placeholder : Bool

pub data FingerprintState : Type 0 where
  entry : EntryFingerprint → FingerprintState
  missing : Option Text → FingerprintState

unfoldable pub EntryKind-discrete : Discrete EntryKind
EntryKind-discrete = hlevel

unfoldable pub option_int_discrete : Discrete (Option ℤ)
option_int_discrete = hlevel ℕ_discrete

unfoldable pub EntryFingerprint-discrete : Discrete EntryFingerprint
EntryFingerprint-discrete = hlevel (ℕ_discrete)

unfoldable pub FingerprintState-discrete : Discrete FingerprintState
FingerprintState-discrete = hlevel (ℕ_discrete)

instance abbrev pub kind_eq : Eq EntryKind
kind_eq = record { dec = EntryKind-discrete }

instance abbrev pub option_int_eq : Eq (Option ℤ)
option_int_eq = record { dec = option_int_discrete }

instance abbrev pub fingerprint_eq : Eq EntryFingerprint
fingerprint_eq = record { dec = EntryFingerprint-discrete }

instance abbrev pub state_eq : Eq FingerprintState
state_eq = record { dec = FingerprintState-discrete }

abbrev pub is_negative : Option ℤ → Bool
is_negative (some (negsuc n)) = true
is_negative _ = false

-- `EntryFingerprint(…)`: the constructor with its `__post_init__`.
unfoldable pub entry_fingerprint : EntryFingerprint → Result EntryFingerprint
entry_fingerprint e = do
  require (not (is_negative e.size)) value_error
  path ← normalize_relative_path e.path
  ok (record e { path = path })

-- `MissingEntry(path)`
unfoldable pub missing_entry : Option Text → Result FingerprintState
missing_entry none = ok (missing none)
missing_entry (some p) = do path ← normalize_relative_path p; ok (missing (some path))

abbrev pub state_path : FingerprintState → Option Text
state_path (entry e) = some e.path
state_path (missing p) = p

-- `content_identity`
pub data ContentIdentity : Type 0 where
  link : Option Text → ContentIdentity
  content : Option Text → ContentIdentity
  other : EntryKind → ContentIdentity

unfoldable pub content_identity : EntryFingerprint → ContentIdentity
content_identity e = elim e.kind [
  | symlink ↦ link e.link_target
  | file ↦ content e.content_hash
  | dir ↦ other dir
  | special ↦ other special
]
