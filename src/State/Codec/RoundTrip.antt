-- ===== src/State/Codec/RoundTrip.antt =====
-- The payloads of src/remote_sandbox/state.py, written and read back.
use mathlib.Core.Option.{some-injective}
use remote_sandbox_cli.Base.{
  ℕ, nat_eq, ◌≡◌, refl, true, not, Option, none, some, [], ◌∷◌, ◌==◌, Text, Text-discrete, text_eq,
  codes, eq_refl, Bool-cases, inl, inr, ℕ_discrete,
}
use remote_sandbox_cli.Base.Dict.{lookup}
use remote_sandbox_cli.Base.Result.{Result, ok, value_error, ◌>>=◌, ◌>>◌, require, ok_injective}
use remote_sandbox_cli.Manifest.{
  EntryKind, file, dir, symlink, special, ℤ, pos, EntryFingerprint, FingerprintState, entry,
  missing, is_negative, entry_fingerprint, missing_entry, state_path,
}
use remote_sandbox_cli.State.Codec.{
  Payload, kind_value, entry_kind, encode_fingerprint, decode_fingerprint, encode_expected_echo,
  decode_expected_echo, optional_int, optional_string, nullable, number, text, boolean,
}

entry_kind-kind_value : (k : EntryKind) → entry_kind (kind_value k) ≡ ok k
unfolding entry_kind Text-discrete ℕ_discrete
entry_kind-kind_value file = refl
entry_kind-kind_value dir = refl
entry_kind-kind_value symlink = refl
entry_kind-kind_value special = refl

optional_int-nullable : (o : Option ℤ) → optional_int (some (nullable number o)) ≡ ok o
optional_int-nullable none = refl
optional_int-nullable (some n) = refl

optional_string-nullable : (o : Option Text) → optional_string (some (nullable text o)) ≡ ok o
optional_string-nullable none = refl
optional_string-nullable (some n) = refl

-- The fields of a written payload.
record Fields (e : EntryFingerprint) : Type 0 where
  schema_version_field :
      lookup (codes "schema_version") (encode_fingerprint e) ≡ some (number (pos 1))
  path_field : lookup (codes "path") (encode_fingerprint e) ≡ some (text e.path)
  kind_field : lookup (codes "kind") (encode_fingerprint e) ≡ some (text (kind_value e.kind))
  size_field : lookup (codes "size") (encode_fingerprint e) ≡ some (nullable number e.size)
  mtime_ns_field :
      lookup (codes "mtime_ns") (encode_fingerprint e) ≡ some (nullable number e.mtime_ns)
  mode_field : lookup (codes "mode") (encode_fingerprint e) ≡ some (nullable number e.mode)
  link_target_field :
      lookup (codes "link_target") (encode_fingerprint e) ≡ some (nullable text e.link_target)
  content_hash_field :
      lookup (codes "content_hash") (encode_fingerprint e) ≡ some (nullable text e.content_hash)
  is_placeholder_field :
      lookup (codes "is_placeholder") (encode_fingerprint e) ≡ some (boolean e.is_placeholder)
  no_missing : lookup (codes "missing") (encode_fingerprint e) ≡ none

written : (e : EntryFingerprint) → Fields e
unfolding encode_fingerprint lookup Text-discrete ℕ_discrete
written e = record {
  schema_version_field = refl;
  path_field = refl;
  kind_field = refl;
  size_field = refl;
  mtime_ns_field = refl;
  mode_field = refl;
  link_target_field = refl;
  content_hash_field = refl;
  is_placeholder_field = refl;
  no_missing = refl;
}

-- The sizes that the decoder refuses are those that the constructor refuses.
checked_twice :
    (e : EntryFingerprint)
    → (require (not (is_negative e.size)) value_error >> entry_fingerprint e) ≡ entry_fingerprint e
unfolding entry_fingerprint
checked_twice e = elim (Bool-cases (is_negative e.size)) [ inl h ↦ rw h | inr h ↦ rw h ]

-- Decoding a fingerprint's payload under its own path gives what its constructor makes of the same
-- fields: the fingerprint itself if it was valid, and the same error if not.
pub decode-encode :
    (e : EntryFingerprint) → decode_fingerprint (encode_fingerprint e) e.path ≡ entry_fingerprint e
unfolding decode_fingerprint
decode-encode e =
    let w = written e in
    rw
      (
        w.schema_version_field,
        w.path_field,
        eq_refl e.path,
        w.kind_field,
        entry_kind-kind_value e.kind,
        w.size_field,
        optional_int-nullable e.size,
        w.mtime_ns_field,
        optional_int-nullable e.mtime_ns,
        w.mode_field,
        optional_int-nullable e.mode,
        w.link_target_field,
        optional_string-nullable e.link_target,
        w.content_hash_field,
        optional_string-nullable e.content_hash,
        w.is_placeholder_field,
      )
      (rw (eq_refl {A = ℕ} 1) (checked_twice e))

-- What the constructors make of the fields of a state.
abbrev pub rebuilt : FingerprintState → Result FingerprintState
rebuilt (entry e) = do e' ← entry_fingerprint e; ok (entry e')
rebuilt (missing p) = missing_entry p

missing_fields :
    (path : Text)
    → decode_expected_echo
        ((codes "schema_version", number (pos 1))
          ∷ (codes "path", text path)
          ∷ (codes "missing", boolean true)
          ∷ [])
        path
      ≡ (require (path == path) value_error >> missing_entry (some path))
unfolding decode_expected_echo lookup Text-discrete ℕ_discrete
missing_fields path = refl

entry_echo :
    (e : EntryFingerprint) → decode_expected_echo (encode_fingerprint e) e.path ≡ rebuilt (entry e)
unfolding decode_expected_echo
entry_echo e = rw ((written e).no_missing, decode-encode e)

-- An expected echo, of an entry or of its absence, is read back as its constructors rebuild it.
pub decode_expected_echo-encode :
    (s : FingerprintState) (path : Text) (payload : Payload)
    → state_path s ≡ some path
    → encode_expected_echo s ≡ ok payload
    → decode_expected_echo payload path ≡ rebuilt s
unfolding encode_expected_echo
decode_expected_echo-encode (entry e) path payload hp h =
    rw (← ok_injective (encode_fingerprint e) payload h, ← some-injective e.path path hp)
      (entry_echo e)
decode_expected_echo-encode (missing none) path payload hp h = cc
decode_expected_echo-encode (missing (some q)) path payload hp h =
    rw (← ok_injective _ payload h, ← some-injective q path hp, missing_fields q, eq_refl q) refl
