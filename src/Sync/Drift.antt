-- ===== src/Sync/Drift.antt =====
-- src/remote_sandbox/_engine_audit.py, and `quick_matches_base` of _engine_metadata.py: which paths have
-- drifted from the base without an event.
use remote_sandbox_cli.Base.{
  ℕ, ℕ_discrete, Bool, true, false, not, ◌&&◌, ◌||◌, ◌++◌, ◌-◌, ◌%◌, Option, none, some, List, [],
  ◌∷◌, if◌then◌else◌, Eq, ◌==◌, Text, text_eq, option_text_eq, nat_eq,
}
use remote_sandbox_cli.Base.Dict.{Dict, lookup, insert}
use remote_sandbox_cli.Base.Sets.{add}
use remote_sandbox_cli.Base.Result.{Result, ok, err, key_error}
use remote_sandbox_cli.Base.Result
use remote_sandbox_cli.Replica.{Side, local, remote}
use remote_sandbox_cli.Manifest.{
  EntryFingerprint, FingerprintState, EntryKind-discrete, kind_eq, option_int_eq, state_eq, entry,
  missing, file, symlink, dir, special, ℤ, pos, negsuc,
}
use remote_sandbox_cli.State.Tables.{AuditSignature}
use remote_sandbox_cli.Sync.Outside.{Observations}

unfoldable pub option_signature_discrete : Discrete (Option AuditSignature)
option_signature_discrete = hlevel (EntryKind-discrete, ℕ_discrete)

instance abbrev pub option_signature_eq : Eq (Option AuditSignature)
option_signature_eq = record { dec = option_signature_discrete }

-- `stat.S_IMODE`: the low twelve bits, of a negative number in two's complement.
abbrev pub imode : ℤ → ℕ
imode (pos n) = n % 4096
imode (negsuc n) = 4095 - n % 4096

abbrev pub or_zero : Option ℤ → ℤ
or_zero none = pos 0
or_zero (some mode) = mode

abbrev pub same_kind_matches : EntryFingerprint → EntryFingerprint → Bool
same_kind_matches c b = elim c.kind [
  | file ↦ c.size == b.size && c.mtime_ns == b.mtime_ns && c.mode == b.mode
  | symlink ↦ c.link_target == b.link_target
  | dir ↦ imode (or_zero c.mode) == imode (or_zero b.mode)
  | special ↦ entry c == entry b
]

-- `quick_matches_base`
unfoldable pub quick_matches_base : FingerprintState → Option EntryFingerprint → Bool
quick_matches_base (missing p) none = true
quick_matches_base (entry c) none = false
quick_matches_base (missing p) (some b) = false
quick_matches_base (entry c) (some b) =
    if not (c.kind == b.kind)
    then false
    else if b.is_placeholder
    then entry c == entry b
    else same_kind_matches c b

abbrev pub has_hash : Option Text → Bool
has_hash none = false
has_hash (some hash) = true

-- `_strong_matches_base`
unfoldable pub strong_matches_base : FingerprintState → Option EntryFingerprint → Bool
strong_matches_base (entry c) (some b) =
    c.kind == file
    && b.kind == file
    && has_hash c.content_hash
    && has_hash b.content_hash
    && c.content_hash == b.content_hash
strong_matches_base current base = false

abbrev pub is_file : FingerprintState → Bool
is_file (entry c) = c.kind == file
is_file (missing p) = false

-- `_side_quick_matches`
unfoldable pub side_quick_matches : Side → FingerprintState → Option EntryFingerprint → Bool
side_quick_matches side current none = quick_matches_base current none
side_quick_matches local current (some b) =
    if b.is_placeholder then current == entry b else quick_matches_base current (some b)
side_quick_matches remote current (some b) =
    if b.is_placeholder then is_file current else quick_matches_base current (some b)

abbrev pub same_hash : FingerprintState → EntryFingerprint → Bool
same_hash (entry c) b =
    c.kind == file && has_hash c.content_hash && c.content_hash == b.content_hash
same_hash (missing p) b = false

abbrev pub placeholder_matches : Side → FingerprintState → EntryFingerprint → Bool
placeholder_matches local current b = current == entry b
placeholder_matches remote current b = same_hash current b

-- `_observation_matches_base`
unfoldable pub observation_matches_base : Side → FingerprintState → Option EntryFingerprint → Bool
observation_matches_base side current none = quick_matches_base current none
observation_matches_base side current (some b) =
    if b.is_placeholder
    then placeholder_matches side current b
    else if b.kind == file
    then strong_matches_base current (some b)
    else quick_matches_base current (some b)

abbrev pub Signatures : Type 0
Signatures = Dict Text (Option AuditSignature)

-- The local variables of `record_drift`.
pub record Drift : Type 0 where
  pub dirty : List Text
  pub ambiguous_local : List Text
  pub ambiguous_remote : List Text
  pub local_updates : Signatures
  pub remote_updates : Signatures

abbrev pub no_drift : Drift
no_drift = record {
  dirty = [];
  ambiguous_local = [];
  ambiguous_remote = [];
  local_updates = [];
  remote_updates = [];
}

-- What `record_drift` has read.
pub record Readings : Type 0 where
  pub base : Dict Text EntryFingerprint
  pub local_entries : Dict Text EntryFingerprint
  pub remote_entries : Dict Text EntryFingerprint
  pub local_signatures : Dict Text AuditSignature
  pub remote_signatures : Dict Text AuditSignature
  pub stored_local : Dict Text AuditSignature
  pub stored_remote : Dict Text AuditSignature

abbrev pub or_missing : Text → Option EntryFingerprint → FingerprintState
or_missing path none = missing (some path)
or_missing path (some e) = entry e

abbrev pub dirty_if : Bool → Text → Drift → Drift
dirty_if false path d = d
dirty_if true path d = record d { dirty = add path d.dirty }

abbrev pub update_local_if : Bool → Text → Option AuditSignature → Drift → Drift
update_local_if false path signature d = d
update_local_if true path signature d = record d {
  local_updates = insert path signature d.local_updates;
}

abbrev pub update_remote_if : Bool → Text → Option AuditSignature → Drift → Drift
update_remote_if false path signature d = d
update_remote_if true path signature d = record d {
  remote_updates = insert path signature d.remote_updates;
}

-- Where the signature is not the stored one, the digest decides later.
abbrev pub compare_local_if :
    Bool → Text → Option AuditSignature → Option AuditSignature → Drift → Drift
compare_local_if false path stored signature d = d
compare_local_if true path stored signature d =
    if stored == signature
    then record d { local_updates = insert path signature d.local_updates }
    else record d { ambiguous_local = d.ambiguous_local ++ (path ∷ []) }

abbrev pub compare_remote_if :
    Bool → Text → Option AuditSignature → Option AuditSignature → Drift → Drift
compare_remote_if false path stored signature d = d
compare_remote_if true path stored signature d =
    if stored == signature
    then record d { remote_updates = insert path signature d.remote_updates }
    else record d { ambiguous_remote = d.ambiguous_remote ++ (path ∷ []) }

module _ (r : Readings) where
  -- A base that is no file: the quick tests decide.
  abbrev pub examine_plain : Text → Bool → Bool → Drift → Drift
  examine_plain path local_quick remote_quick d =
      update_remote_if remote_quick path (lookup path r.remote_signatures)
        (update_local_if local_quick path (lookup path r.local_signatures) d)

  abbrev pub examine_file : Text → Bool → Bool → Bool → Drift → Drift
  examine_file path is_placeholder local_quick remote_quick d =
      compare_remote_if remote_quick path (lookup path r.stored_remote)
        (lookup path r.remote_signatures)
        (if is_placeholder
          then update_local_if local_quick path (lookup path r.local_signatures) d
          else compare_local_if local_quick path (lookup path r.stored_local)
              (lookup path r.local_signatures) d)

  abbrev pub examine_base : Text → Option EntryFingerprint → Bool → Bool → Drift → Drift
  examine_base path none local_quick remote_quick d = examine_plain path local_quick remote_quick d
  examine_base path (some b) local_quick remote_quick d =
      if b.kind == file
      then examine_file path b.is_placeholder local_quick remote_quick d
      else examine_plain path local_quick remote_quick d

  abbrev pub local_matches : Text → Bool
  local_matches path =
      side_quick_matches local (or_missing path (lookup path r.local_entries)) (lookup path r.base)

  abbrev pub remote_matches : Text → Bool
  remote_matches path =
      side_quick_matches remote (or_missing path (lookup path r.remote_entries))
        (lookup path r.base)

  -- One round of the loop, for a path that is not ignored.
  abbrev pub examine : Text → Drift → Drift
  examine path d =
      examine_base path (lookup path r.base) (local_matches path) (remote_matches path)
        (dirty_if (not (local_matches path) || not (remote_matches path)) path d)

  abbrev pub examine_unless : Bool → Text → Drift → Drift
  examine_unless true path d = d
  examine_unless false path d = examine path d

  -- The loop over all paths.
  unfoldable pub examine_all : (Text → Result Bool) → List Text → Drift → Result Drift
  examine_all is_ignored [] d = ok d
  examine_all is_ignored (path ∷ paths) d =
      Result.◌>>=◌ (is_ignored path)
        λ ignored. examine_all is_ignored paths (examine_unless ignored path d)

abbrev pub or_key_error : {A : Type 0} → Option A → Result A
or_key_error none = err key_error
or_key_error (some a) = ok a

-- What the digest says of one ambiguous path.
abbrev pub settle :
    Bool → Text → Option AuditSignature → List Text × Signatures → List Text × Signatures
settle true path signature (dirty, updates) = (dirty, insert path signature updates)
settle false path signature (dirty, updates) = (add path dirty, updates)

-- The loops over the ambiguous paths of one side. A signature is read only where the digest agrees.
unfoldable pub settle_all :
    Dict Text EntryFingerprint
    → Observations
    → List Text
    → List Text × Signatures
    → Result (List Text × Signatures)
settle_all base o [] found = ok found
settle_all base o (path ∷ paths) found = Result.◌>>=◌ (or_key_error (lookup path o.0)) λ state.
    let agrees = strong_matches_base state (lookup path base) in
    Result.◌>>=◌ (if agrees then or_key_error (lookup path o.1) else ok none)
      λ signature. settle_all base o paths (settle agrees path signature found)

-- Both loops over ambiguous paths: the dirty paths, and the updates of each side.
unfoldable pub settle_drift :
    Dict Text EntryFingerprint
    → Observations
    → Observations
    → Drift
    → Result (List Text × Signatures × Signatures)
settle_drift base l r d =
    Result.◌>>=◌ (settle_all base l d.ambiguous_local (d.dirty, d.local_updates))
      λ (dirty, local_updates).
        Result.◌>>=◌ (settle_all base r d.ambiguous_remote (dirty, d.remote_updates))
          λ (dirty, remote_updates). ok (dirty, local_updates, remote_updates)

-- One round of the loop of `refresh` for one side.
abbrev pub note :
    Side
    → Dict Text EntryFingerprint
    → Observations
    → Text
    → List Text × Signatures
    → Result (List Text × Signatures)
note side base o path found = Result.◌>>=◌ (or_key_error (lookup path o.0)) λ state.
    let agrees = observation_matches_base side state (lookup path base) in
    Result.◌>>=◌ (if agrees then or_key_error (lookup path o.1) else ok none)
      λ signature. ok (settle agrees path signature found)

-- The loop of `refresh`: the dirty paths, and the updates of each side.
unfoldable pub note_all :
    Dict Text EntryFingerprint
    → Observations
    → Observations
    → List Text
    → List Text × Signatures × Signatures
    → Result (List Text × Signatures × Signatures)
note_all base l r [] found = ok found
note_all base l r (path ∷ paths) (dirty, local_updates, remote_updates) =
    Result.◌>>=◌ (note local base l path (dirty, local_updates)) λ (dirty, local_updates).
      Result.◌>>=◌ (note remote base r path (dirty, remote_updates))
        λ (dirty, remote_updates). note_all base l r paths (dirty, local_updates, remote_updates)
