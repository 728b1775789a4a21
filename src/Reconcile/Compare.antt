-- ===== src/Reconcile/Compare.antt =====
-- The comparisons of two fingerprints of one path.
use remote_sandbox_cli.Base.{
  Bool, true, false, not, ◌&&◌, ◌||◌, none, if◌then◌else◌, ◌==◌, option_text_eq,
}
use remote_sandbox_cli.Manifest.{
  EntryKind, file, dir, symlink, special, EntryFingerprint, FingerprintState, entry, missing,
  kind_eq, option_int_eq, fingerprint_eq, state_eq,
}

abbrev pub is_missing : FingerprintState → Bool
is_missing (missing p) = true
is_missing (entry e) = false

abbrev pub has_hash : EntryFingerprint → Bool
has_hash e = not (e.content_hash == none)

-- The branches of `_fingerprint_content_equal` on the kind, once the kinds are the same.
abbrev pub same_content : EntryKind → EntryFingerprint → EntryFingerprint → Bool
same_content file a b = has_hash a && a.content_hash == b.content_hash
same_content symlink a b = a.link_target == b.link_target
same_content dir a b = true
same_content special a b = false

-- `_fingerprint_content_equal`
unfoldable pub content_equal : FingerprintState → FingerprintState → Bool
content_equal (missing p) (missing q) = true
content_equal (missing p) (entry b) = false
content_equal (entry a) (missing q) = false
content_equal (entry a) (entry b) = a.kind == b.kind && same_content a.kind a b

-- `_file_needs_hash`
unfoldable pub file_needs_hash : FingerprintState → Bool
file_needs_hash (missing p) = false
file_needs_hash (entry e) = e.kind == file && e.content_hash == none

-- `_quick_file_equal`
unfoldable pub quick_file_equal : FingerprintState → FingerprintState → Bool
quick_file_equal (entry a) (entry b) =
    a.kind == file
    && b.kind == file
    && a.size == b.size
    && a.mtime_ns == b.mtime_ns
    && a.mode == b.mode
quick_file_equal (entry a) (missing q) = false
quick_file_equal (missing p) b = false

-- Both are files, and the current one has not been hashed.
abbrev unhashed_file_pair : FingerprintState → FingerprintState → Bool
unhashed_file_pair (entry a) (entry b) = a.kind == file && b.kind == file && a.content_hash == none
unhashed_file_pair (entry a) (missing q) = false
unhashed_file_pair (missing p) b = false

-- `_fingerprint_matches_base`
unfoldable pub matches_base : FingerprintState → FingerprintState → Bool
matches_base current base =
    if unhashed_file_pair current base
    then quick_file_equal current base
    else content_equal current base

-- `_placeholder_changed`
unfoldable pub placeholder_changed : FingerprintState → FingerprintState → Bool
placeholder_changed (missing p) current = false
placeholder_changed (entry b) current = b.is_placeholder && not (current == entry b)

-- `_kind_diverged`
unfoldable pub kind_diverged : FingerprintState → FingerprintState → Bool
kind_diverged (entry a) (entry b) = not (a.kind == b.kind)
kind_diverged (entry a) (missing q) = false
kind_diverged (missing p) b = false

abbrev pub is_special : FingerprintState → Bool
is_special (entry e) = e.kind == special
is_special (missing p) = false

-- `_contains_special`
unfoldable pub contains_special : FingerprintState → FingerprintState → FingerprintState → Bool
contains_special a b c = is_special a || is_special b || is_special c

-- `_matching_base_after`
unfoldable pub matching_base_after : FingerprintState → FingerprintState → FingerprintState
matching_base_after (missing p) remote = missing p
matching_base_after (entry e) remote = if e.is_placeholder then entry e else remote
