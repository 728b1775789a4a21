-- ===== src/Tests/EngineRuns.antt =====
-- Planning again: a changed file whose digest is asked for.
use remote_sandbox_cli.Base.{
  ℕ_discrete, Text-discrete, option_text_discrete, option_nat_discrete, ◌≡◌, refl, none, some, List,
  [], ◌∷◌, All, Text, split, join,
}
use remote_sandbox_cli.Base.Dict.{lookup, insert}
use remote_sandbox_cli.Base.Result.{Result, ok}
use remote_sandbox_cli.Paths.{
  normalize_relative_path, nt_isabs, push_component, collapse, initial_slashes, normpath,
}
use remote_sandbox_cli.Replica.{local, Side-discrete}
use remote_sandbox_cli.Manifest.{
  missing_entry, EntryFingerprint, entry, missing, pos, EntryKind-discrete, option_int_discrete,
  EntryFingerprint-discrete, content_identity,
}
use remote_sandbox_cli.Reconcile.{SyncPlan, delete_local, sync_action, hash_request}
use remote_sandbox_cli.Reconcile.Compare.{
  content_equal, file_needs_hash, quick_file_equal, matches_base, placeholder_changed,
  kind_diverged, contains_special, matching_base_after,
}
use remote_sandbox_cli.Reconcile.Plan.{
  Entries, plan_incremental_path, missing_hash_requests, plan_states, fingerprint_at, insert_sorted,
  normalized_dirty_paths, plan_path, plan_paths, build_incremental_plan,
}
use remote_sandbox_cli.Engine.{
  satisfy_hash_requests, strengthen_deletion_targets, regular_file_without_hash,
}
use remote_sandbox_cli.Engine.Completed.{LocalRead, RemoteRead}
use remote_sandbox_cli.Engine.Replanned.{
  Fits, satisfy_hash_requests-Fits, strengthen_deletion_targets-Fits,
}
use remote_sandbox_cli.Tests.Inputs.{a_txt, old_file, new_file}
use remote_sandbox_cli.Tests.PlanRuns.{nothing_ignored, old_entries, new_entries, push_plan}

-- The local file has been touched, and its digest is not known.
abbrev touched_entries : Entries
touched_entries =
    (a_txt, entry (record new_file { mtime_ns = some (pos 8); content_hash = none })) ∷ []

abbrev asking_plan : SyncPlan
asking_plan = record {
  hash_requests = record { side = local; path = a_txt } ∷ [];
  actions = [];
  conflicts = [];
  warnings = [];
}

abbrev read_local : Entries → List Text → Result Entries
read_local base paths = ok new_entries

abbrev read_remote : List Text → Result Entries
read_remote paths = ok []

asks :
    build_incremental_plan nothing_ignored old_entries touched_entries old_entries (a_txt ∷ [])
    ≡ ok asking_plan
unfolding build_incremental_plan plan_paths plan_path normalized_dirty_paths insert_sorted
    fingerprint_at missing_entry plan_states missing_hash_requests hash_request
    plan_incremental_path content_equal file_needs_hash quick_file_equal matches_base
    placeholder_changed kind_diverged contains_special matching_base_after sync_action lookup
    normalize_relative_path normpath nt_isabs push_component collapse initial_slashes split join
    ℕ_discrete Text-discrete option_text_discrete option_nat_discrete EntryKind-discrete
    option_int_discrete EntryFingerprint-discrete content_identity
asks = refl

answered :
    satisfy_hash_requests nothing_ignored read_local read_remote asking_plan old_entries
      touched_entries old_entries
      (a_txt ∷ [])
    ≡ ok (push_plan, new_entries, old_entries)
unfolding satisfy_hash_requests insert Side-discrete build_incremental_plan plan_paths plan_path
    normalized_dirty_paths insert_sorted fingerprint_at missing_entry plan_states
    missing_hash_requests hash_request plan_incremental_path content_equal file_needs_hash
    quick_file_equal matches_base placeholder_changed kind_diverged contains_special
    matching_base_after sync_action lookup normalize_relative_path normpath nt_isabs push_component
    collapse initial_slashes split join ℕ_discrete Text-discrete option_text_discrete
    option_nat_discrete EntryKind-discrete option_int_discrete EntryFingerprint-discrete
    content_identity
answered = refl

satisfy_hash_requests-Fits_example :
    (push_plan.hash_requests ≡ [])
    × Fits nothing_ignored read_local read_remote old_entries
        (a_txt ∷ [])
        (push_plan, new_entries, old_entries)
satisfy_hash_requests-Fits_example =
    satisfy_hash_requests-Fits nothing_ignored read_local read_remote asking_plan old_entries
      touched_entries old_entries (a_txt ∷ []) (push_plan, new_entries, old_entries) asks answered

-- A file that the remote side has lost, with its local digest unread.
abbrev unread_file : EntryFingerprint
unread_file = record old_file { content_hash = none }

abbrev unread_entries : Entries
unread_entries = (a_txt, entry unread_file) ∷ []

abbrev delete_plan_of : EntryFingerprint → SyncPlan
delete_plan_of e = record {
  hash_requests = [];
  actions =
      record {
        type = delete_local;
        path = a_txt;
        expected_local = entry e;
        expected_remote = missing (some a_txt);
        base_after = missing (some a_txt);
      }
      ∷ [];
  conflicts = [];
  warnings = [];
}

abbrev read_old : Entries → List Text → Result Entries
read_old base paths = ok old_entries

deletes :
    build_incremental_plan nothing_ignored old_entries unread_entries [] (a_txt ∷ [])
    ≡ ok (delete_plan_of unread_file)
unfolding build_incremental_plan plan_paths plan_path normalized_dirty_paths insert_sorted
    fingerprint_at missing_entry plan_states missing_hash_requests hash_request
    plan_incremental_path content_equal file_needs_hash quick_file_equal matches_base
    placeholder_changed kind_diverged contains_special matching_base_after sync_action lookup
    normalize_relative_path normpath nt_isabs push_component collapse initial_slashes split join
    ℕ_discrete Text-discrete option_text_discrete option_nat_discrete EntryKind-discrete
    option_int_discrete EntryFingerprint-discrete content_identity
deletes = refl

reread :
    strengthen_deletion_targets nothing_ignored read_old read_remote
      (delete_plan_of unread_file)
      old_entries
      unread_entries
      []
      (a_txt ∷ [])
    ≡ ok (delete_plan_of old_file, old_entries, [])
unfolding strengthen_deletion_targets regular_file_without_hash insert Side-discrete
    build_incremental_plan plan_paths plan_path normalized_dirty_paths insert_sorted fingerprint_at
    missing_entry plan_states missing_hash_requests hash_request plan_incremental_path content_equal
    file_needs_hash quick_file_equal matches_base placeholder_changed kind_diverged contains_special
    matching_base_after sync_action lookup normalize_relative_path normpath nt_isabs push_component
    collapse initial_slashes split join ℕ_discrete Text-discrete option_text_discrete
    option_nat_discrete EntryKind-discrete option_int_discrete EntryFingerprint-discrete
    content_identity
reread = refl

strengthen_deletion_targets-Fits_example :
    Fits nothing_ignored read_old read_remote old_entries
      (a_txt ∷ [])
      (delete_plan_of old_file, old_entries, [])
    × All
        (LocalRead (read_old old_entries) unread_entries old_entries)
        (delete_plan_of unread_file).actions
    × All (RemoteRead read_remote [] []) (delete_plan_of unread_file).actions
strengthen_deletion_targets-Fits_example =
    strengthen_deletion_targets-Fits nothing_ignored read_old read_remote
      (delete_plan_of unread_file) old_entries unread_entries [] (a_txt ∷ [])
      (delete_plan_of old_file, old_entries, []) deletes reread
