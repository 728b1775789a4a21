-- ===== src/Tests/PlanRuns.antt =====
-- Plans: one changed file.
use remote_sandbox_cli.Base.{
  ℕ_discrete, Text-discrete, option_text_discrete, option_nat_discrete, ◌≡◌, refl, Bool, false,
  none, some, [], ◌∷◌, All, Text, codes, split, join,
}
use remote_sandbox_cli.Base.Dict.{lookup}
use remote_sandbox_cli.Base.Result.{Result, ok}
use remote_sandbox_cli.Paths.{
  normalize_relative_path, nt_isabs, push_component, collapse, initial_slashes, normpath,
}
use remote_sandbox_cli.Manifest.{
  missing_entry, entry, missing, EntryKind-discrete, option_int_discrete, EntryFingerprint-discrete,
  content_identity,
}
use remote_sandbox_cli.Reconcile.{SyncPlan, SyncAction, push, sync_action}
use remote_sandbox_cli.Reconcile.Compare.{
  content_equal, file_needs_hash, quick_file_equal, matches_base, placeholder_changed,
  kind_diverged, contains_special, matching_base_after,
}
use remote_sandbox_cli.Reconcile.Plan.{
  Entries, plan_incremental_path, missing_hash_requests, plan_states, fingerprint_at, insert_sorted,
  normalized_dirty_paths, plan_path, plan_paths, build_incremental_plan,
}
use remote_sandbox_cli.Reconcile.Merge.{plan_incremental_path-three_way, three_way}
use remote_sandbox_cli.Reconcile.Mirror.{plan_incremental_path-mirror, mirror}
use remote_sandbox_cli.Reconcile.Rest.{Rests}
use remote_sandbox_cli.Reconcile.Settle.{plan_incremental_path-settles}
use remote_sandbox_cli.Reconcile.Whole.{JustifiedAction, build_incremental_plan-AllJustified}
use remote_sandbox_cli.Tests.Inputs.{a_txt, old_file, new_file}

abbrev pub nothing_ignored : Text → Result Bool
nothing_ignored path = ok false

abbrev pub old_entries : Entries
old_entries = (a_txt, entry old_file) ∷ []

abbrev pub new_entries : Entries
new_entries = (a_txt, entry new_file) ∷ []

-- The local file is sent.
abbrev pub push_new : SyncAction
push_new = record {
  type = push;
  path = a_txt;
  expected_local = entry new_file;
  expected_remote = entry old_file;
  base_after = entry new_file;
}

abbrev pub push_plan : SyncPlan
push_plan = record { hash_requests = []; actions = push_new ∷ []; conflicts = []; warnings = [] }

local_change :
    build_incremental_plan nothing_ignored old_entries new_entries old_entries
      (codes "./a.txt" ∷ a_txt ∷ [])
    ≡ ok push_plan
unfolding build_incremental_plan plan_paths plan_path normalized_dirty_paths insert_sorted
    fingerprint_at missing_entry plan_states missing_hash_requests plan_incremental_path
    content_equal file_needs_hash quick_file_equal matches_base placeholder_changed kind_diverged
    contains_special matching_base_after sync_action lookup normalize_relative_path normpath
    nt_isabs push_component collapse initial_slashes split join ℕ_discrete Text-discrete
    option_text_discrete option_nat_discrete EntryKind-discrete option_int_discrete
    EntryFingerprint-discrete content_identity
local_change = refl

one_path :
    plan_incremental_path a_txt (entry old_file) (entry new_file) (entry old_file)
    ≡ ok (some push_new, none)
unfolding plan_incremental_path content_equal file_needs_hash quick_file_equal matches_base
    matching_base_after sync_action lookup normalize_relative_path normpath nt_isabs push_component
    collapse initial_slashes split join ℕ_discrete Text-discrete option_text_discrete
    option_nat_discrete EntryKind-discrete option_int_discrete EntryFingerprint-discrete
    content_identity
one_path = refl

differ : content_equal (entry new_file) (entry old_file) ≡ false
unfolding content_equal ℕ_discrete Text-discrete option_text_discrete option_nat_discrete
    EntryKind-discrete option_int_discrete EntryFingerprint-discrete content_identity
differ = refl

build_incremental_plan-AllJustified_example :
    All (JustifiedAction nothing_ignored old_entries new_entries old_entries) (push_new ∷ [])
build_incremental_plan-AllJustified_example =
    build_incremental_plan-AllJustified nothing_ignored old_entries new_entries old_entries
      (codes "./a.txt" ∷ a_txt ∷ []) push_plan local_change

plan_incremental_path-settles_example :
    Rests
      (entry new_file)
      (plan_incremental_path a_txt (entry new_file) (entry new_file) (entry new_file))
unfolding EntryKind-discrete
plan_incremental_path-settles_example =
    plan_incremental_path-settles a_txt (entry old_file) (entry new_file) (entry old_file) push_new
      one_path refl refl

plan_incremental_path-mirror_example :
    plan_incremental_path a_txt (entry old_file) (entry old_file) (entry new_file)
    ≡ mirror (plan_incremental_path a_txt (entry old_file) (entry new_file) (entry old_file))
plan_incremental_path-mirror_example =
    plan_incremental_path-mirror a_txt (entry old_file) (entry new_file) (entry old_file) differ

plan_incremental_path-three_way_example :
    plan_incremental_path a_txt (missing none) (entry new_file) (missing none)
    ≡ three_way a_txt (missing none) (entry new_file) (missing none)
plan_incremental_path-three_way_example =
    plan_incremental_path-three_way a_txt (missing none) (entry new_file) (missing none)
