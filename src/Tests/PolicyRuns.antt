-- ===== src/Tests/PolicyRuns.antt =====
-- The policy on concrete paths.
use remote_sandbox_cli.Base.{
  ◌≡◌, refl, ℕ_discrete, Text-discrete, option_text_discrete, option_nat_discrete, true, false,
  none, [], ◌∷◌, codes, All, split, join, if◌then◌else◌,
}
use remote_sandbox_cli.Base.Dict.{lookup}
use remote_sandbox_cli.Base.Result.{ok}
use remote_sandbox_cli.Paths.{
  normalize_relative_path, nt_isabs, push_component, collapse, initial_slashes, normpath,
  name_is_hard_ignored, path_parts_are_hard_ignored,
}
use remote_sandbox_cli.Manifest.{
  missing_entry, EntryKind-discrete, option_int_discrete, EntryFingerprint-discrete,
  content_identity,
}
use remote_sandbox_cli.Reconcile.{SyncAction, sync_action}
use remote_sandbox_cli.Reconcile.Compare.{
  content_equal, file_needs_hash, quick_file_equal, matches_base, placeholder_changed,
  kind_diverged, contains_special, matching_base_after,
}
use remote_sandbox_cli.Reconcile.Plan.{
  plan_incremental_path, missing_hash_requests, plan_states, fingerprint_at, insert_sorted,
  normalized_dirty_paths, plan_path, plan_paths, build_incremental_plan,
}
use remote_sandbox_cli.Policy.{
  StaticPolicyEngine, static_policy_engine, PolicyDecision-discrete, sync, ignore,
  matches_normalized, matches, decision_for_path, is_ignored,
}
use remote_sandbox_cli.Policy.Pattern.{tokens, matches_tokens, fnmatchcase}
use remote_sandbox_cli.Policy.Decides.{
  SomeMatches, globs, normalized_pattern, matches_normalized_iff_SomeMatches,
}
use remote_sandbox_cli.Policy.Rules.{is_hard_ignored, decided_by, last_match, decision_for_path_lem}
use remote_sandbox_cli.Policy.Plans.{IsFree, build_incremental_plan-IsFree}
use remote_sandbox_cli.Tests.Inputs.{a_txt}
use remote_sandbox_cli.Tests.PlanRuns.{old_entries, new_entries, push_new, push_plan}

abbrev text_files : StaticPolicyEngine
text_files = static_policy_engine (codes "*.txt" ∷ []) [] (codes "a.*" ∷ []) none

in_set : fnmatchcase (codes "notes.c") (codes "*.[!a-bo]") ≡ true
unfolding fnmatchcase tokens matches_tokens ℕ_discrete
in_set = refl

out_of_set : fnmatchcase (codes "notes.o") (codes "*.[!a-bo]") ≡ false
unfolding fnmatchcase tokens matches_tokens ℕ_discrete
out_of_set = refl

matches_normalized_iff_SomeMatches_example :
    (matches_normalized (codes "build/") (codes "build/x") ≡ true
      → SomeMatches (globs (normalized_pattern (codes "build/"))) (codes "build/x"))
    × (SomeMatches (globs (normalized_pattern (codes "build/"))) (codes "build/x")
        → matches_normalized (codes "build/") (codes "build/x") ≡ true)
matches_normalized_iff_SomeMatches_example =
    matches_normalized_iff_SomeMatches (codes "build/") (codes "build/x")

a_txt_is_normal : normalize_relative_path a_txt ≡ ok a_txt
unfolding normalize_relative_path normpath nt_isabs push_component collapse initial_slashes split
    join ℕ_discrete Text-discrete
a_txt_is_normal = refl

-- The second rule decides.
decided : decision_for_path text_files a_txt ≡ ok (sync, true)
unfolding decision_for_path static_policy_engine matches matches_normalized fnmatchcase tokens
    matches_tokens path_parts_are_hard_ignored name_is_hard_ignored normalize_relative_path normpath
    nt_isabs push_component collapse initial_slashes split join ℕ_discrete Text-discrete
decided = refl

decision_for_path_lem_example :
    decision_for_path text_files a_txt
    ≡ ok (
        if is_hard_ignored a_txt
        then (ignore, true)
        else decided_by (last_match text_files.rules a_txt) (sync, false))
decision_for_path_lem_example = decision_for_path_lem a_txt a_txt_is_normal text_files

not_ignored : is_ignored text_files a_txt ≡ ok false
unfolding is_ignored decision_for_path static_policy_engine matches matches_normalized fnmatchcase
    tokens matches_tokens path_parts_are_hard_ignored name_is_hard_ignored normalize_relative_path
    normpath nt_isabs push_component collapse initial_slashes split join ℕ_discrete Text-discrete
    PolicyDecision-discrete
not_ignored = refl

planned :
    build_incremental_plan (is_ignored text_files) old_entries new_entries old_entries (a_txt ∷ [])
    ≡ ok push_plan
unfolding build_incremental_plan plan_paths plan_path normalized_dirty_paths insert_sorted
    fingerprint_at missing_entry plan_states missing_hash_requests plan_incremental_path
    content_equal file_needs_hash quick_file_equal matches_base placeholder_changed kind_diverged
    contains_special matching_base_after sync_action lookup normalize_relative_path normpath
    nt_isabs push_component collapse initial_slashes split join ℕ_discrete Text-discrete
    option_text_discrete option_nat_discrete EntryKind-discrete option_int_discrete
    EntryFingerprint-discrete content_identity is_ignored decision_for_path static_policy_engine
    matches matches_normalized fnmatchcase tokens matches_tokens path_parts_are_hard_ignored
    name_is_hard_ignored PolicyDecision-discrete
planned = refl

build_incremental_plan-IsFree_example : All (λ (a : SyncAction). IsFree a.path) (push_new ∷ [])
build_incremental_plan-IsFree_example =
    build_incremental_plan-IsFree text_files old_entries new_entries old_entries (a_txt ∷ [])
      push_plan planned
