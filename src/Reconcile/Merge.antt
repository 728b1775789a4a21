-- ===== src/Reconcile/Merge.antt =====
-- `_plan_incremental_path` as a three-way merge.
use remote_sandbox_cli.Base.{
  ◌≡◌, refl, Bool, true, false, ◌&&◌, ◌||◌, none, some, arith, if◌then◌else◌, Text,
}
use remote_sandbox_cli.Base.Result.{Result, ok}
use remote_sandbox_cli.Manifest.{FingerprintState, entry, missing, kind_eq}
use remote_sandbox_cli.Reconcile.{push, pull, delete_local, delete_remote, update_base}
use remote_sandbox_cli.Reconcile.Compare.{
  is_missing, content_equal, matches_base, matching_base_after,
}
use remote_sandbox_cli.Reconcile.Plan.{
  PathPlan, act, clash, both_modified, delete_versus_modify, plan_incremental_path,
}

module _ (path : Text) (base l r : FingerprintState) where
  -- The outcome where the sides differ, by which of them still is what the base says.
  abbrev pub by_change : Bool → Bool → Result PathPlan
  by_change true true = ok (none, none)
  by_change true false =
      if is_missing r then act delete_local path l r (missing (some path)) else act pull path l r r
  by_change false true =
      if is_missing l then act delete_remote path l r (missing (some path)) else act push path l r l
  by_change false false =
      clash path (if is_missing l || is_missing r then delete_versus_modify else both_modified) l r

  -- The merge: do the sides agree, and if not, who changed?
  abbrev pub three_way : Result PathPlan
  three_way =
      if content_equal l r
      then (if is_missing l && is_missing base
          then ok (none, none)
          else act update_base path l r (matching_base_after l r))
      else by_change (matches_base l base) (matches_base r base)

matches_base_missing :
    (current base : FingerprintState)
    → is_missing base ≡ true
    → matches_base current base ≡ is_missing current
unfolding matches_base content_equal
matches_base_missing (entry c) (missing p) h = refl
matches_base_missing (missing q) (missing p) h = refl
matches_base_missing c (entry b) h = cc

content_equal_missing :
    (l r : FingerprintState) → is_missing l ≡ true → is_missing r ≡ true → content_equal l r ≡ true
unfolding content_equal
content_equal_missing (missing p) (missing q) h k = refl
content_equal_missing (entry p) r h k = cc
content_equal_missing (missing p) (entry q) h k = cc

-- The decision for a path is a three-way merge on three tests: whether the sides have the same
-- content, and whether each side matches the base. The code's branch for an empty base decides
-- nothing else.
pub plan_incremental_path-three_way :
    (path : Text) (base l r : FingerprintState)
    → plan_incremental_path path base l r ≡ three_way path base l r
unfolding plan_incremental_path
plan_incremental_path-three_way path base l r =
    ground
      (arith, matches_base_missing l base, matches_base_missing r base, content_equal_missing l r)
