-- ===== src/Policy/Plans.antt =====
-- The planner of src/remote_sandbox/reconcile.py with the policy of src/remote_sandbox/policy.py.
use remote_sandbox_cli.Base.{
  ◌≡◌, refl, ap, eq_refl, Bool, true, false, List, Text, All, All-map, split, ◌==◌,
}
use remote_sandbox_cli.Base.Result.{ok, ok_injective, >>=-eq-ok}
use remote_sandbox_cli.Paths.{slash, normalize_relative_path, path_parts_are_hard_ignored}
use remote_sandbox_cli.Reconcile.{SyncAction, SyncPlan}
use remote_sandbox_cli.Reconcile.Plan.{Entries, build_incremental_plan}
use remote_sandbox_cli.Reconcile.Whole.{JustifiedAction, build_incremental_plan-AllJustified}
use remote_sandbox_cli.Policy.{
  PolicyDecision, decision_eq, ignore, StaticPolicyEngine, Decided, unless_named, decision_for_path,
  is_ignored,
}

-- The path has a normal form, of which no part is hard-ignored, such as `.git`.
abbrev pub IsFree : Text → Type 0
IsFree path =
    (normalized : Text) × (normalize_relative_path path ≡ ok normalized)
    × (path_parts_are_hard_ignored (split slash normalized) ≡ false)

module _ (engine : StaticPolicyEngine) where
  unless_named-Free :
      (b : Bool) (path : Text) (decided : Decided)
      → unless_named b engine path ≡ ok decided
      → (decided.0 == ignore) ≡ false
      → b ≡ false
  unless_named-Free true path decided h k = cc (
    ap (λ (x : Decided). x.0 == ignore) (ok_injective (ignore, true) decided h),
    k,
    eq_refl {A = PolicyDecision} ignore,
  )
  unless_named-Free false path decided h k = refl

  is_ignored-IsFree : (path : Text) → is_ignored engine path ≡ ok false → IsFree path
  unfolding is_ignored decision_for_path
  is_ignored-IsFree path h =
      let (normalized, is_normal, h) = >>=-eq-ok (normalize_relative_path path) _ h in
      let (decided, is_decided, h) = >>=-eq-ok (decision_for_path engine normalized) _ h in
      (
        normalized,
        is_normal,
        unless_named-Free (path_parts_are_hard_ignored (split slash normalized)) normalized decided
            is_decided (ok_injective (decided.0 == ignore) false h),
      )

  -- Whatever the rules of the policy file say, no action of a plan is at a path that has a
  -- hard-ignored part, such as a repository's `.git` or the files of this program.
  pub build_incremental_plan-IsFree :
      (base l r : Entries) (dirty : List Text) (plan : SyncPlan)
      → build_incremental_plan (is_ignored engine) base l r dirty ≡ ok plan
      → All (λ (a : SyncAction). IsFree a.path) plan.actions
  build_incremental_plan-IsFree base l r dirty plan h =
      All-map (JustifiedAction (is_ignored engine) base l r) (λ (a : SyncAction). IsFree a.path)
        (λ a justified. is_ignored-IsFree a.path justified.not_ignored) plan.actions
        (build_incremental_plan-AllJustified (is_ignored engine) base l r dirty plan h)
