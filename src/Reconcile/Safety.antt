-- ===== src/Reconcile/Safety.antt =====
-- `_plan_incremental_path`: what has to hold for an action to be planned.
use remote_sandbox_cli.Base.{
  ◌≡◌, refl, sym, ◌∙◌, ◌⊎◌, inl, inr, Bool, true, false, ◌&&◌, Option, none, some, arith,
  if◌then◌else◌, Text, Bool-cases,
}
use remote_sandbox_cli.Base.Result.{ok}
use remote_sandbox_cli.Manifest.{FingerprintState, missing, entry, state_path}
use remote_sandbox_cli.Reconcile.{
  push, pull, delete_local, delete_remote, update_base, ActionType, SyncAction, ConflictDecision,
}
use remote_sandbox_cli.Reconcile.Compare.{
  is_missing, content_equal, matches_base, matching_base_after,
}
use remote_sandbox_cli.Reconcile.Plan.{act, plan_incremental_path}
use remote_sandbox_cli.Reconcile.Merge.{three_way, by_change, plan_incremental_path-three_way}
use remote_sandbox_cli.Reconcile.Rest.{act-Admitted, clash-no_action}

-- What the states of a path must be for an action of a type, by base, local and remote state.
abbrev pub Justified :
    ActionType → FingerprintState → FingerprintState → FingerprintState → FingerprintState → Type 0
Justified push b l r after = (matches_base r b ≡ true) × (is_missing l ≡ false) × (after ≡ l)
Justified pull b l r after = (matches_base l b ≡ true) × (is_missing r ≡ false) × (after ≡ r)
Justified delete_local b l r after =
    (matches_base l b ≡ true) × (is_missing r ≡ true) × (is_missing after ≡ true)
Justified delete_remote b l r after =
    (matches_base r b ≡ true) × (is_missing l ≡ true) × (is_missing after ≡ true)
Justified update_base b l r after = (content_equal l r ≡ true) × ((after ≡ l) ⊎ (after ≡ r))

matching_base_after_either :
    (l r : FingerprintState) → (matching_base_after l r ≡ l) ⊎ (matching_base_after l r ≡ r)
unfolding matching_base_after
matching_base_after_either (missing p) r = inl refl
matching_base_after_either (entry e) r = ground arith

-- The action that one path gets, with the states that it was planned from.
pub record Planned (path : Text) (b l r : FingerprintState) (a : SyncAction) : Type 0 where
  pub local_path : state_path l ≡ some a.path
  pub is_local : a.expected_local ≡ l
  pub is_remote : a.expected_remote ≡ r
  pub justified : Justified a.type b a.expected_local a.expected_remote a.base_after

module _ (path : Text) (b l r : FingerprintState) (a : SyncAction)
    (c : Option ConflictDecision) where
  Planned-by :
      (t : ActionType) (after : FingerprintState)
      → act t path l r after ≡ ok (some a, c)
      → Justified t b l r after
      → Planned path b l r a
  Planned-by t after h j =
      let (e, adm) = act-Admitted t path l r after a c h in
      record {
        local_path = adm.local_path;
        is_local = adm.is_local;
        is_remote = adm.is_remote;
        justified =
            move a.type a.expected_local a.expected_remote a.base_after e adm.is_local adm.is_remote
              adm.is_after;
      }
    where
      move :
          (t' : ActionType) (l' r' after' : FingerprintState)
          → t' ≡ t
          → l' ≡ l
          → r' ≡ r
          → after' ≡ after
          → Justified t' b l' r' after'
      move t' l' r' after' e₁ e₂ e₃ e₄ = rw (e₁, e₂, e₃, e₄) j

  Planned-changed :
      (lm rm : Bool)
      → matches_base l b ≡ lm
      → matches_base r b ≡ rm
      → by_change path b l r lm rm ≡ ok (some a, c)
      → Planned path b l r a
  Planned-changed true true hl hr h = cc
  Planned-changed true false hl hr h = elim (Bool-cases (is_missing r)) [
    | inl gone ↦ Planned-by delete_local (missing (some path)) (rw gone at h) (hl, gone, refl)
    | inr kept ↦ Planned-by pull r (rw kept at h) (hl, kept, refl)
  ]
  Planned-changed false true hl hr h = elim (Bool-cases (is_missing l)) [
    | inl gone ↦ Planned-by delete_remote (missing (some path)) (rw gone at h) (hr, gone, refl)
    | inr kept ↦ Planned-by push l (rw kept at h) (hr, kept, refl)
  ]
  Planned-changed false false hl hr h = absurd (clash-no_action path _ l r a c h)

  Planned-agreed :
      (skip : Bool)
      → content_equal l r ≡ true
      → (if skip then ok (none, none) else act update_base path l r (matching_base_after l r))
        ≡ ok (some a, c)
      → Planned path b l r a
  Planned-agreed true same h = cc
  Planned-agreed false same h =
      Planned-by update_base (matching_base_after l r) h (same, matching_base_after_either l r)

  pub plan_incremental_path-Planned :
      plan_incremental_path path b l r ≡ ok (some a, c) → Planned path b l r a
  plan_incremental_path-Planned h =
      let h' : three_way path b l r ≡ ok (some a, c) =
        sym (plan_incremental_path-three_way path b l r) ∙ h in
      elim (Bool-cases (content_equal l r)) [
        | inl same ↦ Planned-agreed (is_missing l && is_missing b) same (rw same at h')
        | inr differs ↦
            Planned-changed (matches_base l b) (matches_base r b) refl refl (rw differs at h')
      ]
