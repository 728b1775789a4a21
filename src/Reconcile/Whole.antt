-- ===== src/Reconcile/Whole.antt =====
-- `build_incremental_plan`: the actions over every dirty path.
use mathlib.Core.Option.{some-injective}
use remote_sandbox_cli.Base.{
  ◌≡◌, refl, sym, ◌∙◌, ap, subst, ◌⊎◌, inl, inr, Bool, true, false, Option, none, some, List, [],
  ◌∷◌, ◌++◌, if◌then◌else◌, Text, text_eq, Bool-cases, All, All-append,
}
use remote_sandbox_cli.Base.Result.{Result, ok, ◌>>=◌, >>=-eq-ok, ok_injective}
use remote_sandbox_cli.Manifest.{FingerprintState}
use remote_sandbox_cli.Reconcile.{
  SyncAction, SyncPlan, ConflictDecision, HashRequest, empty_plan, plan_warning, conflict_decision,
}
use remote_sandbox_cli.Reconcile.Compare.{contains_special, placeholder_changed, kind_diverged}
use remote_sandbox_cli.Reconcile.Plan.{
  plan_incremental_path, plan_states, plan_requests, missing_hash_requests, Entries, fingerprint_at,
  plan_path, plan_paths, build_incremental_plan, normalized_dirty_paths, add_option, special_entry,
  placeholder_changed_reason, kind_divergence,
}
use remote_sandbox_cli.Reconcile.Found.{
  IsNormalForm, fingerprint_at-path, normalized_dirty_paths-IsNormalForm,
}
use remote_sandbox_cli.Reconcile.Safety.{Justified, Planned, plan_incremental_path-Planned}

-- One round adds no action, or one that its states justify.
abbrev OneMore :
    Text → FingerprintState → FingerprintState → FingerprintState → SyncPlan → SyncPlan → Type 0
OneMore path b l r plan plan' =
    (plan'.actions ≡ plan.actions)
    ⊎ ((a : SyncAction) × Planned path b l r a × (plan'.actions ≡ plan.actions ++ (a ∷ [])))

module _ (path : Text) (b l r : FingerprintState) (plan plan' : SyncPlan) where
  same_actions :
      (p : SyncPlan) → ok p ≡ ok plan' → p.actions ≡ plan.actions → OneMore path b l r plan plan'
  same_actions p e h = inl (ap (λ (q : SyncPlan). q.actions) (sym (ok_injective p plan' e)) ∙ h)

  requests_OneMore :
      (hs : List HashRequest)
      → plan_requests hs path b l r plan ≡ ok plan'
      → OneMore path b l r plan plan'
  requests_OneMore (x ∷ hs) h = same_actions _ h refl
  requests_OneMore [] h =
      let ((action, conflict), e, k) = >>=-eq-ok (plan_incremental_path path b l r) _ h in
      go action conflict e k
    where
      go :
          (action : Option SyncAction) (conflict : Option ConflictDecision)
          → plan_incremental_path path b l r ≡ ok (action, conflict)
          → ok (record plan {
            actions = add_option plan.actions action;
            conflicts = add_option plan.conflicts conflict;
          })
            ≡ ok plan'
          → OneMore path b l r plan plan'
      go none conflict e k = same_actions _ k refl
      go (some a) conflict e k = inr (
        a,
        plan_incremental_path-Planned path b l r a conflict e,
        ap (λ (q : SyncPlan). q.actions) (sym (ok_injective _ plan' k)),
      )

  plan_states-OneMore : plan_states path b l r plan ≡ ok plan' → OneMore path b l r plan plan'
  unfolding plan_states
  plan_states-OneMore h = elim (Bool-cases (contains_special b l r)) [
    | inl s ↦
        let (w, _, k) = >>=-eq-ok (plan_warning path special_entry) _ (rw s at h) in
        same_actions _ k refl
    | inr s ↦ elim (Bool-cases (placeholder_changed b l)) [
      | inl p ↦
          let (c, _, k) =
            >>=-eq-ok (conflict_decision path placeholder_changed_reason l r) _ (rw (s, p) at h) in
          same_actions _ k refl
      | inr p ↦ elim (Bool-cases (kind_diverged l r)) [
        | inl d ↦
            let (c, _, k) =
              >>=-eq-ok (conflict_decision path kind_divergence l r) _ (rw (s, p, d) at h) in
            same_actions _ k refl
        | inr d ↦
            let (hs, _, k) = >>=-eq-ok (missing_hash_requests path b l r) _ (rw (s, p, d) at h) in
            requests_OneMore hs k
      ]
    ]
  ]

-- The path of the action is not ignored, and its states are those that the three mappings hold at its path, and justify it.
pub record JustifiedAction (is_ignored : Text → Result Bool) (base l r : Entries) (a : SyncAction)
    : Type 0 where
  pub not_ignored : is_ignored a.path ≡ ok false
  pub base_state : FingerprintState
  pub base_found : fingerprint_at base a.path ≡ ok base_state
  pub local_found : fingerprint_at l a.path ≡ ok a.expected_local
  pub remote_found : fingerprint_at r a.path ≡ ok a.expected_remote
  pub justified : Justified a.type base_state a.expected_local a.expected_remote a.base_after

module _ (is_ignored : Text → Result Bool) (base l r : Entries) where
  abbrev AllJustified : SyncPlan → Type 0
  AllJustified plan = All (JustifiedAction is_ignored base l r) plan.actions

  Planned-JustifiedAction :
      (path : Text) (b lo re : FingerprintState) (a : SyncAction)
      → IsNormalForm path
      → is_ignored path ≡ ok false
      → fingerprint_at base path ≡ ok b
      → fingerprint_at l path ≡ ok lo
      → fingerprint_at r path ≡ ok re
      → Planned path b lo re a
      → JustifiedAction is_ignored base l r a
  Planned-JustifiedAction path b lo re a normal kept hb hl hr p =
      let same : a.path ≡ path =
        some-injective a.path path (sym p.local_path ∙ fingerprint_at-path l path lo normal hl) in
      record {
        not_ignored = ap is_ignored same ∙ kept;
        base_state = b;
        base_found = ap (fingerprint_at base) same ∙ hb;
        local_found = ap (fingerprint_at l) same ∙ hl ∙ ap ok (sym p.is_local);
        remote_found = ap (fingerprint_at r) same ∙ hr ∙ ap ok (sym p.is_remote);
        justified = p.justified;
      }

  OneMore-AllJustified :
      (path : Text) (b lo re : FingerprintState) (plan plan' : SyncPlan)
      → IsNormalForm path
      → is_ignored path ≡ ok false
      → fingerprint_at base path ≡ ok b
      → fingerprint_at l path ≡ ok lo
      → fingerprint_at r path ≡ ok re
      → OneMore path b lo re plan plan'
      → AllJustified plan
      → AllJustified plan'
  OneMore-AllJustified path b lo re plan plan' normal kept hb hl hr (inl e) h =
      subst (All (JustifiedAction is_ignored base l r)) (sym e) h
  OneMore-AllJustified path b lo re plan plan' normal kept hb hl hr (inr (a, p, e)) h =
      subst (All (JustifiedAction is_ignored base l r)) (sym e) (
        All-append _ plan.actions (a ∷ []) h
          (Planned-JustifiedAction path b lo re a normal kept hb hl hr p, tt))

  plan_path-AllJustified :
      (path : Text) (plan plan' : SyncPlan)
      → IsNormalForm path
      → plan_path is_ignored base l r path plan ≡ ok plan'
      → AllJustified plan
      → AllJustified plan'
  unfolding plan_path
  plan_path-AllJustified path plan plan' normal h j =
      let (ignored, e, k) = >>=-eq-ok (is_ignored path) _ h in go ignored e k
    where
      go :
          (ignored : Bool)
          → is_ignored path ≡ ok ignored
          → (if ignored then ok plan else (do
            b ← fingerprint_at base path
            lo ← fingerprint_at l path
            re ← fingerprint_at r path
            plan_states path b lo re plan))
            ≡ ok plan'
          → AllJustified plan'
      go true e k = subst AllJustified (ok_injective plan plan' k) j
      go false e k =
          let (b, hb, k₁) = >>=-eq-ok (fingerprint_at base path) _ k in
          let (lo, hl, k₂) = >>=-eq-ok (fingerprint_at l path) _ k₁ in
          let (re, hr, k₃) = >>=-eq-ok (fingerprint_at r path) _ k₂ in
          OneMore-AllJustified path b lo re plan plan' normal e hb hl hr
            (plan_states-OneMore path b lo re plan plan' k₃) j

  plan_paths-AllJustified :
      (paths : List Text) (plan plan' : SyncPlan)
      → All IsNormalForm paths
      → plan_paths is_ignored base l r paths plan ≡ ok plan'
      → AllJustified plan
      → AllJustified plan'
  unfolding plan_paths
  plan_paths-AllJustified [] plan plan' normal h j =
      subst AllJustified (ok_injective plan plan' h) j
  plan_paths-AllJustified (path ∷ paths) plan plan' (n, normal) h j =
      let (next, e, k) = >>=-eq-ok (plan_path is_ignored base l r path plan) _ h in
      plan_paths-AllJustified paths next plan' normal k
        (plan_path-AllJustified path plan next n e j)

  -- No action of a plan is at an ignored path, and every
  -- action is justified by what the base and the two sides hold at its path: a side
  -- is overwritten or deleted only while it matches the base, a transfer has a source and sets the
  -- base to it, a deletion follows a deletion on the other side, and the base alone is set only
  -- where both sides have the same content.
  pub build_incremental_plan-AllJustified :
      (dirty : List Text) (plan : SyncPlan)
      → build_incremental_plan is_ignored base l r dirty ≡ ok plan
      → All (JustifiedAction is_ignored base l r) plan.actions
  unfolding build_incremental_plan
  build_incremental_plan-AllJustified dirty plan h =
      let (paths, m, k) = >>=-eq-ok (normalized_dirty_paths dirty) _ h in
      plan_paths-AllJustified paths empty_plan plan
        (normalized_dirty_paths-IsNormalForm dirty paths m) k tt
