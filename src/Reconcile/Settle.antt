-- ===== src/Reconcile/Settle.antt =====
-- `_plan_incremental_path` once an action has been carried out.
use remote_sandbox_cli.Base.{
  ◌≡◌, ◌∙◌, sym, Bool, true, false, ◌&&◌, none, some, if◌then◌else◌, option_text_eq, Text,
  Bool-cases, inl, inr,
}
use remote_sandbox_cli.Base.Result.{ok}
use remote_sandbox_cli.Manifest.{FingerprintState, missing, kind_eq, option_int_eq}
use remote_sandbox_cli.Reconcile.{
  push, pull, delete_local, delete_remote, update_base, ActionType, SyncAction,
}
use remote_sandbox_cli.Reconcile.Compare.{
  is_missing, content_equal, matches_base, is_special, matching_base_after,
}
use remote_sandbox_cli.Reconcile.Plan.{act, plan_incremental_path}
use remote_sandbox_cli.Reconcile.Merge.{three_way, by_change, plan_incremental_path-three_way}
-- The two sides after the action: a transfer copies the source's state, a deletion leaves nothing.
use remote_sandbox_cli.Reconcile.Rest.{
  local_of, remote_of, local_after, remote_after, Rests, Admitted, act-Admitted, Rests-copy,
  Rests-agreed, Rests-gone, clash-no_action,
}

module _ (path : Text) where
  abbrev Settled : ActionType → FingerprintState → FingerprintState → FingerprintState → Type 0
  Settled t l r after =
      Rests after (plan_incremental_path path after (local_of t l r after) (remote_of t l r after))

  Settled-by :
      (t : ActionType) (l r after : FingerprintState) (a : SyncAction)
      → a.type ≡ t
      → Admitted path l r after a
      → Settled t l r after
      → Settled a.type a.expected_local a.expected_remote a.base_after
  Settled-by t l r after a e adm h =
      move a.type t a.expected_local l a.expected_remote r a.base_after after e adm.is_local
        adm.is_remote adm.is_after h
    where
      move :
          (t' t : ActionType) (l' l r' r after' after : FingerprintState)
          → t' ≡ t
          → l' ≡ l
          → r' ≡ r
          → after' ≡ after
          → Settled t l r after
          → Settled t' l' r' after'
      move t' t l' l r' r after' after e₁ e₂ e₃ e₄ h = rw (e₁, e₂, e₃, e₄) h

  module _ (base l r : FingerprintState) (a : SyncAction) where
    settles_changed :
        (lm rm : Bool)
        → by_change path base l r lm rm ≡ ok (some a, none)
        → is_special l ≡ false
        → is_special r ≡ false
        → Settled a.type a.expected_local a.expected_remote a.base_after
    settles_changed true true h hl hr = cc
    settles_changed true false h hl hr = elim (Bool-cases (is_missing r)) [
      | inl gone ↦
          let (t, adm) =
            act-Admitted delete_local path l r (missing (some path)) a none (rw gone at h) in
          Settled-by delete_local l r (missing (some path)) a t adm
            (rw plan_incremental_path-three_way (Rests-gone path (some path) r gone).0)
      | inr kept ↦
          let (t, adm) = act-Admitted pull path l r r a none (rw kept at h) in
          Settled-by pull l r r a t adm (
            rw plan_incremental_path-three_way
              (Rests-copy path a.path r adm.normal adm.remote_path hr))
    ]
    settles_changed false true h hl hr = elim (Bool-cases (is_missing l)) [
      | inl gone ↦
          let (t, adm) =
            act-Admitted delete_remote path l r (missing (some path)) a none (rw gone at h) in
          Settled-by delete_remote l r (missing (some path)) a t adm
            (rw plan_incremental_path-three_way (Rests-gone path (some path) l gone).1)
      | inr kept ↦
          let (t, adm) = act-Admitted push path l r l a none (rw kept at h) in
          Settled-by push l r l a t adm (
            rw plan_incremental_path-three_way
              (Rests-copy path a.path l adm.normal adm.local_path hl))
    ]
    settles_changed false false h hl hr = absurd (clash-no_action path _ l r a none h)

    settles_agreed :
        (b : Bool)
        → content_equal l r ≡ true
        → (if b then ok (none, none) else act update_base path l r (matching_base_after l r))
          ≡ ok (some a, none)
        → Settled a.type a.expected_local a.expected_remote a.base_after
    settles_agreed true same h = cc
    settles_agreed false same h =
        let after = matching_base_after l r in
        let (t, adm) = act-Admitted update_base path l r after a none h in
        Settled-by update_base l r after a t adm (
          rw plan_incremental_path-three_way (
            Rests-agreed path a.path l r same adm.normal adm.local_path adm.remote_path
              adm.after_path))

-- Once the action planned for a path has been carried out and the base set as it says, the next
-- plan for that path moves nothing, and at most sets the base to what it already is. Neither
-- side may hold a special entry.
pub plan_incremental_path-settles :
    (path : Text) (base l r : FingerprintState) (a : SyncAction)
    → plan_incremental_path path base l r ≡ ok (some a, none)
    → is_special l ≡ false
    → is_special r ≡ false
    → Rests a.base_after (plan_incremental_path path a.base_after (local_after a) (remote_after a))
plan_incremental_path-settles path base l r a h hl hr =
    let h' : three_way path base l r ≡ ok (some a, none) =
      sym (plan_incremental_path-three_way path base l r) ∙ h in
    elim (Bool-cases (content_equal l r)) [
      | inl same ↦
          settles_agreed path base l r a (is_missing l && is_missing base) same (rw same at h')
      | inr differs ↦
          settles_changed path base l r a (matches_base l base) (matches_base r base)
            (rw differs at h') hl hr
    ]
