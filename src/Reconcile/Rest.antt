-- ===== src/Reconcile/Rest.antt =====
-- What an action leaves behind when it is carried out, and plans that move nothing.
use remote_sandbox_cli.Base.{
  ◌≡◌, refl, sym, subst, ◌≢◌, Bool, true, false, ◌&&◌, Option, none, some, arith, if◌then◌else◌,
  option_text_eq, Text, Bool-cases, inl, inr,
}
use remote_sandbox_cli.Base.Result.{Result, ok}
use remote_sandbox_cli.Paths.{normalize_relative_path}
use remote_sandbox_cli.Manifest.{
  FingerprintState, entry, missing, kind_eq, state_path, option_int_eq,
}
use remote_sandbox_cli.Reconcile.{
  push, pull, delete_local, delete_remote, update_base, ActionType, SyncAction, ConflictDecision,
  sync_action, conflict_decision,
}
use remote_sandbox_cli.Reconcile.Compare.{
  is_missing, content_equal, matches_base, quick_file_equal, is_special, matching_base_after,
}
use remote_sandbox_cli.Reconcile.Plan.{PathPlan, act, clash}
use remote_sandbox_cli.Reconcile.Merge.{three_way}

-- The two sides after the action: a transfer copies the source's state, a deletion leaves nothing.
abbrev pub local_of :
    ActionType → FingerprintState → FingerprintState → FingerprintState → FingerprintState
local_of pull l r after = r
local_of delete_local l r after = after
local_of _ l r after = l

abbrev pub remote_of :
    ActionType → FingerprintState → FingerprintState → FingerprintState → FingerprintState
remote_of push l r after = l
remote_of delete_remote l r after = after
remote_of _ l r after = r

abbrev pub local_after : SyncAction → FingerprintState
local_after a = local_of a.type a.expected_local a.expected_remote a.base_after

abbrev pub remote_after : SyncAction → FingerprintState
remote_after a = remote_of a.type a.expected_local a.expected_remote a.base_after

-- Nothing is to be moved, and the base stays what it is.
abbrev pub Rests : FingerprintState → Result PathPlan → Type 0
Rests base (ok (none, none)) = Unit
Rests base (ok (some a, none)) = (a.type ≡ update_base) × (a.base_after ≡ base)
Rests base _ = ⊥

matches_base_self :
    (s : FingerprintState)
    → is_special s ≡ false
    → content_equal s s ≡ false
    → matches_base s s ≡ true
unfolding matches_base quick_file_equal content_equal
matches_base_self (missing p) h k = refl
matches_base_self (entry e) h k = ground arith

-- What the constructor of an action has checked.
pub record Admitted (path : Text) (l r after : FingerprintState) (a : SyncAction) : Type 0 where
  pub normal : normalize_relative_path path ≡ ok a.path
  pub local_path : state_path l ≡ some a.path
  pub remote_path : state_path r ≡ some a.path
  pub after_path : state_path after ≡ some a.path
  pub is_local : a.expected_local ≡ l
  pub is_remote : a.expected_remote ≡ r
  pub is_after : a.base_after ≡ after

pub act-Admitted :
    (t : ActionType) (path : Text) (l r after : FingerprintState) (a : SyncAction)
    (c : Option ConflictDecision)
    → act t path l r after ≡ ok (some a, c)
    → (a.type ≡ t) × Admitted path l r after a
unfolding sync_action
act-Admitted t path l r after a c h = ground arith

act-ok :
    (t : ActionType) (path p : Text) (l r after : FingerprintState)
    → normalize_relative_path path ≡ ok p
    → state_path l ≡ some p
    → state_path r ≡ some p
    → state_path after ≡ some p
    → (a : SyncAction) × (act t path l r after ≡ ok (some a, none))
      × (a.type ≡ t)
      × (a.base_after ≡ after)
unfolding sync_action
act-ok t path p l r after n hl hr ha = (
  record { type = t; path = p; expected_local = l; expected_remote = r; base_after = after },
  ground arith,
  refl,
  refl,
)

Rests-update :
    (path p : Text) (l r after : FingerprintState)
    → normalize_relative_path path ≡ ok p
    → state_path l ≡ some p
    → state_path r ≡ some p
    → state_path after ≡ some p
    → Rests after (act update_base path l r after)
Rests-update path p l r after n hl hr ha =
    let (a, e, t, b) = act-ok update_base path p l r after n hl hr ha in
    subst (Rests after) (sym e) (t, b)

matching_base_after_self : (s : FingerprintState) → matching_base_after s s ≡ s
unfolding matching_base_after
matching_base_after_self (missing p) = refl
matching_base_after_self (entry e) = ground arith

-- Both sides and the base hold one state.
pub Rests-copy :
    (path p : Text) (s : FingerprintState)
    → normalize_relative_path path ≡ ok p
    → state_path s ≡ some p
    → is_special s ≡ false
    → Rests s (three_way path s s s)
Rests-copy path p s n hs plain = elim (Bool-cases (content_equal s s)) [
  | inl same ↦
      rw (same, matching_base_after_self s)
        (skip_or (is_missing s && is_missing s) (Rests-update path p s s s n hs hs hs))
  | inr differs ↦ let still = matches_base_self s plain differs in rw (differs, still) tt
]
  where
    skip_or :
        (b : Bool)
        → Rests s (act update_base path s s s)
        → Rests s (if b then ok (none, none) else act update_base path s s s)
    skip_or true h = tt
    skip_or false h = h

-- Both sides agree, and the base has been set from them.
pub Rests-agreed :
    (path p : Text) (l r : FingerprintState)
    → content_equal l r ≡ true
    → normalize_relative_path path ≡ ok p
    → state_path l ≡ some p
    → state_path r ≡ some p
    → state_path (matching_base_after l r) ≡ some p
    → Rests (matching_base_after l r) (three_way path (matching_base_after l r) l r)
Rests-agreed path p l r same n hl hr ha =
    rw same (skip_or (is_missing l && is_missing after) (Rests-update path p l r after n hl hr ha))
  where
    after : FingerprintState
    after = matching_base_after l r

    skip_or :
        (b : Bool)
        → Rests after (act update_base path l r after)
        → Rests after (if b then ok (none, none) else act update_base path l r after)
    skip_or true h = tt
    skip_or false h = h

-- Nothing is left on either side.
pub Rests-gone :
    (path : Text) (q : Option Text) (gone : FingerprintState)
    → is_missing gone ≡ true
    → Rests (missing q) (three_way path (missing q) (missing q) gone)
      × Rests (missing q) (three_way path (missing q) gone (missing q))
unfolding content_equal
Rests-gone path q (missing p) h = (tt, tt)
Rests-gone path q (entry e) h = cc

pub clash-no_action :
    (path reason : Text) (l r : FingerprintState) (a : SyncAction) (c : Option ConflictDecision)
    → clash path reason l r ≢ ok (some a, c)
unfolding conflict_decision
clash-no_action path reason l r a c h = ground arith
