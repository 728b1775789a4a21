-- ===== src/Reconcile/Mirror.antt =====
-- `_plan_incremental_path` with the two sides exchanged.
use remote_sandbox_cli.Base.{
  ◌≡◌, refl, Bool, true, false, not, ◌&&◌, ◌||◌, Option, none, some, arith, ◌==◌, option_text_eq,
  Text, eq_comm, sym,
}
use mathlib.Core.Option
use remote_sandbox_cli.Base.Result.{Result, ok, err}
use remote_sandbox_cli.Manifest.{
  FingerprintState, entry, missing, EntryKind, EntryFingerprint, file, dir, symlink, special,
  kind_eq, EntryKind-discrete,
}
use remote_sandbox_cli.Reconcile.{
  push, pull, delete_local, delete_remote, update_base, ActionType, SyncAction, ConflictDecision,
  sync_action, conflict_decision,
}
use remote_sandbox_cli.Reconcile.Compare.{is_missing, content_equal, matches_base, same_content}
use remote_sandbox_cli.Reconcile.Plan.{PathPlan, act, clash, plan_incremental_path}
use remote_sandbox_cli.Reconcile.Merge.{by_change, plan_incremental_path-three_way}

abbrev pub opposite : ActionType → ActionType
opposite push = pull
opposite pull = push
opposite delete_local = delete_remote
opposite delete_remote = delete_local
opposite update_base = update_base

abbrev pub mirror_action : SyncAction → SyncAction
mirror_action a = record {
  type = opposite a.type;
  path = a.path;
  expected_local = a.expected_remote;
  expected_remote = a.expected_local;
  base_after = a.base_after;
}

abbrev pub mirror_conflict : ConflictDecision → ConflictDecision
mirror_conflict c = record c { local_state = c.remote_state; remote_state = c.local_state }

abbrev pub mirror : Result PathPlan → Result PathPlan
mirror (ok (a, c)) = ok (Option.map mirror_action a, Option.map mirror_conflict c)
mirror (err e) = err e

same_hash_comm : (x y : Option Text) → (not (x == none) && x == y) ≡ (not (y == none) && y == x)
same_hash_comm none none = refl
same_hash_comm none (some y) = ground arith
same_hash_comm (some x) none = ground arith
same_hash_comm (some x) (some y) = ground (arith, eq_comm (some x) (some y))

same_kind_comm :
    (k m : EntryKind) (a b : EntryFingerprint)
    → (k == m && same_content k a b) ≡ (m == k && same_content m b a)
unfolding EntryKind-discrete
same_kind_comm file file a b = same_hash_comm a.content_hash b.content_hash
same_kind_comm symlink symlink a b = eq_comm a.link_target b.link_target
same_kind_comm dir dir a b = refl
same_kind_comm special special a b = refl
same_kind_comm _ _ a b = refl

content_equal_comm : (l r : FingerprintState) → content_equal l r ≡ content_equal r l
unfolding content_equal
content_equal_comm (missing p) (missing q) = refl
content_equal_comm (missing p) (entry b) = refl
content_equal_comm (entry a) (missing q) = refl
content_equal_comm (entry a) (entry b) = same_kind_comm a.kind b.kind a b

mirror-act :
    (t : ActionType) (path : Text) (l r after : FingerprintState)
    → mirror (act t path l r after) ≡ act (opposite t) path r l after
unfolding sync_action
mirror-act t path l r after = ground arith

mirror-clash :
    (path reason : Text) (l r : FingerprintState)
    → mirror (clash path reason l r) ≡ clash path reason r l
unfolding conflict_decision
mirror-clash path reason l r = ground arith

||_comm : (a b : Bool) → (a || b) ≡ (b || a)
||_comm a b = ground arith

by_change-mirror :
    (path : Text) (base l r : FingerprintState) (a b : Bool)
    → by_change path base r l b a ≡ mirror (by_change path base l r a b)
by_change-mirror path base l r true true = refl
by_change-mirror path base l r true false =
    ground
      (arith, mirror-act delete_local path l r (missing (some path)), mirror-act pull path l r r)
by_change-mirror path base l r false true =
    ground
      (arith, mirror-act delete_remote path l r (missing (some path)), mirror-act push path l r l)
by_change-mirror path base l r false false =
    rw (||_comm (is_missing r) (is_missing l)) (sym (mirror-clash path _ l r))

-- Where the sides differ, exchanging them exchanges PUSH with PULL and the two deletions, and
-- leaves a conflict a conflict, with its reason.
pub plan_incremental_path-mirror :
    (path : Text) (base l r : FingerprintState)
    → content_equal l r ≡ false
    → plan_incremental_path path base r l ≡ mirror (plan_incremental_path path base l r)
plan_incremental_path-mirror path base l r h =
    rw
      (plan_incremental_path-three_way path base r l, plan_incremental_path-three_way path base l r)
      (rw (content_equal_comm r l, h)
        (by_change-mirror path base l r (matches_base l base) (matches_base r base)))
