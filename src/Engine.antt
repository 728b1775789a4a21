-- ===== src/Engine.antt =====
-- src/remote_sandbox/_engine_planning.py: planning once more with the digests that a plan lacked. The
-- two hashers read the disks, and are parameters that may raise. They fill the dicts of their caller,
-- which are returned here.
pub mod Completed
pub mod Replanned
use remote_sandbox_cli.Base.{
  ◌≡◌, Bool, true, false, not, ◌&&◌, ◌||◌, Option, none, some, List, [], ◌∷◌, if◌then◌else◌, ◌==◌,
  Text, text_eq, option_text_eq,
}
use remote_sandbox_cli.Base.Dict.{Dict, lookup, insert}
use remote_sandbox_cli.Base.Result.{Result, ok, err, runtime_error, key_error, ◌>>=◌, ◌>>◌, require}
use remote_sandbox_cli.Replica.{Side, local, remote, side_eq}
use remote_sandbox_cli.Manifest.{FingerprintState, entry, missing, file, kind_eq}
use remote_sandbox_cli.Reconcile.{
  HashRequest, SyncAction, SyncPlan, ActionType, push, pull, delete_local, delete_remote,
  update_base,
}
use remote_sandbox_cli.Reconcile.Plan.{Entries, build_incremental_plan}

-- `_regular_file_without_hash`
unfoldable pub regular_file_without_hash : FingerprintState → Bool
regular_file_without_hash (entry e) = e.kind == file && e.content_hash == none
regular_file_without_hash (missing p) = false

abbrev pub requested : Side → List HashRequest → List Text
requested side [] = []
requested side (h ∷ hs) =
    let rest = requested side hs in if h.side == side then h.path ∷ rest else rest

-- `dict.update`
abbrev pub update : Entries → Entries → Entries
update entries [] = entries
update entries ((path, state) ∷ fresh) = update (insert path state entries) fresh

-- `if paths: entries.update(hasher(paths))`
abbrev pub rehash : (List Text → Result Entries) → List Text → Entries → Result Entries
rehash hasher [] entries = ok entries
rehash hasher (path ∷ paths) entries = do fresh ← hasher (path ∷ paths); ok (update entries fresh)

abbrev pub is_empty {ℓ} : {A : Type ℓ} → List A → Bool
is_empty [] = true
is_empty (x ∷ xs) = false

abbrev pub deletes_local : SyncAction → Bool
deletes_local a = elim a.type [
  | delete_local ↦ regular_file_without_hash a.expected_local
  | push ↦ false
  | pull ↦ false
  | delete_remote ↦ false
  | update_base ↦ false
]

abbrev pub deletes_remote : SyncAction → Bool
deletes_remote a = elim a.type [
  | delete_remote ↦ regular_file_without_hash a.expected_remote
  | push ↦ false
  | pull ↦ false
  | delete_local ↦ false
  | update_base ↦ false
]

abbrev pub paths_where : (SyncAction → Bool) → List SyncAction → List Text
paths_where test [] = []
paths_where test (a ∷ actions) =
    let rest = paths_where test actions in if test a then a.path ∷ rest else rest

-- What is held at a path that has to be there, and the paths whose files have no digest.
abbrev pub unhashed : Entries → List Text → Result (List Text)
unhashed entries [] = ok []
unhashed entries (path ∷ paths) = do
  state ← or_key_error (lookup path entries)
  rest ← unhashed entries paths
  ok (if regular_file_without_hash state then path ∷ rest else rest)
  where
    or_key_error : Option FingerprintState → Result FingerprintState
    or_key_error none = err key_error
    or_key_error (some state) = ok state

module _ (is_ignored : Text → Result Bool) (local_hasher : Entries → List Text → Result Entries)
    (remote_hasher : List Text → Result Entries) where
  -- `if again: plan = build_incremental_plan(…)`
  abbrev pub plan_again :
      Bool → SyncPlan → Entries → Entries → Entries → List Text → Result SyncPlan
  plan_again false plan base l r dirty = ok plan
  plan_again true plan base l r dirty = build_incremental_plan is_ignored base l r dirty

  unfoldable pub satisfy_hash_requests :
      SyncPlan → Entries → Entries → Entries → List Text → Result (SyncPlan × Entries × Entries)
  satisfy_hash_requests plan base l r dirty = do
    l' ← rehash (local_hasher base) (requested local plan.hash_requests) l
    r' ← rehash remote_hasher (requested remote plan.hash_requests) r
    plan' ← plan_again (not (is_empty plan.hash_requests)) plan base l' r' dirty
    require (is_empty plan'.hash_requests) runtime_error
    ok (plan', l', r')

  unfoldable pub strengthen_deletion_targets :
      SyncPlan → Entries → Entries → Entries → List Text → Result (SyncPlan × Entries × Entries)
  strengthen_deletion_targets plan base l r dirty = do
    let local_paths = paths_where deletes_local plan.actions
    let remote_paths = paths_where deletes_remote plan.actions
    l' ← rehash (local_hasher base) local_paths l
    r' ← rehash remote_hasher remote_paths r
    plan' ← plan_again (not (is_empty local_paths && is_empty remote_paths)) plan base l' r' dirty
    ok (plan', l', r')

  unfoldable pub strengthen_requeued_files :
      Entries → Entries → Entries → List Text → Result (Entries × Entries)
  strengthen_requeued_files base l r paths = do
    local_paths ← unhashed l paths
    remote_paths ← unhashed r paths
    l' ← rehash (local_hasher base) local_paths l
    r' ← rehash remote_hasher remote_paths r
    ok (l', r')
