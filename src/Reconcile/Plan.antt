-- ===== src/Reconcile/Plan.antt =====
-- `build_incremental_plan` and `_plan_incremental_path` of src/remote_sandbox/reconcile.py.
use remote_sandbox_cli.Base.{
  Bool, true, false, not, ◌&&◌, ◌||◌, Option, none, some, List, [], ◌∷◌, ◌++◌, if◌then◌else◌, ◌==◌,
  Text, text_eq, codes, ltb,
}
use remote_sandbox_cli.Base.Dict.{Dict, lookup}
use remote_sandbox_cli.Base.Result.{Result, ok, ◌>>=◌, ◌>>◌}
use remote_sandbox_cli.Paths.{normalize_relative_path}
use remote_sandbox_cli.Manifest.{FingerprintState, missing, missing_entry}
use remote_sandbox_cli.Replica.{local, remote}
use remote_sandbox_cli.Reconcile.{
  push, pull, delete_local, delete_remote, update_base, HashRequest, ConflictDecision, SyncAction,
  SyncPlan, empty_plan, ActionType, validate_snapshot, hash_request, conflict_decision,
  plan_warning, sync_action,
}
use remote_sandbox_cli.Reconcile.Compare.{
  is_missing, content_equal, file_needs_hash, quick_file_equal, matches_base, placeholder_changed,
  kind_diverged, contains_special, matching_base_after,
}

abbrev pub both_modified : Text
both_modified = codes "both-modified"

abbrev pub delete_versus_modify : Text
delete_versus_modify = codes "delete-versus-modify"

abbrev pub placeholder_changed_reason : Text
placeholder_changed_reason = codes "placeholder-changed"

abbrev pub kind_divergence : Text
kind_divergence = codes "kind-divergence"

abbrev pub special_entry : Text
special_entry = codes "special-entry-not-transferred"

-- The pair that `_plan_incremental_path` returns.
abbrev pub PathPlan : Type 0
PathPlan = Option SyncAction × Option ConflictDecision

abbrev pub act :
    ActionType → Text → FingerprintState → FingerprintState → FingerprintState → Result PathPlan
act type path l r after = do a ← sync_action type path l r after; ok (some a, none)

abbrev pub clash : Text → Text → FingerprintState → FingerprintState → Result PathPlan
clash path reason l r = do c ← conflict_decision path reason l r; ok (none, some c)

-- `_plan_incremental_path`
unfoldable pub plan_incremental_path :
    Text → FingerprintState → FingerprintState → FingerprintState → Result PathPlan
plan_incremental_path path base l r =
    if content_equal l r
    then (if is_missing l && is_missing base
        then ok (none, none)
        else act update_base path l r (matching_base_after l r))
    else if is_missing base
    then (if is_missing l
        then act pull path l r r
        else if is_missing r
        then act push path l r l
        else clash path both_modified l r)
    else if matches_base l base && matches_base r base
    then ok (none, none)
    else if matches_base l base && not (matches_base r base)
    then (if is_missing r
        then act delete_local path l r (missing (some path))
        else act pull path l r r)
    else if matches_base r base && not (matches_base l base)
    then (if is_missing l
        then act delete_remote path l r (missing (some path))
        else act push path l r l)
    else clash path (if is_missing l || is_missing r then delete_versus_modify else both_modified) l
        r

abbrev request_if : Bool → Result HashRequest → Result (List HashRequest)
request_if true request = do h ← request; ok (h ∷ [])
request_if false request = ok []

-- `_missing_hash_requests`
unfoldable pub missing_hash_requests :
    Text → FingerprintState → FingerprintState → FingerprintState → Result (List HashRequest)
missing_hash_requests path base l r = do
  for_local ←
      request_if (file_needs_hash l && not (quick_file_equal l base)) (hash_request local path)
  for_remote ←
      request_if (file_needs_hash r && not (quick_file_equal r base)) (hash_request remote path)
  ok (for_local ++ for_remote)

abbrev pub add_option {ℓ} : {A : Type ℓ} → List A → Option A → List A
add_option xs none = xs
add_option xs (some a) = xs ++ (a ∷ [])

-- The rest of the loop's body, once the hashes are known to suffice or not.
abbrev pub plan_requests :
    List HashRequest
    → Text
    → FingerprintState
    → FingerprintState
    → FingerprintState
    → SyncPlan
    → Result SyncPlan
plan_requests [] path base l r plan = do
  (action, conflict) ← plan_incremental_path path base l r
  ok (record plan {
    actions = add_option plan.actions action;
    conflicts = add_option plan.conflicts conflict;
  })
plan_requests (h ∷ hs) path base l r plan =
    ok (record plan { hash_requests = plan.hash_requests ++ (h ∷ hs) })

-- The loop's body behind the three lookups.
unfoldable pub plan_states :
    Text → FingerprintState → FingerprintState → FingerprintState → SyncPlan → Result SyncPlan
plan_states path base l r plan =
    if contains_special base l r
    then (do
      w ← plan_warning path special_entry
      ok (record plan { warnings = plan.warnings ++ (w ∷ []) }))
    else if placeholder_changed base l
    then (do
      c ← conflict_decision path placeholder_changed_reason l r
      ok (record plan { conflicts = plan.conflicts ++ (c ∷ []) }))
    else if kind_diverged l r
    then (do
      c ← conflict_decision path kind_divergence l r
      ok (record plan { conflicts = plan.conflicts ++ (c ∷ []) }))
    else (do
      requests ← missing_hash_requests path base l r
      plan_requests requests path base l r plan)

-- What a mapping from paths holds.
abbrev pub Entries : Type 0
Entries = Dict Text FingerprintState

abbrev pub found_at : Text → Option FingerprintState → Result FingerprintState
found_at path none = missing_entry (some path)
found_at path (some state) = do validate_snapshot state path; ok state

-- `_fingerprint_at`
unfoldable pub fingerprint_at : Entries → Text → Result FingerprintState
fingerprint_at entries path = found_at path (lookup path entries)

-- Python's order of texts, by code points.
unfoldable pub text_lt : Text → Text → Bool
text_lt [] [] = false
text_lt [] (y ∷ ys) = true
text_lt (x ∷ xs) [] = false
text_lt (x ∷ xs) (y ∷ ys) = ltb x y || (not (ltb y x) && text_lt xs ys)

unfoldable pub insert_sorted : Text → List Text → List Text
insert_sorted a [] = a ∷ []
insert_sorted a (x ∷ xs) =
    if a == x then x ∷ xs else if text_lt a x then a ∷ x ∷ xs else x ∷ insert_sorted a xs

-- `_normalized_dirty_paths`: the sorted list of a set.
unfoldable pub normalized_dirty_paths : List Text → Result (List Text)
normalized_dirty_paths [] = ok []
normalized_dirty_paths (p ∷ ps) = do
  path ← normalize_relative_path p
  rest ← normalized_dirty_paths ps
  ok (insert_sorted path rest)

-- The policy is a parameter: its `is_ignored` may raise.
module _ (is_ignored : Text → Result Bool) (base l r : Entries) where
  -- The loop's body.
  unfoldable pub plan_path : Text → SyncPlan → Result SyncPlan
  plan_path path plan = do
    ignored ← is_ignored path
    if ignored then ok plan else (do
      base_entry ← fingerprint_at base path
      local_entry ← fingerprint_at l path
      remote_entry ← fingerprint_at r path
      plan_states path base_entry local_entry remote_entry plan)

  unfoldable pub plan_paths : List Text → SyncPlan → Result SyncPlan
  plan_paths [] plan = ok plan
  plan_paths (path ∷ paths) plan = do plan' ← plan_path path plan; plan_paths paths plan'

  unfoldable pub build_incremental_plan : List Text → Result SyncPlan
  build_incremental_plan dirty_paths = do
    paths ← normalized_dirty_paths dirty_paths
    plan_paths paths empty_plan
