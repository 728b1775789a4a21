-- ===== src/Sync/Mutate.antt =====
-- The `try` block of `_execute_and_commit`: transfers, deletions, and the versions of conflicts.
use remote_sandbox_cli.Base.{
  ℕ, Bool, true, false, not, ◌&&◌, ◌||◌, Option, none, some, List, [], ◌∷◌, ◌++◌, map,
  if◌then◌else◌, ◌==◌, Text, text_eq, option_text_eq, length,
}
use remote_sandbox_cli.Base.Dict.{Dict, lookup, insert}
use remote_sandbox_cli.Base.Sets.{add, union, is_empty}
use remote_sandbox_cli.Base.Result.{Result, ok, err, runtime_error, key_error, require}
use remote_sandbox_cli.Replica.{Side, local, remote}
use remote_sandbox_cli.Manifest.{
  EntryFingerprint, FingerprintState, entry, missing, file, symlink, dir, special, kind_eq,
  state_eq, option_int_eq, ℤ, pos,
}
use remote_sandbox_cli.Journal.{EventKey, event_key_eq}
use remote_sandbox_cli.Reconcile.{
  ActionType, SyncAction, SyncPlan, push, pull, delete_local, delete_remote, update_base,
  ConflictDecision, conflict_decision,
}
use remote_sandbox_cli.Reconcile.Plan.{Entries}
use remote_sandbox_cli.State.Bases.{list_base}
use remote_sandbox_cli.Sync.Machine.{
  Locals, Call, pure, lift, on_store, on_world, set_locals, for_each, ◌>>=◌, ◌>>◌,
}
use remote_sandbox_cli.Sync.Outside.{Outside}
use remote_sandbox_cli.Sync.Transfer.{
  TransferDirection, push_direction, pull_direction, direction_eq, action_type_eq, TransferResult,
  from_actions,
}
use remote_sandbox_cli.Sync.Actions.{of_type, by_path, deepest_first}

abbrev pub action_of : TransferDirection → ActionType
action_of push_direction = push
action_of pull_direction = pull

abbrev pub destination_side : TransferDirection → Side
destination_side push_direction = remote
destination_side pull_direction = local

-- `{(side, path) for path in paths}`
abbrev pub keys_of : Side → List Text → List EventKey
keys_of side = map (λ path. (side, path))

abbrev pub action_keys : Side → List SyncAction → List EventKey
action_keys side = map (λ (a : SyncAction). (side, a.path))

-- `entries[path]`
abbrev pub at_path : Option FingerprintState → Result FingerprintState
at_path none = err key_error
at_path (some state) = ok state

-- `current_attempt = …; attempted_mutations.update(current_attempt)`
abbrev pub begin_attempt : List EventKey → Locals → Locals
begin_attempt keys l = record l {
  current_attempt = keys;
  attempted_mutations = union l.attempted_mutations keys;
}

-- `record_progress`
abbrev pub record_progress : Side → TransferResult → Locals → Locals
record_progress side r l = record l {
  successful_mutations = union l.successful_mutations (keys_of side r.completed);
}

abbrev pub record_all : Side → List TransferResult → Locals → Locals
record_all side [] l = l
record_all side (r ∷ rs) l = record_all side rs (record_progress side r l)

-- What follows a transfer.
abbrev pub end_transfer : Side → TransferResult → Locals → Locals
end_transfer side r l = record l {
  transferred = union l.transferred r.completed;
  completed = union l.completed r.completed;
  changed = union l.changed r.changed_during_transfer;
  known_unused = union l.known_unused (keys_of side r.changed_during_transfer);
  successful_mutations = union l.successful_mutations (keys_of side r.completed);
  current_attempt = [];
}

-- What follows a deletion, before it is verified.
abbrev pub end_delete : Side → TransferResult → Locals → Locals
end_delete side r l = record l {
  changed = union l.changed r.changed_during_transfer;
  known_unused = union l.known_unused (keys_of side r.changed_during_transfer);
  successful_mutations = union l.successful_mutations (keys_of side r.completed);
  current_attempt = [];
}

abbrev pub landed : Side → Text → FingerprintState → Locals → Locals
landed side path state l = record l {
  base_after = insert path state l.base_after;
  expected_echoes = insert (side, path) state l.expected_echoes;
}

abbrev pub add_completed : Text → Locals → Locals
add_completed path l = record l { completed = add path l.completed }

abbrev pub is_missing_state : FingerprintState → Bool
is_missing_state (entry e) = false
is_missing_state (missing p) = true

-- What an action expects at the side that it deletes from.
abbrev pub delete_expectation : Side → SyncAction → FingerprintState
delete_expectation local a = a.expected_local
delete_expectation remote a = a.expected_remote

abbrev pub delete_expectations :
    Side → List SyncAction → Dict Text FingerprintState → Dict Text FingerprintState
delete_expectations side [] d = d
delete_expectations side (a ∷ actions) d =
    delete_expectations side actions (insert a.path (delete_expectation side a) d)

abbrev pub delete_type : Side → ActionType
delete_type local = delete_local
delete_type remote = delete_remote

abbrev pub option_blob_size : Option (List ℕ) → Option ℤ
option_blob_size none = none
option_blob_size (some blob) = some (pos (length blob))

abbrev pub is_none {ℓ} : {A : Type ℓ} → Option A → Bool
is_none none = true
is_none (some a) = false

-- `_capture_matches`
unfoldable pub capture_matches : FingerprintState → FingerprintState → Bool
capture_matches (entry p) (entry o) =
    entry p == entry o
    || (p.kind == file
        && o.kind == file
        && is_none p.content_hash
        && p.size == o.size
        && p.mtime_ns == o.mtime_ns
        && p.mode == o.mode)
capture_matches planned observed = planned == observed

module _ {W : Type 0} (out : Outside W) where
  abbrev pub file_blob_matches : EntryFingerprint → Option (List ℕ) → Bool
  file_blob_matches e none = false
  file_blob_matches e (some blob) =
      e.size == some (pos (length blob))
      && not (is_none e.content_hash)
      && some (out.sha256 blob) == e.content_hash

  abbrev pub link_blob_matches : EntryFingerprint → Option (List ℕ) → Bool
  link_blob_matches e none = false
  link_blob_matches e (some blob) = some (out.fsdecode blob) == e.link_target

  abbrev pub empty_blob : Option (List ℕ) → Bool
  empty_blob none = true
  empty_blob (some blob) = is_empty blob

  -- `_blob_matches`
  unfoldable pub blob_matches : FingerprintState → Option (List ℕ) → Bool
  blob_matches (missing p) blob = is_none blob
  blob_matches (entry e) blob = elim e.kind [
    | file ↦ file_blob_matches e blob
    | symlink ↦ link_blob_matches e blob
    | dir ↦ empty_blob blob
    | special ↦ empty_blob blob
  ]

  -- `_destination_hashes`
  unfoldable pub destination_hashes : TransferDirection → List Text → Call W Entries
  destination_hashes direction [] = pure []
  destination_hashes push_direction (path ∷ paths) = on_world (out.hash_paths (path ∷ paths))
  destination_hashes pull_direction (path ∷ paths) = do
    base ← on_store list_base
    on_world (out.local_paths (path ∷ paths) true base)

  -- One round over the completed paths of a transfer.
  abbrev pub verify_transfer : Side → Entries → Text → Call W (Unit {0})
  verify_transfer side final path = do
    state ← lift (at_path (lookup path final))
    lift (require (not (is_missing_state state)) runtime_error)
    set_locals (landed side path state)

  abbrev pub reported : Side → List TransferResult × Result TransferResult → Call W TransferResult
  reported side (progress, end) = do set_locals (record_all side progress); lift end

  -- One round of the first loop.
  abbrev pub transfer_actions : TransferDirection → List SyncAction → Call W (Unit {0})
  transfer_actions direction [] = pure tt
  transfer_actions direction (a ∷ actions) = do
    set_locals (begin_attempt (action_keys (destination_side direction) (a ∷ actions)))
    batch ← lift (from_actions (a ∷ actions))
    outcome ← on_world (λ w. let (o, w') = out.transfer batch w in (ok o, w'))
    result ← reported (destination_side direction) outcome
    set_locals (end_transfer (destination_side direction) result)
    final ← destination_hashes direction result.completed
    for_each result.completed (verify_transfer (destination_side direction) final)

  abbrev pub delete_on : Side → Dict Text FingerprintState → Call W TransferResult
  delete_on local expected = on_world (out.delete_local expected)
  delete_on remote expected = on_world (out.delete_remote expected)

  abbrev pub observe_on : Side → List Text → Call W Entries
  observe_on local paths = do base ← on_store list_base; on_world (out.local_paths paths false base)
  observe_on remote paths = on_world (out.metadata_paths paths)

  -- One round over the completed paths of a deletion.
  abbrev pub verify_delete : Side → Entries → Text → Call W (Unit {0})
  verify_delete side observed path = do
    state ← lift (at_path (lookup path observed))
    lift (require (is_missing_state state) runtime_error)
    set_locals (λ l. landed side path (missing (some path)) (add_completed path l))

  -- One round of the second loop.
  abbrev pub delete_actions : Side → List SyncAction → Call W (Unit {0})
  delete_actions side [] = pure tt
  delete_actions side (a ∷ actions) = do
    set_locals (begin_attempt (action_keys side (a ∷ actions)))
    result ← delete_on side (delete_expectations side (a ∷ actions) [])
    set_locals (end_delete side result)
    observed ← observe_on side result.completed
    for_each result.completed (verify_delete side observed)

  -- One round of the loop over the actions that set the base alone.
  abbrev pub update_base_of : SyncAction → Call W (Unit {0})
  update_base_of a =
      if a.type == update_base
      then set_locals (λ l. record (add_completed a.path l) {
        base_after = insert a.path a.base_after l.base_after;
      })
      else pure tt

  abbrev pub Payload : Type 0
  Payload = ConflictDecision × Option (List ℕ) × Option (List ℕ)

  -- An entry with no content on either side is kept as an empty blob.
  abbrev pub kept_blob : Option (List ℕ) → Option (List ℕ) → Option (List ℕ)
  kept_blob none none = some []
  kept_blob l r = l

  -- `_prepare_conflict`
  unfoldable pub prepare_conflict : ConflictDecision → Call W (Option Payload)
  prepare_conflict c = do
    (local_observed, local_blob) ← on_world (out.read_entry c.path)
    remote_blob ← on_world (out.read_path c.path)
    hashes ← on_world (out.hash_paths (c.path ∷ []))
    remote_observed ← lift (at_path (lookup c.path hashes))
    if not (capture_matches c.local_state local_observed)
          || not (capture_matches c.remote_state remote_observed)
          || not (blob_matches local_observed local_blob)
          || not (blob_matches remote_observed remote_blob)
        then pure none
        else (do
          captured ← lift (conflict_decision c.path c.reason local_observed remote_observed)
          pure (some (captured, kept_blob local_blob remote_blob, remote_blob)))

  abbrev pub keep_payload : Text → Option Payload → Locals → Locals
  keep_payload path none l = record l { changed = add path l.changed }
  keep_payload path (some payload) l = record l {
    conflict_payloads = l.conflict_payloads ++ (payload ∷ []);
  }

  abbrev pub capture : ConflictDecision → Call W (Unit {0})
  capture c = do payload ← prepare_conflict c; set_locals (keep_payload c.path payload)

  -- The body of the `try` block.
  unfoldable pub mutate : SyncPlan → Call W (Unit {0})
  mutate plan = do
    transfer_actions push_direction (by_path (of_type push plan.actions))
    transfer_actions pull_direction (by_path (of_type pull plan.actions))
    delete_actions local (deepest_first (of_type delete_local plan.actions))
    delete_actions remote (deepest_first (of_type delete_remote plan.actions))
    for_each plan.actions update_base_of
    for_each plan.conflicts capture
