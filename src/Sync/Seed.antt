-- ===== src/Sync/Seed.antt =====
-- Seeding the base in the initial synchronisation: `seed_base_from_transfer`, `seed_verified_transfer` and
-- `apply_initial_placeholders` of src/remote_sandbox/engine.py.
use remote_sandbox_cli.Base.{
  Bool, not, Option, none, some, List, [], ◌∷◌, map, ◌==◌, Text, text_eq, all, contains,
}
use remote_sandbox_cli.Base.Dict.{Dict, lookup}
use remote_sandbox_cli.Base.Sets.{is_empty}
use remote_sandbox_cli.Base.Sort.{sort}
use remote_sandbox_cli.Base.Result.{
  Result, ok, err, Error, value_error, key_error, runtime_error, require,
}
use remote_sandbox_cli.Base.Result
use remote_sandbox_cli.Replica.{side_eq, local}
use remote_sandbox_cli.Manifest.{
  EntryFingerprint, FingerprintState, entry, missing, kind_eq, state_eq,
}
use remote_sandbox_cli.Journal.{event_kind_eq}
use remote_sandbox_cli.Reconcile.Plan.{Entries, text_lt, normalized_dirty_paths}
use remote_sandbox_cli.State.Bases.{upsert_base, seed_verified_transfer}
use remote_sandbox_cli.State.Echoes.{set_expected_echo}
use remote_sandbox_cli.Sync.Machine.{Call, lift, on_store, transaction, for_each, ◌>>=◌, ◌>>◌}
use remote_sandbox_cli.Sync.Outside.{Outside, timed}
use remote_sandbox_cli.Sync.Transfer.{TransferDirection, TransferBatch, TransferItem}
use remote_sandbox_cli.Sync.Sources.{source_eq}
use remote_sandbox_cli.Sync.Mutate.{destination_hashes, destination_side}
use remote_sandbox_cli.Sync.Audit.{refresh}

module _ {W : Type 0} (out : Outside W) where
  abbrev pub is_placeholder_at : Text × EntryFingerprint → Bool
  is_placeholder_at (path, e) = e.is_placeholder

  abbrev pub seed_placeholder : EntryFingerprint → Call W (Unit {0})
  seed_placeholder e = do
    on_store (upsert_base e)
    timed out (λ now. set_expected_echo now local (entry e))

  abbrev pub path_le : EntryFingerprint → EntryFingerprint → Bool
  path_le a b = not (text_lt b.path a.path)

  -- `apply_initial_placeholders`, of a mapping.
  unfoldable pub apply_initial_placeholders : Dict Text EntryFingerprint → Call W (Unit {0})
  apply_initial_placeholders placeholders = do
    lift (require (all (λ (path, e). path == e.path) placeholders) value_error)
    lift (require (all (λ row. is_placeholder_at row) placeholders) value_error)
    transaction (for_each (sort path_le (map (λ (_, e). e) placeholders)) seed_placeholder)
    refresh out (map (λ (_, e). e.path) placeholders)

  -- `SyncEngine.seed_verified_transfer`
  unfoldable pub seed_transfer : TransferDirection → List EntryFingerprint → Call W (Unit {0})
  seed_transfer direction entries = do
    lift (require (not (is_empty entries)) value_error)
    timed out (λ now. seed_verified_transfer now (destination_side direction) entries)
    refresh out (map (λ (e : EntryFingerprint). e.path) entries)

  abbrev pub landed_entry : Option FingerprintState → Result EntryFingerprint
  landed_entry none = err key_error
  landed_entry (some (missing p)) = err runtime_error
  landed_entry (some (entry e)) = ok e

  abbrev pub landed_entries : Entries → List Text → Result (List EntryFingerprint)
  landed_entries found [] = ok []
  landed_entries found (path ∷ paths) =
      Result.◌>>=◌ (landed_entry (lookup path found))
        λ e. Result.◌>>=◌ (landed_entries found paths) λ rest. ok (e ∷ rest)

  -- `seed_base_from_transfer`
  unfoldable pub seed_base_from_transfer : TransferBatch → List Text → Call W (Unit {0})
  seed_base_from_transfer batch completed_paths = do
    completed ← lift (normalized_dirty_paths completed_paths)
    lift (
        require
          (all (λ path. contains (map (λ (item : TransferItem). item.path) batch.items) path)
            completed)
          value_error)
    found ← destination_hashes out batch.direction completed
    entries ← lift (landed_entries found completed)
    seed_transfer batch.direction entries
