-- ===== src/Sync/Audit.antt =====
-- `AuditCoordinator` of src/remote_sandbox/_engine_audit.py.
use remote_sandbox_cli.Base.{Bool, List, [], ◌∷◌, Text, text_eq, codes}
use remote_sandbox_cli.Base.Dict.{Dict}
use remote_sandbox_cli.Base.Sets.{union}
use remote_sandbox_cli.Base.Result.{Result}
use remote_sandbox_cli.Replica.{local, remote}
use remote_sandbox_cli.Manifest.{EntryFingerprint}
use remote_sandbox_cli.State.Bases.{list_base}
use remote_sandbox_cli.State.Requeue.{requeue_paths, list_audit_signatures, update_audit_signatures}
use remote_sandbox_cli.Sync.Machine.{Call, pure, lift, on_store, on_world, transaction, ◌>>=◌, ◌>>◌}
use remote_sandbox_cli.Sync.Outside.{Outside, Observations, timed}
use remote_sandbox_cli.Sync.Sources.{sorted_paths}
use remote_sandbox_cli.Sync.Results.{sorted_set}
use remote_sandbox_cli.Sync.Drift.{
  Signatures, Readings, no_drift, examine_all, settle_drift, note_all,
}

module _ {W : Type 0} (out : Outside W) where
  abbrev requeue_dirty : List Text → Text → Call W (Unit {0})
  requeue_dirty [] reason = pure tt
  requeue_dirty (path ∷ paths) reason = timed out (λ now. requeue_paths now (path ∷ paths) reason)

  -- The transaction at the end of both methods.
  unfoldable pub store_drift : Text → List Text × Signatures × Signatures → Call W (Unit {0})
  store_drift reason (dirty, local_updates, remote_updates) = transaction (do
    on_store (update_audit_signatures local local_updates)
    on_store (update_audit_signatures remote remote_updates)
    requeue_dirty dirty reason)

  abbrev observe_local : List Text → Dict Text EntryFingerprint → Call W Observations
  observe_local [] base = pure ([], [])
  observe_local (path ∷ paths) base = on_world (out.local_observations (path ∷ paths) base)

  abbrev observe_remote : List Text → Call W Observations
  observe_remote [] = pure ([], [])
  observe_remote (path ∷ paths) = on_world (out.remote_observations (path ∷ paths))

  -- `AuditCoordinator.record_drift`
  unfoldable pub record_drift : (Text → Result Bool) → Call W (Unit {0})
  record_drift is_ignored = do
    base ← on_store list_base
    (local_entries, local_signatures) ← on_world (out.local_snapshot base)
    (remote_entries, remote_signatures) ← on_world out.remote_snapshot
    stored_local ← on_store (list_audit_signatures local)
    stored_remote ← on_store (list_audit_signatures remote)
    let readings : Readings = record {
      base = base;
      local_entries = local_entries;
      remote_entries = remote_entries;
      local_signatures = local_signatures;
      remote_signatures = remote_signatures;
      stored_local = stored_local;
      stored_remote = stored_remote;
    }
    let paths = sorted_set (
        union
          (union
            (union (union (sorted_paths base) (sorted_paths local_entries))
              (sorted_paths remote_entries))
            (sorted_paths stored_local))
          (sorted_paths stored_remote))
    d ← lift (examine_all readings is_ignored paths no_drift)
    l ← observe_local d.ambiguous_local base
    r ← observe_remote d.ambiguous_remote
    found ← lift (settle_drift base l r d)
    store_drift (codes "audit-drift") found

  abbrev refresh_some : List Text → Call W (Unit {0})
  refresh_some [] = pure tt
  refresh_some (path ∷ paths) = do
    base ← on_store list_base
    l ← on_world (out.local_observations (path ∷ paths) base)
    r ← on_world (out.remote_observations (path ∷ paths))
    found ← lift (note_all base l r (path ∷ paths) ([], [], []))
    store_drift (codes "signature-refresh-mismatch") found

  -- `AuditCoordinator.refresh`
  unfoldable pub refresh : List Text → Call W (Unit {0})
  refresh paths = refresh_some (sorted_set (union [] paths))
