-- ===== src/Sync/Run.antt =====
-- `SyncEngine.run_once` and `SyncEngine.audit` of src/remote_sandbox/engine.py, with what a cycle reads
-- before it plans.
use remote_sandbox_cli.Base.{
  Bool, true, false, ◌||◌, Option, none, some, List, [], ◌∷◌, ◌++◌, if◌then◌else◌, ◌==◌, Text,
  text_eq, codes, any, contains, length,
}
use remote_sandbox_cli.Base.Dict.{Dict, lookup}
use remote_sandbox_cli.Base.Result.{
  Result, ok, err, Error, value_error, key_error, runtime_error, require,
}
use remote_sandbox_cli.Base.Result
use remote_sandbox_cli.Replica.{Side, side_eq, local, remote}
use remote_sandbox_cli.Manifest.{
  EntryFingerprint, FingerprintState, entry, missing, kind_eq, state_eq,
}
use remote_sandbox_cli.Journal.{JournalEvent, coalesce_events, move, rescan_required, event_kind_eq}
use remote_sandbox_cli.Status.{WorkspacePhase, sync_progress, syncing, degraded, initial_syncing}
use remote_sandbox_cli.Reconcile.{SyncPlan}
use remote_sandbox_cli.Reconcile.Plan.{Entries, build_incremental_plan}
use remote_sandbox_cli.Engine.{
  update, satisfy_hash_requests, strengthen_deletion_targets, strengthen_requeued_files,
}
use remote_sandbox_cli.State.Bases.{list_base}
use remote_sandbox_cli.State.Echoes.{get_expected_echo}
use remote_sandbox_cli.State.Conflicts.{list_conflicts}
use remote_sandbox_cli.State.Events.{record_events, pending_events, acknowledged_sequence}
use remote_sandbox_cli.State.Requeue.{list_requeued_paths}
use remote_sandbox_cli.State.Initial.{set_status}
use remote_sandbox_cli.Sync.Machine.{
  Machine, Call, pure, lift, gets, on_store, on_world, ◌>>=◌, ◌>>◌,
}
use remote_sandbox_cli.Sync.Outside.{Outside, timed}
use remote_sandbox_cli.Sync.Sources.{
  Sources, source_eq, dirty_sources, contains_rescan, sorted_paths,
}
use remote_sandbox_cli.Sync.Results.{EngineResult, Echo, sorted_set, progress_of}
use remote_sandbox_cli.Sync.Commit.{pending_count, set_engine_status}
use remote_sandbox_cli.Sync.Execute.{execute_and_commit, commit_noop, commit_echoes}
use remote_sandbox_cli.Sync.Audit.{record_drift, refresh}
use remote_sandbox_cli.Sync.Gather.{
  Candidate, is_dir_state, is_dir_entry, moves_of, destinations, file_candidates, matching,
  discard_echoes, add_conflicts, restrict, requeued_among, base_states,
}

module _ {W : Type 0} (out : Outside W) where
  abbrev pub metadata_if : Side → List Text → Dict Text EntryFingerprint → Call W Entries
  metadata_if side [] base = pure []
  metadata_if local (path ∷ paths) base = on_world (out.local_paths (path ∷ paths) false base)
  metadata_if remote (path ∷ paths) base = on_world (out.metadata_paths (path ∷ paths))

  abbrev pub hashes_if : Side → List Text → Entries → Call W Entries
  hashes_if side [] entries = pure entries
  hashes_if local (path ∷ paths) entries = do
    base ← on_store list_base
    fresh ← on_world (out.local_paths (path ∷ paths) true base)
    pure (update entries fresh)
  hashes_if remote (path ∷ paths) entries = do
    fresh ← on_world (out.hash_paths (path ∷ paths))
    pure (update entries fresh)

  abbrev pub moves_need_audit : List JournalEvent → Call W Bool
  moves_need_audit [] = pure false
  moves_need_audit (e ∷ events) = do
    base ← on_store list_base
    if any (λ (x : JournalEvent). is_dir_entry (lookup x.path base)) (e ∷ events)
        then pure true
        else (do
          l ← metadata_if local (sorted_set (destinations local (e ∷ events))) base
          r ← metadata_if remote (sorted_set (destinations remote (e ∷ events))) base
          pure (
              any (λ (_, state). is_dir_state state) l || any (λ (_, state). is_dir_state state) r))

  -- `_directory_move_requires_audit`
  unfoldable pub directory_move_requires_audit : List JournalEvent → List JournalEvent → Call W Bool
  directory_move_requires_audit local_events remote_events = do
    events ← lift (coalesce_events (local_events ++ remote_events))
    moves_need_audit (moves_of events)

  abbrev pub push_candidate :
      JournalEvent → Option FingerprintState → List Candidate → List Candidate
  push_candidate e none rest = rest
  push_candidate e (some expected) rest = (e.side, e.path, expected) ∷ rest

  abbrev pub candidates : List Text → List JournalEvent → Call W (List Candidate)
  candidates requeued [] = pure []
  candidates requeued (e ∷ events) =
      if e.kind == move || e.kind == rescan_required || contains requeued e.path
      then candidates requeued events
      else (do
        expected ← on_store (get_expected_echo e.side e.path)
        rest ← candidates requeued events
        pure (push_candidate e expected rest))

  -- `_matching_echoes`, and the entries that it has hashed.
  unfoldable pub matching_echoes :
      List JournalEvent
      → List JournalEvent
      → Entries
      → Entries
      → List Text
      → Call W (List Echo × Entries × Entries)
  matching_echoes local_events remote_events l r requeued = do
    events ← lift (coalesce_events (local_events ++ remote_events))
    found ← candidates requeued events
    l' ← hashes_if local (sorted_set (file_candidates local found)) l
    r' ← hashes_if remote (sorted_set (file_candidates remote found)) r
    echoes ← lift (matching found l' r')
    pure (echoes, l', r')

  module _ (is_ignored : Text → Result Bool) where
    abbrev pub local_hasher : W → Entries → List Text → Result Entries
    local_hasher w base paths = (out.local_paths paths true (entries_of base) w).0
      where
        entries_of : Entries → Dict Text EntryFingerprint
        entries_of [] = []
        entries_of ((path, entry e) ∷ rows) = (path, e) ∷ entries_of rows
        entries_of ((path, missing p) ∷ rows) = entries_of rows

    abbrev pub remote_hasher : W → List Text → Result Entries
    remote_hasher w paths = (out.hash_paths paths w).0

    -- The planning, with reads that see the outside as it is at its start.
    unfoldable pub planned :
        W → Entries → Entries → Entries → List Text → List Text → Result SyncPlan
    planned w base l r dirty requeued = Result.◌>>=◌ (restrict l dirty) λ l.
        Result.◌>>=◌ (restrict r dirty) λ r.
          Result.◌>>=◌
            (strengthen_requeued_files is_ignored (local_hasher w) (remote_hasher w) base l r
              (requeued_among requeued dirty))
            λ (l, r). Result.◌>>=◌ (build_incremental_plan is_ignored base l r dirty) λ plan.
              Result.◌>>=◌
                (satisfy_hash_requests is_ignored (local_hasher w) (remote_hasher w) plan base l r
                  dirty)
                λ (plan, l, r).
                  Result.◌>>=◌
                    (strengthen_deletion_targets is_ignored (local_hasher w) (remote_hasher w) plan
                      base l r dirty)
                    λ (plan, l, r). ok plan

    abbrev pub audit_if : Bool → Call W (Unit {0})
    audit_if true = record_drift out is_ignored
    audit_if false = pure tt

    abbrev pub needs_audit : Bool → List JournalEvent → List JournalEvent → Call W Bool
    needs_audit true local_events remote_events = pure true
    needs_audit false local_events remote_events =
        directory_move_requires_audit local_events remote_events

    abbrev pub conflict_sources : Bool → Sources → Call W Sources
    conflict_sources true sources = pure sources
    conflict_sources false sources = do
      unresolved ← on_store (list_conflicts true)
      pure (add_conflicts unresolved sources)

    -- From the planning on.
    abbrev pub reconcile_dirty :
        List JournalEvent
        → List JournalEvent
        → List Text
        → Dict Text EntryFingerprint
        → List Echo
        → Entries
        → Entries
        → List Text
        → Call W EngineResult
    reconcile_dirty local_events remote_events requeued base echoes l r [] =
        commit_echoes out local_events remote_events echoes
    reconcile_dirty local_events remote_events requeued base echoes l r (path ∷ paths) = do
      set_engine_status out syncing (codes "collecting")
      world ← gets (λ m. m.world)
      plan ← lift (planned world (base_states base) l r (path ∷ paths) requeued)
      execute_and_commit out (refresh out) plan local_events remote_events echoes requeued

    abbrev pub reconcile :
        List JournalEvent
        → List JournalEvent
        → List Text
        → Sources
        → List Text
        → Call W EngineResult
    reconcile local_events remote_events requeued sources [] =
        commit_noop out local_events remote_events
    reconcile local_events remote_events requeued sources (path ∷ paths) = do
      base ← on_store list_base
      l ← on_world (out.local_paths (path ∷ paths) false base)
      r ← on_world (out.metadata_paths (path ∷ paths))
      (echoes, l', r') ← matching_echoes local_events remote_events l r requeued
      reconcile_dirty local_events remote_events requeued base echoes l' r'
          (sorted_paths (discard_echoes echoes sources))

    -- `_run_once`
    unfoldable pub run_cycle : Text → Call W EngineResult
    run_cycle reason = do
      remote_after ← on_store (acknowledged_sequence remote)
      imported ← on_world (out.events_after remote_after)
      timed out (λ now. record_events now imported)
      local_after ← on_store (acknowledged_sequence local)
      local_events ← on_store (pending_events local local_after)
      remote_events ← on_store (pending_events remote remote_after)
      audit ← needs_audit (contains_rescan local_events remote_events) local_events remote_events
      audit_if audit
      requeued ← on_store list_requeued_paths
      found ← lift (dirty_sources local_events remote_events requeued)
      sources ← conflict_sources (reason == codes "initial-replay") found
      reconcile local_events remote_events requeued sources (sorted_paths sources)

    abbrev pub override_for : Text → Option (WorkspacePhase × Text) → Option (WorkspacePhase × Text)
    override_for reason previous =
        if reason == codes "initial-replay"
        then some (initial_syncing, codes "replaying")
        else previous

    -- `_record_error`: what it raises is dropped. `message` is `str(exc)`.
    abbrev pub record_error : (Error → Text) → Error → Call W (Unit {0})
    record_error message e = do
      pending ← pending_count out
      unresolved ← on_store (list_conflicts true)
      progress ← lift (sync_progress (progress_of (codes "error")))
      on_store (
          set_status (record {
            phase = degraded;
            progress = progress;
            pending = pending;
            conflicts = length unresolved;
            last_error = some (message e);
            last_sync_at = none;
          }))

    abbrev pub set_override : Option (WorkspacePhase × Text) → Machine W → Machine W
    set_override override m = record m { status_override = override }

    abbrev pub after_run :
        (Error → Text)
        → Option (WorkspacePhase × Text)
        → Result EngineResult
        → Machine W
        → Result EngineResult × Machine W
    after_run message previous (ok result) m = (ok result, set_override previous m)
    after_run message previous (err e) m =
        (err e, set_override previous (record_error message e m).1)

    -- `run_once`
    unfoldable pub run_once : (Error → Text) → Text → Call W EngineResult
    run_once message [] m = (err value_error, m)
    run_once message (c ∷ reason) m =
        let (result, m') =
          run_cycle (c ∷ reason) (set_override (override_for (c ∷ reason) m.status_override) m) in
        after_run message m.status_override result m'

    -- `audit`
    unfoldable pub audit : (Error → Text) → Call W EngineResult
    audit message = record_drift out is_ignored >> run_once message (codes "audit")
