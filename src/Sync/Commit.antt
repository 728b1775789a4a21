-- ===== src/Sync/Commit.antt =====
-- The transaction that ends a cycle of src/remote_sandbox/engine.py, with its echoes and its status.
use remote_sandbox_cli.Base.{
  ℕ, Bool, true, false, not, ◌||◌, Option, none, some, List, [], ◌∷◌, if◌then◌else◌, Text, text_eq,
  codes, contains, length, ◌+◌,
}
use remote_sandbox_cli.Base.Dict.{Dict, lookup}
use remote_sandbox_cli.Base.Sets.{is_empty}
use remote_sandbox_cli.Base.Sort.{sort}
use remote_sandbox_cli.Base.Result.{Error}
use remote_sandbox_cli.Replica.{Side, local, remote}
use remote_sandbox_cli.Manifest.{FingerprintState, entry, missing}
use remote_sandbox_cli.Journal.{JournalEvent, EventKey, event_key_eq}
use remote_sandbox_cli.Status.{WorkspacePhase, sync_progress, ready, degraded, phase_eq}
use remote_sandbox_cli.Reconcile.{SyncPlan}
use remote_sandbox_cli.State.Tables.{ConflictRecord}
use remote_sandbox_cli.State.Bases.{upsert_base, delete_base}
use remote_sandbox_cli.State.Echoes.{set_expected_echo, consume_expected_echo}
use remote_sandbox_cli.State.Conflicts.{
  NewConflict, create_conflict, list_conflicts, resolve_conflicts_for_path,
}
use remote_sandbox_cli.State.Events.{pending_events}
use remote_sandbox_cli.State.Requeue.{requeue_paths, clear_requeued_paths, list_requeued_paths}
use remote_sandbox_cli.State.Initial.{set_status}
use remote_sandbox_cli.Sync.Machine.{
  Locals, Call, pure, lift, gets, on_store, on_world, transaction, for_each, ◌>>=◌, ◌>>◌,
}
use remote_sandbox_cli.Sync.Outside.{Outside, timed}
use remote_sandbox_cli.Sync.Sources.{acknowledge_pending}
use remote_sandbox_cli.Sync.Actions.{Intents, key_le, entry_or_none}
use remote_sandbox_cli.Sync.Mutate.{Payload, at_path}
use remote_sandbox_cli.Sync.Results.{
  Echo, clearable, find_record, is_settled, option_entry_eq, progress_of, sorted_set,
  unused_intents,
}

module _ {W : Type 0} (out : Outside W) where
  -- `_set_status`
  abbrev pub overridden :
      Option (WorkspacePhase × Text) → WorkspacePhase → Text → WorkspacePhase × Text
  overridden none phase stage = (phase, stage)
  overridden (some o) phase stage = o

  abbrev pub sync_time : Bool → Call W (Option ℕ)
  sync_time true = do time ← on_world out.now; pure (some time)
  sync_time false = pure none

  -- The number of pending events and requeued paths.
  unfoldable pub pending_count : Call W ℕ
  pending_count = do
    local_pending ← on_store (pending_events local 0)
    remote_pending ← on_store (pending_events remote 0)
    requeued ← on_store list_requeued_paths
    pure (length local_pending + length remote_pending + length requeued)

  unfoldable pub set_engine_status : WorkspacePhase → Text → Call W (Unit {0})
  set_engine_status phase₀ stage₀ = do
    override ← gets (λ m. m.status_override)
    let (phase, stage) = overridden override phase₀ stage₀
    pending ← pending_count
    unresolved ← on_store (list_conflicts true)
    progress ← lift (sync_progress (progress_of stage))
    last_sync_at ← sync_time (is_settled phase)
    on_store (
        set_status (record {
          phase = phase;
          progress = progress;
          pending = pending;
          conflicts = length unresolved;
          last_error = none;
          last_sync_at = last_sync_at;
        }))

  abbrev pub set_echo : EventKey × FingerprintState → Call W (Unit {0})
  set_echo ((side, _), state) = timed out (λ now. set_expected_echo now side state)

  -- `_commit_expected_echo_intents`
  unfoldable pub commit_expected_echo_intents : Intents → Call W (Unit {0})
  commit_expected_echo_intents intents = transaction (for_each (sort key_le intents) set_echo)

  abbrev pub withdraw_unless : List EventKey → EventKey × FingerprintState → Call W (Unit {0})
  withdraw_unless successful (key, state) =
      if contains successful key
      then pure tt
      else (on_store (consume_expected_echo key.0 state) >> pure tt)

  -- `_clear_unused_echo_intents`
  unfoldable pub clear_unused_echo_intents : Intents → List EventKey → Call W (Unit {0})
  clear_unused_echo_intents intents successful =
      transaction (for_each intents (withdraw_unless successful))

  abbrev pub withdraw : Side → Option FingerprintState → Call W (Unit {0})
  withdraw side none = pure tt
  withdraw side (some state) = on_store (consume_expected_echo side state) >> pure tt

  -- `_clear_echo_intents`
  unfoldable pub clear_echo_intents : Intents → List EventKey → Call W (Unit {0})
  clear_echo_intents intents selected =
      transaction (for_each selected (λ key. withdraw key.0 (lookup key intents)))

  -- The `except` block behind the mutations.
  abbrev pub after_failed_mutation : Intents → Error → Call W (Unit {0})
  after_failed_mutation intents e = do
    l ← gets (λ m. m.locals)
    clear_echo_intents intents (unused_intents e intents l)

  abbrev pub write_base : Text → FingerprintState → Call W (Unit {0})
  write_base path (missing p) = on_store (delete_base path)
  write_base path (entry e) = on_store (upsert_base e)

  -- One round of the loop over the completed paths.
  abbrev pub commit_path : Dict Text FingerprintState → Text → Call W (Unit {0})
  commit_path base_after path = do
    state ← lift (at_path (lookup path base_after))
    write_base path state
    timed out (λ now. resolve_conflicts_for_path now path)
    pure tt

  abbrev pub consume_echo : Echo → Call W (Unit {0})
  consume_echo echo = on_store (consume_expected_echo echo.side echo.observed) >> pure tt

  abbrev pub consume_if_changed : List Text → EventKey × FingerprintState → Call W (Unit {0})
  consume_if_changed changed ((side, path), state) =
      if contains changed path
      then (on_store (consume_expected_echo side state) >> pure tt)
      else pure tt

  abbrev pub new_conflict : Payload out → NewConflict
  new_conflict (c, local_blob, remote_blob) = record {
    path = c.path;
    reason = c.reason;
    local_blob = local_blob;
    remote_blob = remote_blob;
    local_fingerprint = entry_or_none c.local_state;
    remote_fingerprint = entry_or_none c.remote_state;
  }

  abbrev pub or_create : Option ConflictRecord → Payload out → Call W ConflictRecord
  or_create (some r) payload = pure r
  or_create none payload = do
    id ← on_world out.uuid
    timed out (λ now. create_conflict now id (new_conflict payload))

  -- The loop over the prepared conflicts; the result is `conflict_ids`.
  abbrev pub commit_conflicts : List (Payload out) → Call W (List Text)
  commit_conflicts [] = pure []
  commit_conflicts (payload ∷ payloads) = do
    unresolved ← on_store (list_conflicts true)
    r ← or_create (find_record payload.0 unresolved) payload
    ids ← commit_conflicts payloads
    pure (r.conflict_id ∷ ids)

  -- `if paths: self.store.requeue_paths(paths, reason)`
  abbrev pub requeue_some : List Text → Text → Call W (Unit {0})
  requeue_some [] reason = pure tt
  requeue_some (path ∷ paths) reason = timed out (λ now. requeue_paths now (path ∷ paths) reason)

  -- `if acknowledge_events: …`
  abbrev pub acknowledge_if : Bool → List JournalEvent → List JournalEvent → Call W (Unit {0})
  acknowledge_if false local_events remote_events = pure tt
  acknowledge_if true local_events remote_events = do
    on_store (acknowledge_pending local local_events)
    on_store (acknowledge_pending remote remote_events)

  -- The part of the transaction in front of the acknowledgements.
  unfoldable pub commit_changes :
      SyncPlan → Intents → List Echo → List Text → List Text → Locals → Call W (List Text)
  commit_changes plan intents echoes requeued_before deferred l = do
    for_each (sorted_set l.completed) (commit_path l.base_after)
    for_each (sort key_le l.expected_echoes) set_echo
    for_each echoes consume_echo
    for_each intents (consume_if_changed l.changed)
    ids ← commit_conflicts l.conflict_payloads
    requeue_some l.changed (codes "changed-during-transfer")
    requeue_some deferred (codes "descendant-conflict")
    on_store (clear_requeued_paths (clearable plan requeued_before deferred l))
    pure ids

  abbrev pub final_phase : SyncPlan → List ConflictRecord → WorkspacePhase
  final_phase plan unresolved =
      if not (is_empty plan.conflicts) || not (is_empty plan.warnings) || not (is_empty unresolved)
      then degraded
      else ready

  -- The transaction that ends a cycle.
  unfoldable pub commit :
      SyncPlan
      → Intents
      → List Echo
      → List Text
      → List Text
      → List JournalEvent
      → List JournalEvent
      → Locals
      → Call W (List Text)
  commit plan intents echoes requeued_before deferred local_events remote_events l = transaction (do
    ids ← commit_changes plan intents echoes requeued_before deferred l
    acknowledge_if (is_empty l.changed) local_events remote_events
    unresolved ← on_store (list_conflicts true)
    set_engine_status (final_phase plan unresolved) (codes "idle")
    pure ids)
