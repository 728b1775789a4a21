-- ===== src/Sync/Execute.antt =====
-- `_execute_and_commit` of src/remote_sandbox/engine.py, and the two commits that plan nothing.
use remote_sandbox_cli.Base.{
  ℕ, zero, suc, Bool, true, List, ◌∷◌, map, if◌then◌else◌, Text, text_eq, codes,
}
use remote_sandbox_cli.Base.Sets.{union, is_empty}
use remote_sandbox_cli.Replica.{remote}
use remote_sandbox_cli.Journal.{JournalEvent, event_key_eq}
use remote_sandbox_cli.Status.{ready, phase_eq}
use remote_sandbox_cli.Reconcile.{SyncPlan}
use remote_sandbox_cli.State.Conflicts.{list_conflicts}
use remote_sandbox_cli.State.Events.{acknowledged_sequence}
use remote_sandbox_cli.Sync.Machine.{
  no_locals, Call, pure, gets, on_store, on_world, set_locals, transaction, try_except, for_each,
  ◌>>=◌, ◌>>◌,
}
use remote_sandbox_cli.Sync.Outside.{Outside}
use remote_sandbox_cli.Sync.Sources.{last_event}
use remote_sandbox_cli.Sync.Actions.{
  expected_echo_intents, conflicting_directory_deletes, without_actions,
}
use remote_sandbox_cli.Sync.Mutate.{mutate}
use remote_sandbox_cli.Sync.Results.{Echo, EngineResult, empty_result, option_entry_eq, sorted_set}
use remote_sandbox_cli.Sync.Commit.{
  acknowledge_if, after_failed_mutation, clear_unused_echo_intents, commit,
  commit_expected_echo_intents, consume_echo, set_engine_status,
}

module _ {W : Type 0} (out : Outside W) where
  abbrev pub prune : List Text → SyncPlan → SyncPlan
  prune deferred plan = if is_empty deferred then plan else without_actions deferred plan

  -- `_execute_and_commit` up to the end of its transaction: the deferred deletes and the ids.
  unfoldable pub execute :
      SyncPlan
      → List JournalEvent
      → List JournalEvent
      → List Echo
      → List Text
      → Call W (List Text × List Text)
  execute plan₀ local_events remote_events echoes requeued_before = do
    set_locals (λ _. no_locals)
    unresolved ← on_store (list_conflicts true)
    let deferred = conflicting_directory_deletes plan₀ unresolved
    let plan = prune deferred plan₀
    let intents = expected_echo_intents plan
    commit_expected_echo_intents out intents
    try_except (mutate out plan) (after_failed_mutation out intents)
    l ← gets (λ m. m.locals)
    ids ←
        try_except
          (commit out plan intents echoes requeued_before deferred local_events remote_events l)
          (λ _. clear_unused_echo_intents out intents l.successful_mutations)
    pure (deferred, ids)

  abbrev pub acknowledge_last : Bool → List JournalEvent → Call W (Unit {0})
  acknowledge_last true (e ∷ events) =
      on_world (out.acknowledge (last_event e events).sequence) >> pure tt
  acknowledge_last _ _ = pure tt

  abbrev pub echo_paths : List Echo → List Text
  echo_paths echoes = sorted_set (map (λ (e : Echo). e.path) echoes)

  -- `_execute_and_commit`, where `refresh` is `AuditCoordinator.refresh`.
  unfoldable pub execute_and_commit :
      (List Text → Call W (Unit {0}))
      → SyncPlan
      → List JournalEvent
      → List JournalEvent
      → List Echo
      → List Text
      → Call W EngineResult
  execute_and_commit refresh plan local_events remote_events echoes requeued_before = do
    (deferred, ids) ← execute plan local_events remote_events echoes requeued_before
    l ← gets (λ m. m.locals)
    refresh l.completed
    acknowledge_last (is_empty l.changed) remote_events
    pure (record {
      transferred = sorted_set l.transferred;
      completed = sorted_set l.completed;
      requeued = sorted_set (union l.changed deferred);
      echoes = echo_paths echoes;
      conflict_ids = ids;
      warnings = plan.warnings;
    })

  abbrev pub acknowledge_positive : ℕ → Call W (Unit {0})
  acknowledge_positive zero = pure tt
  acknowledge_positive (suc n) = on_world (out.acknowledge (suc n)) >> pure tt

  -- `_commit_noop`
  unfoldable pub commit_noop : List JournalEvent → List JournalEvent → Call W EngineResult
  commit_noop local_events remote_events = do
    transaction (do
      acknowledge_if out true local_events remote_events
      set_engine_status out ready (codes "idle"))
    sequence ← on_store (acknowledged_sequence remote)
    acknowledge_positive sequence
    pure empty_result

  -- `_commit_echoes`
  unfoldable pub commit_echoes :
      List JournalEvent → List JournalEvent → List Echo → Call W EngineResult
  commit_echoes local_events remote_events echoes = do
    transaction (do
      for_each echoes (consume_echo out)
      acknowledge_if out true local_events remote_events
      set_engine_status out ready (codes "idle"))
    acknowledge_last true remote_events
    pure (record empty_result { echoes = echo_paths echoes })
