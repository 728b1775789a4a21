-- ===== src/Sync/Failed.antt =====
-- `_execute_and_commit` of src/remote_sandbox/engine.py, up to the end of its transaction, where it
-- raises.
use remote_sandbox_cli.Base.{ℕ, ◌≡◌, refl, true, List, [], Text}
use remote_sandbox_cli.Base.Dict.{Dict}
use remote_sandbox_cli.Base.Result.{Error, err}
use remote_sandbox_cli.Journal.{JournalEvent, EventKey}
use remote_sandbox_cli.Reconcile.{SyncPlan}
use remote_sandbox_cli.State.Codec.{Payload}
use remote_sandbox_cli.State.Tables.{Db}
use remote_sandbox_cli.State.Untouched.{list_conflicts-Keeps}
use remote_sandbox_cli.Sync.Machine.{Locals, Machine}
use remote_sandbox_cli.Sync.Outside.{Outside}
use remote_sandbox_cli.Sync.Actions.{Intents}
use remote_sandbox_cli.Sync.Keeps.{
  Restores, Keeps-gets, Keeps-on_store, Keeps-set_locals, Keeps-try_except, Keeps-bind, Keeps-pure,
  Restores-transaction, Restores-try_except, Restores-bind, Restores-map,
}
use remote_sandbox_cli.Sync.Quiet.{mutate-Keeps}
use remote_sandbox_cli.Sync.Cycle.{
  commit_expected_echo_intents-Keeps, clear_unused_echo_intents-Keeps, after_failed_mutation-Keeps,
  set_engine_status-Keeps, acknowledge_if-Keeps, commit_changes-Keeps,
}
use remote_sandbox_cli.Sync.Results.{Echo}
use remote_sandbox_cli.Sync.Commit.{commit}
use remote_sandbox_cli.Sync.Execute.{execute}

-- The store but its expected echoes.
unfoldable pub but_echoes : Db → Db
but_echoes db = record db { expected_echoes = [] }

unfoldable nothing : Db → Unit {0}
nothing d = tt

echoes-Blind :
    (d : Db) (x : Dict EventKey (Payload × ℕ))
    → but_echoes (record d { expected_echoes = x }) ≡ but_echoes d
unfolding but_echoes
echoes-Blind d x = refl

module _ {W : Type 0} (out : Outside W) where
  commit-Depth :
      (plan : SyncPlan) (intents : Intents) (echoes : List Echo)
      (requeued_before deferred : List Text) (local_events remote_events : List JournalEvent)
      (l : Locals)
      → Restores but_echoes
          (commit out plan intents echoes requeued_before deferred local_events remote_events l)
  unfolding commit
  commit-Depth plan intents echoes requeued_before deferred local_events remote_events l =
      Restores-transaction but_echoes _ (
        Keeps-bind nothing _ _
          (commit_changes-Keeps out nothing (λ d x. refl) (λ d x. refl) (λ d x. refl) (λ d x. refl)
            plan intents echoes requeued_before deferred l)
          (λ ids.
            Keeps-bind nothing _ _
              (acknowledge_if-Keeps out nothing (λ d x. refl) _ local_events remote_events)
              (λ u.
                Keeps-bind nothing _ _
                  (Keeps-on_store nothing _ (list_conflicts-Keeps nothing true))
                  (λ unresolved.
                    Keeps-bind nothing _ _ (set_engine_status-Keeps out nothing (λ d x. refl) _ _)
                      (λ u. Keeps-pure nothing ids)))))

  -- Where executing and committing a plan raises, for whatever reason, before its transaction or in
  -- it, all that the store holds but the expected echoes is as it was when the execution began: the
  -- base, the conflicts, the requeued paths, the events, the watermarks and the status. The open
  -- transactions are those of before. What a cycle has written before it executes its plan, such as
  -- recorded events and its status, is no part of this and stays.
  pub execute-Restores :
      (plan : SyncPlan) (local_events remote_events : List JournalEvent) (echoes : List Echo)
      (requeued_before : List Text) (m : Machine W) (e : Error)
      → (execute out plan local_events remote_events echoes requeued_before m).0 ≡ err e
      → let m' = (execute out plan local_events remote_events echoes requeued_before m).1 in
        (but_echoes m'.store.db ≡ but_echoes m.store.db)
        × (m'.store.savepoints ≡ m.store.savepoints)
  unfolding execute
  execute-Restores plan local_events remote_events echoes requeued_before m e raised =
      Restores-bind but_echoes _ _ (Keeps-set_locals but_echoes _)
        (λ u.
          Restores-bind but_echoes _ _
            (Keeps-on_store but_echoes _ (list_conflicts-Keeps but_echoes true))
            (λ unresolved.
              Restores-bind but_echoes _ _
                (commit_expected_echo_intents-Keeps out but_echoes echoes-Blind _)
                (λ u.
                  Restores-bind but_echoes _ _
                    (Keeps-try_except but_echoes _ _ (mutate-Keeps out but_echoes _)
                      (λ e. after_failed_mutation-Keeps out but_echoes echoes-Blind _ e))
                    (λ u. Restores-bind but_echoes _ _ (Keeps-gets but_echoes _) (λ l.
                      Restores-map but_echoes _ _ (
                        Restores-try_except but_echoes _ _ (commit-Depth _ _ _ _ _ _ _ l) (λ e.
                          clear_unused_echo_intents-Keeps out but_echoes echoes-Blind _ _)))))))
        m e raised
