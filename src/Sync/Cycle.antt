-- ===== src/Sync/Cycle.antt =====
-- What a cycle of src/remote_sandbox/engine.py writes to the store, in front of and in its transaction.
use remote_sandbox_cli.Base.{
  ℕ, ◌≡◌, refl, Bool, true, false, Bool-cases, inl, inr, Option, none, some, List, [], ◌∷◌, Text,
  text_eq, contains,
}
use remote_sandbox_cli.Base.Dict.{Dict}
use remote_sandbox_cli.Base.Result.{Error}
use remote_sandbox_cli.Replica.{Side, local, remote}
use remote_sandbox_cli.Manifest.{FingerprintState, entry, missing}
use remote_sandbox_cli.Journal.{JournalEvent, EventKey, event_key_eq}
use remote_sandbox_cli.Status.{WorkspacePhase, WorkspaceStatus}
use remote_sandbox_cli.Reconcile.{SyncPlan}
use remote_sandbox_cli.State.Codec.{Payload}
use remote_sandbox_cli.State.Tables.{ConflictRecord, Db}
use remote_sandbox_cli.State.Untouched.{
  upsert_base-Keeps, delete_base-Keeps, set_expected_echo-Keeps, consume_expected_echo-Keeps,
  create_conflict-Keeps, resolve_conflicts_for_path-Keeps, requeue_paths-Keeps,
  clear_requeued_paths-Keeps, set_status-Keeps, pending_events-Keeps, list_conflicts-Keeps,
  list_requeued_paths-Keeps, acknowledge-Keeps,
}
use remote_sandbox_cli.State.Echoes.{consume_expected_echo}
use remote_sandbox_cli.Sync.Machine.{Locals, pure, on_store, ◌>>=◌}
use remote_sandbox_cli.Sync.Outside.{Outside}
use remote_sandbox_cli.Sync.Sources.{acknowledge_pending}
use remote_sandbox_cli.Sync.Actions.{Intents}
use remote_sandbox_cli.Sync.Keeps.{
  Keeps, Keeps-pure, Keeps-lift, Keeps-gets, Keeps-on_world, Keeps-on_store, Keeps-transaction,
  Keeps-bind, Keeps-for_each,
}
use remote_sandbox_cli.Sync.Mutate.{at_path}
use remote_sandbox_cli.Sync.Mutate as Conflicting
use remote_sandbox_cli.Sync.Results.{Echo}
use remote_sandbox_cli.Sync.Commit.{
  sync_time, pending_count, set_engine_status, set_echo, commit_expected_echo_intents,
  clear_unused_echo_intents, withdraw, clear_echo_intents, after_failed_mutation, write_base,
  commit_path, consume_echo, consume_if_changed, or_create, commit_conflicts, requeue_some,
  acknowledge_if, commit_changes,
}

module _ {W X : Type 0} (out : Outside W) (view : Db → X) where
  -- The calls that write echoes alone.
  module _
      (echoes-blind : (d : Db) (x : Dict EventKey (Payload × ℕ))
        → view (record d { expected_echoes = x }) ≡ view d) where
    pub set_echo-Keeps : (intent : EventKey × FingerprintState) → Keeps view (set_echo out intent)
    set_echo-Keeps ((side, path), state) =
        Keeps-bind view _ _ (Keeps-on_world view _)
          (λ now. Keeps-on_store view _ (set_expected_echo-Keeps view echoes-blind now side state))

    consume-Keeps :
        (side : Side) (state : FingerprintState)
        → Keeps {W = W} view (on_store (consume_expected_echo side state) >>= λ b. pure tt)
    consume-Keeps side state =
        Keeps-bind view _ _
          (Keeps-on_store view _ (consume_expected_echo-Keeps view echoes-blind side state))
          (λ b. Keeps-pure view tt)

    pub commit_expected_echo_intents-Keeps :
        (intents : Intents) → Keeps view (commit_expected_echo_intents out intents)
    unfolding commit_expected_echo_intents
    commit_expected_echo_intents-Keeps intents =
        Keeps-transaction view _ (Keeps-for_each view _ _ set_echo-Keeps)

    pub clear_unused_echo_intents-Keeps :
        (intents : Intents) (successful : List EventKey)
        → Keeps view (clear_unused_echo_intents out intents successful)
    unfolding clear_unused_echo_intents
    clear_unused_echo_intents-Keeps intents successful = Keeps-transaction view _ (
        Keeps-for_each view intents _ (λ (key, state) s.
          elim (Bool-cases (contains successful key)) [
            | inl h ↦ rw h (Keeps-pure view tt s)
            | inr h ↦ rw h (consume-Keeps key.0 state s)
          ]))

    withdraw-Keeps : (side : Side) (o : Option FingerprintState) → Keeps view (withdraw out side o)
    withdraw-Keeps side none = Keeps-pure view tt
    withdraw-Keeps side (some state) = consume-Keeps side state

    pub after_failed_mutation-Keeps :
        (intents : Intents) (e : Error) → Keeps view (after_failed_mutation out intents e)
    unfolding clear_echo_intents
    after_failed_mutation-Keeps intents e =
        Keeps-bind view _ _ (Keeps-gets view _)
          (λ l. Keeps-transaction view _ (Keeps-for_each view _ _ (λ key. withdraw-Keeps key.0 _)))

    pub consume_echo-Keeps : (echo : Echo) → Keeps view (consume_echo out echo)
    consume_echo-Keeps echo = consume-Keeps echo.side echo.observed

    pub consume_if_changed-Keeps :
        (changed : List Text) (intent : EventKey × FingerprintState)
        → Keeps view (consume_if_changed out changed intent)
    consume_if_changed-Keeps changed ((side, path), state) s =
        elim (Bool-cases (contains changed path)) [
          | inl h ↦ rw h (consume-Keeps side state s)
          | inr h ↦ rw h (Keeps-pure view tt s)
        ]

  sync_time-Keeps : (b : Bool) → Keeps view (sync_time out b)
  sync_time-Keeps true =
      Keeps-bind view _ _ (Keeps-on_world view _) (λ time. Keeps-pure view (some time))
  sync_time-Keeps false = Keeps-pure view none

  pending_count-Keeps : Keeps view (pending_count out)
  unfolding pending_count
  pending_count-Keeps =
      Keeps-bind view _ _ (Keeps-on_store view _ (pending_events-Keeps view local 0)) (λ l.
        Keeps-bind view _ _ (Keeps-on_store view _ (pending_events-Keeps view remote 0)) (λ r.
          Keeps-bind view _ _ (Keeps-on_store view _ (list_requeued_paths-Keeps view))
            (λ q. Keeps-pure view _)))

  pub set_engine_status-Keeps :
      ((d : Db) (x : Option WorkspaceStatus) → view (record d { workspace_status = x }) ≡ view d)
      → (phase : WorkspacePhase) (stage : Text) → Keeps view (set_engine_status out phase stage)
  unfolding set_engine_status
  set_engine_status-Keeps blind phase stage = Keeps-bind view _ _ (Keeps-gets view _) (λ o.
      Keeps-bind view _ _ pending_count-Keeps (λ pending.
        Keeps-bind view _ _ (Keeps-on_store view _ (list_conflicts-Keeps view true)) (λ unresolved.
          Keeps-bind view _ _ (Keeps-lift view _) (λ progress.
            Keeps-bind view _ _ (sync_time-Keeps _)
              (λ time. Keeps-on_store view _ (set_status-Keeps view blind _))))))

  acknowledge_pending-Keeps :
      ((d : Db) (x : Dict Side ℕ) → view (record d { watermarks = x }) ≡ view d)
      → (side : Side) (events : List JournalEvent)
      → Keeps {W = W} view (on_store (acknowledge_pending side events))
  unfolding acknowledge_pending
  acknowledge_pending-Keeps blind side [] = Keeps-on_store view _ (λ c. (refl, refl))
  acknowledge_pending-Keeps blind side (e ∷ events) =
      Keeps-on_store view _ (acknowledge-Keeps view blind side _)

  pub acknowledge_if-Keeps :
      ((d : Db) (x : Dict Side ℕ) → view (record d { watermarks = x }) ≡ view d)
      → (b : Bool) (local_events remote_events : List JournalEvent)
      → Keeps view (acknowledge_if out b local_events remote_events)
  acknowledge_if-Keeps blind false local_events remote_events = Keeps-pure view tt
  acknowledge_if-Keeps blind true local_events remote_events =
      Keeps-bind view _ _ (acknowledge_pending-Keeps blind local local_events)
        (λ u. acknowledge_pending-Keeps blind remote remote_events)

  -- The calls in front of the acknowledgements.
  module _
      (base-blind : (d : Db) (x : Dict Text Payload)
        → view (record d { base_entries = x }) ≡ view d)
      (echoes-blind : (d : Db) (x : Dict EventKey (Payload × ℕ))
        → view (record d { expected_echoes = x }) ≡ view d)
      (conflicts-blind : (d : Db) (x : List ConflictRecord)
        → view (record d { conflicts = x }) ≡ view d)
      (requeued-blind : (d : Db) (x : Dict Text (Text × ℕ))
        → view (record d { requeued_paths = x }) ≡ view d) where
    write_base-Keeps :
        (path : Text) (state : FingerprintState) → Keeps view (write_base out path state)
    write_base-Keeps path (missing p) =
        Keeps-on_store view _ (delete_base-Keeps view base-blind path)
    write_base-Keeps path (entry e) = Keeps-on_store view _ (upsert_base-Keeps view base-blind e)

    commit_path-Keeps :
        (base_after : Dict Text FingerprintState) (path : Text)
        → Keeps view (commit_path out base_after path)
    commit_path-Keeps base_after path = Keeps-bind view _ _ (Keeps-lift view _) (λ state.
        Keeps-bind view _ _ (write_base-Keeps path state) (λ u.
          Keeps-bind view _ _
            (Keeps-bind view _ _ (Keeps-on_world view _) (λ now.
              Keeps-on_store view _
                (resolve_conflicts_for_path-Keeps view conflicts-blind now path)))
            (λ n. Keeps-pure view tt)))

    or_create-Keeps :
        (o : Option ConflictRecord) (payload : Conflicting.Payload out)
        → Keeps view (or_create out o payload)
    or_create-Keeps (some r) payload = Keeps-pure view r
    or_create-Keeps none payload = Keeps-bind view _ _ (Keeps-on_world view _) (λ id.
        Keeps-bind view _ _ (Keeps-on_world view _)
          (λ now. Keeps-on_store view _ (create_conflict-Keeps view conflicts-blind now id _)))

    commit_conflicts-Keeps :
        (payloads : List (Conflicting.Payload out)) → Keeps view (commit_conflicts out payloads)
    commit_conflicts-Keeps [] = Keeps-pure view []
    commit_conflicts-Keeps (payload ∷ payloads) =
        Keeps-bind view _ _ (Keeps-on_store view _ (list_conflicts-Keeps view true)) (λ unresolved.
          Keeps-bind view _ _ (or_create-Keeps _ payload)
            (λ r. Keeps-bind view _ _ (commit_conflicts-Keeps payloads) (λ ids. Keeps-pure view _)))

    requeue_some-Keeps :
        (paths : List Text) (reason : Text) → Keeps view (requeue_some out paths reason)
    requeue_some-Keeps [] reason = Keeps-pure view tt
    requeue_some-Keeps (path ∷ paths) reason = Keeps-bind view _ _ (Keeps-on_world view _) (λ now.
        Keeps-on_store view _ (requeue_paths-Keeps view requeued-blind now (path ∷ paths) reason))

    pub commit_changes-Keeps :
        (plan : SyncPlan) (intents : Intents) (echoes : List Echo)
        (requeued_before deferred : List Text) (l : Locals)
        → Keeps view (commit_changes out plan intents echoes requeued_before deferred l)
    unfolding commit_changes
    commit_changes-Keeps plan intents echoes requeued_before deferred l =
        Keeps-bind view _ _ (Keeps-for_each view _ _ (commit_path-Keeps l.base_after)) (λ u.
          Keeps-bind view _ _ (Keeps-for_each view _ _ (set_echo-Keeps echoes-blind)) (λ u.
            Keeps-bind view _ _ (Keeps-for_each view echoes _ (consume_echo-Keeps echoes-blind))
              (λ u.
                Keeps-bind view _ _
                  (Keeps-for_each view intents _ (consume_if_changed-Keeps echoes-blind l.changed))
                  (λ u. Keeps-bind view _ _ (commit_conflicts-Keeps l.conflict_payloads) (λ ids.
                    Keeps-bind view _ _ (requeue_some-Keeps l.changed _) (λ u.
                      Keeps-bind view _ _ (requeue_some-Keeps deferred _) (λ u.
                        Keeps-bind view _ _
                          (Keeps-on_store view _ (clear_requeued_paths-Keeps view requeued-blind _))
                          (λ u. Keeps-pure view ids))))))))
