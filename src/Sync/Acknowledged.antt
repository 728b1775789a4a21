-- ===== src/Sync/Acknowledged.antt =====
-- What the transaction that ends a cycle of src/remote_sandbox/engine.py acknowledges.
use remote_sandbox_cli.Base.{
  ℕ, ◌≡◌, refl, ◌∙◌, ap, Option, Bool, true, false, List, [], ◌∷◌, Text, max, if◌then◌else◌, ◌==◌,
  arith, codes, leb, Bool-cases, inl, inr, eq→path,
}
use remote_sandbox_cli.Base.Dict.{Dict, lookup, insert, lookup-insert}
use remote_sandbox_cli.Base.Result.{ok}
use remote_sandbox_cli.Base.Sets.{is_empty}
use remote_sandbox_cli.Replica.{Side, Side-discrete, side_eq, local, remote}
use remote_sandbox_cli.Journal.{JournalEvent, EventKey}
use remote_sandbox_cli.Reconcile.{SyncPlan}
use remote_sandbox_cli.Status.{WorkspaceStatus}
use remote_sandbox_cli.State.Codec.{Payload}
use remote_sandbox_cli.State.Tables.{ConflictRecord, Db}
use remote_sandbox_cli.State.Events.{acknowledged, or_zero, last_allocated}
use remote_sandbox_cli.State.Acknowledged.{acknowledge_lem}
use remote_sandbox_cli.State.Conflicts.{list_conflicts}
use remote_sandbox_cli.State.Untouched.{list_conflicts-Keeps}
use remote_sandbox_cli.Sync.Machine.{Locals, Machine, pure, on_store}
use remote_sandbox_cli.Sync.Outside.{Outside}
use remote_sandbox_cli.Sync.Sources.{acknowledge_pending, last_event}
use remote_sandbox_cli.Sync.Actions.{Intents}
use remote_sandbox_cli.Sync.Keeps.{Keeps-on_store, Keeps-pure}
use remote_sandbox_cli.Sync.Turns.{Turns, Turns-Keeps, Turns-transaction, Turns-bind}
use remote_sandbox_cli.Sync.Cycle.{set_engine_status-Keeps, commit_changes-Keeps}
use remote_sandbox_cli.Sync.Results.{Echo}
use remote_sandbox_cli.Sync.Commit.{
  acknowledge_if, commit_changes, set_engine_status, final_phase, commit,
}

-- The number of the last event, and 0 when there is none.
abbrev pub through : List JournalEvent → ℕ
through [] = 0
through (e ∷ events) = (last_event e events).sequence

unfoldable pub marks : Db → Dict Side ℕ
marks db = db.watermarks

abbrev pub mark : Side → Dict Side ℕ → ℕ
mark side w = or_zero (lookup side w)

abbrev pub advance : Side → List JournalEvent → Dict Side ℕ → Dict Side ℕ
advance side [] w = w
advance side (e ∷ events) w = insert side (max (mark side w) (last_event e events).sequence) w

abbrev pub advance_if : Bool → List JournalEvent → List JournalEvent → Dict Side ℕ → Dict Side ℕ
advance_if true local_events remote_events w =
    advance remote remote_events (advance local local_events w)
advance_if false local_events remote_events w = w

mark-advance :
    (side s : Side) (events : List JournalEvent) (w : Dict Side ℕ)
    → mark s (advance side events w)
      ≡ (if side == s then max (mark s w) (through events) else mark s w)
mark-advance side s [] w = elim (Bool-cases (side == s)) [
  | inl h ↦ rw h (ground arith)
  | inr h ↦ rw h refl
]
mark-advance side s (e ∷ events) w =
    rw (lookup-insert s side (max (mark side w) (last_event e events).sequence) w)
      (elim (Bool-cases (side == s)) [ inl h ↦ rw (h, eq→path side s h) refl | inr h ↦ rw h refl ])

abbrev pub events_of : Side → List JournalEvent → List JournalEvent → List JournalEvent
events_of local local_events remote_events = local_events
events_of remote local_events remote_events = remote_events

mark-advance_if :
    (b : Bool) (side : Side) (local_events remote_events : List JournalEvent) (w : Dict Side ℕ)
    → mark side (advance_if b local_events remote_events w) ≡ (
        if b
        then max (mark side w) (through (events_of side local_events remote_events))
        else mark side w)
unfolding Side-discrete lookup
mark-advance_if true local l r w =
    mark-advance remote local r (advance local l w) ∙ mark-advance local local l w
mark-advance_if true remote l r w =
    mark-advance remote remote r (advance local l w)
    ∙ ap (λ x. max x (through r)) (mark-advance local remote l w)
mark-advance_if false side l r w = refl

module _ {W : Type 0} (out : Outside W) where
  acknowledge_pending-Turns :
      (side : Side) (events : List JournalEvent)
      → Turns {W = W} marks (advance side events) (on_store (acknowledge_pending side events))
  unfolding on_store acknowledge_pending marks
  acknowledge_pending-Turns side [] s a h = refl
  acknowledge_pending-Turns side (e ∷ events) s a h =
      elim (Bool-cases (leb (last_event e events).sequence (last_allocated s.store.db side))) [
        | inl h₀ ↦ rw (acknowledge_lem side (last_event e events).sequence s.store, h₀) refl
        | inr h₀ ↦ cc (acknowledge_lem side (last_event e events).sequence s.store, h₀, h)
      ]

  acknowledge_if-Turns :
      (b : Bool) (local_events remote_events : List JournalEvent)
      → Turns marks
          (advance_if b local_events remote_events)
          (acknowledge_if out b local_events remote_events)
  acknowledge_if-Turns true l r =
      Turns-bind marks (advance local l) (advance remote r) _ _ (acknowledge_pending-Turns local l)
        (λ u. acknowledge_pending-Turns remote r)
  acknowledge_if-Turns false l r = Turns-Keeps marks (pure tt) (Keeps-pure marks tt)

  base-Blind : (d : Db) (x : Dict Text Payload) → marks (record d { base_entries = x }) ≡ marks d
  unfolding marks
  base-Blind d x = refl

  echoes-Blind :
      (d : Db) (x : Dict EventKey (Payload × ℕ))
      → marks (record d { expected_echoes = x }) ≡ marks d
  unfolding marks
  echoes-Blind d x = refl

  conflicts-Blind :
      (d : Db) (x : List ConflictRecord) → marks (record d { conflicts = x }) ≡ marks d
  unfolding marks
  conflicts-Blind d x = refl

  requeued-Blind :
      (d : Db) (x : Dict Text (Text × ℕ)) → marks (record d { requeued_paths = x }) ≡ marks d
  unfolding marks
  requeued-Blind d x = refl

  status-Blind :
      (d : Db) (x : Option WorkspaceStatus) → marks (record d { workspace_status = x }) ≡ marks d
  unfolding marks
  status-Blind d x = refl

  commit-Turns :
      (plan : SyncPlan) (intents : Intents) (echoes : List Echo)
      (requeued_before deferred : List Text) (local_events remote_events : List JournalEvent)
      (l : Locals)
      → Turns marks
          (advance_if (is_empty l.changed) local_events remote_events)
          (commit out plan intents echoes requeued_before deferred local_events remote_events l)
  unfolding commit
  commit-Turns plan intents echoes requeued_before deferred local_events remote_events l =
      let moved = advance_if (is_empty l.changed) local_events remote_events in
      let changes = commit_changes out plan intents echoes requeued_before deferred l in
      Turns-transaction marks moved _ (
        Turns-bind marks same moved changes _
          (Turns-Keeps marks changes (
            commit_changes-Keeps out marks base-Blind echoes-Blind conflicts-Blind requeued-Blind
              plan intents echoes requeued_before deferred l))
          (λ ids.
            Turns-bind marks moved same _ _
              (acknowledge_if-Turns (is_empty l.changed) local_events remote_events)
              (λ u.
                Turns-bind marks same same (on_store (list_conflicts true)) _
                  (Turns-Keeps marks (on_store (list_conflicts true))
                    (Keeps-on_store marks _ (list_conflicts-Keeps marks true)))
                  (λ unresolved.
                    Turns-bind marks same same
                      (set_engine_status out (final_phase out plan unresolved) (codes "idle")) _
                      (Turns-Keeps marks
                        (set_engine_status out (final_phase out plan unresolved) (codes "idle"))
                        (set_engine_status-Keeps out marks status-Blind _ _))
                      (λ u. Turns-Keeps marks (pure ids) (Keeps-pure marks ids))))))
    where
      same : Dict Side ℕ → Dict Side ℕ
      same w = w

  -- When the transaction that ends a cycle returns, what a side has acknowledged is the larger of
  -- what it was and the number of the last event that the cycle was given of that side, and where
  -- a path changed during the cycle, or no event was given, it is what it was.
  pub commit-acknowledged :
      (plan : SyncPlan) (intents : Intents) (echoes : List Echo)
      (requeued_before deferred : List Text) (local_events remote_events : List JournalEvent)
      (l : Locals) (m : Machine W) (ids : List Text)
      → (commit out plan intents echoes requeued_before deferred local_events remote_events l m).0
        ≡ ok ids
      → (side : Side)
      → let m' =
          (commit out plan intents echoes requeued_before deferred local_events remote_events l
            m).1 in
        acknowledged m'.store.db side ≡ (
          if is_empty l.changed
          then max
              (acknowledged m.store.db side)
              (through (events_of side local_events remote_events))
          else acknowledged m.store.db side)
  unfolding marks
  commit-acknowledged plan intents echoes requeued_before deferred local_events remote_events l m
        ids h side =
      ap (mark side) (
        commit-Turns plan intents echoes requeued_before deferred local_events remote_events l m ids
          h)
      ∙ mark-advance_if (is_empty l.changed) side local_events remote_events m.store.db.watermarks
