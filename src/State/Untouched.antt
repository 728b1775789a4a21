-- ===== src/State/Untouched.antt =====
-- Which tables the methods of src/remote_sandbox/state.py leave alone.
use remote_sandbox_cli.Base.{
  ℕ, ◌≡◌, refl, Bool, not, ◌&&◌, ◌||◌, any, Option, none, some, List, [], Text, text_eq, map, ◌==◌,
  Bool-cases, inl, inr, leb,
}
use remote_sandbox_cli.Base.Dict.{Dict, lookup}
use remote_sandbox_cli.Base.Result.{require, value_error}
use remote_sandbox_cli.Replica.{Side, side_eq}
use remote_sandbox_cli.Paths.{normalize_relative_path}
use remote_sandbox_cli.Manifest.{EntryFingerprint, FingerprintState, state_eq}
use remote_sandbox_cli.Journal.{EventKey, event_key_eq}
use remote_sandbox_cli.Status.{WorkspaceStatus}
use remote_sandbox_cli.Reconcile.Plan.{normalized_dirty_paths}
use remote_sandbox_cli.Sqlite.{pure, transaction}
use remote_sandbox_cli.Sqlite.Keeps.{
  Keeps, Keeps-transaction, Keeps-after, Keeps-bind, Keeps-for_each,
}
use remote_sandbox_cli.State.Codec.{Payload, encode_expected_echo}
use remote_sandbox_cli.State.Tables.{ConflictRecord, Db}
use remote_sandbox_cli.State.Bases.{upsert_base, delete_base, list_base}
use remote_sandbox_cli.State.Echoes.{
  required_path, decode_echo, set_expected_echo, consume_expected_echo, consume_if,
}
use remote_sandbox_cli.State.Conflicts.{
  NewConflict, check_conflict, new_record, create_conflict, insert_conflict,
  resolve_conflicts_for_path, list_conflicts, has_id, is_unresolved, open_at, resolve_open,
  set_conflicts,
}
use remote_sandbox_cli.State.Requeue.{requeue_paths, clear_requeued_paths, list_requeued_paths}
use remote_sandbox_cli.State.Events.{pending_events, acknowledge, last_allocated}
use remote_sandbox_cli.State.Initial.{set_status}

module _ {X : Type 0} (view : Db → X) where
  pub list_base-Keeps : Keeps view list_base
  unfolding list_base
  list_base-Keeps c = (refl, refl)

  pub pending_events-Keeps : (side : Side) (n : ℕ) → Keeps view (pending_events side n)
  unfolding pending_events
  pending_events-Keeps side n c = (refl, refl)

  pub list_conflicts-Keeps : (unresolved_only : Bool) → Keeps view (list_conflicts unresolved_only)
  unfolding list_conflicts
  list_conflicts-Keeps unresolved_only c = (refl, refl)

  pub list_requeued_paths-Keeps : Keeps view list_requeued_paths
  unfolding list_requeued_paths
  list_requeued_paths-Keeps c = (refl, refl)

  pub acknowledge-Keeps :
      ((d : Db) (x : Dict Side ℕ) → view (record d { watermarks = x }) ≡ view d)
      → (side : Side) (n : ℕ) → Keeps view (acknowledge side n)
  unfolding acknowledge
  acknowledge-Keeps blind side n = Keeps-transaction view _ (λ c.
      Keeps-after view (require (leb n (last_allocated c.db side)) value_error) _
        (λ u c. (blind c.db _, refl)) c)

  module _
      (blind : (d : Db) (x : Dict Text Payload)
        → view (record d { base_entries = x }) ≡ view d) where
    pub upsert_base-Keeps : (e : EntryFingerprint) → Keeps view (upsert_base e)
    unfolding upsert_base transaction
    upsert_base-Keeps e c = (blind c.db _, refl)

    pub delete_base-Keeps : (p : Text) → Keeps view (delete_base p)
    unfolding delete_base transaction
    delete_base-Keeps p =
        Keeps-after view (normalize_relative_path p) _ (λ path c. (blind c.db _, refl))

  module _
      (blind : (d : Db) (x : Dict EventKey (Payload × ℕ))
        → view (record d { expected_echoes = x }) ≡ view d) where
    pub set_expected_echo-Keeps :
        (now : ℕ) (side : Side) (s : FingerprintState) → Keeps view (set_expected_echo now side s)
    unfolding set_expected_echo
    set_expected_echo-Keeps now side s = Keeps-after view (required_path s) _ (λ path.
        Keeps-transaction view _
          (Keeps-after view (encode_expected_echo s) _ (λ payload c. (blind c.db _, refl))))

    consume_if-Keeps :
        (side : Side) (path : Text) (s : FingerprintState) (o : Option FingerprintState)
        → Keeps view (consume_if side path s o)
    consume_if-Keeps side path s none c = (refl, refl)
    consume_if-Keeps side path s (some expected) c = elim (Bool-cases (expected == s)) [
      | inl h ↦ rw h (blind c.db _, refl)
      | inr h ↦ rw h (refl, refl)
    ]

    pub consume_expected_echo-Keeps :
        (side : Side) (s : FingerprintState) → Keeps view (consume_expected_echo side s)
    unfolding consume_expected_echo
    consume_expected_echo-Keeps side s = Keeps-after view (required_path s) _ (λ path.
        Keeps-transaction view _ (λ c.
          Keeps-after view (decode_echo path (lookup (side, path) c.db.expected_echoes)) _
            (consume_if-Keeps side path s) c))

  module _
      (blind : (d : Db) (x : List ConflictRecord)
        → view (record d { conflicts = x }) ≡ view d) where
    insert_conflict-Keeps : (r : ConflictRecord) → Keeps view (insert_conflict r)
    unfolding insert_conflict
    insert_conflict-Keeps r c =
        elim (Bool-cases (
          any (has_id r.conflict_id) c.db.conflicts
          || (is_unresolved r && any (open_at r.path) c.db.conflicts))) [
            | inl h ↦ rw h (refl, refl)
            | inr h ↦ rw h (blind c.db _, refl)
          ]

    pub create_conflict-Keeps :
        (now : ℕ) (id : Text) (n : NewConflict) → Keeps view (create_conflict now id n)
    unfolding create_conflict
    create_conflict-Keeps now id n = Keeps-after view (check_conflict n) _ (λ path.
        Keeps-bind view (transaction _) (λ u. pure (new_record now id path n))
          (Keeps-transaction view _ (
            Keeps-bind view (set_conflicts (map (resolve_open now path)))
              (λ u. insert_conflict (new_record now id path n)) (λ c. (blind c.db _, refl))
              (λ u. insert_conflict-Keeps _)))
          (λ u c. (refl, refl)))

    pub resolve_conflicts_for_path-Keeps :
        (now : ℕ) (p : Text) → Keeps view (resolve_conflicts_for_path now p)
    unfolding resolve_conflicts_for_path transaction
    resolve_conflicts_for_path-Keeps now p =
        Keeps-after view (normalize_relative_path p) _ (λ path c. (blind c.db _, refl))

  module _
      (blind : (d : Db) (x : Dict Text (Text × ℕ))
        → view (record d { requeued_paths = x }) ≡ view d) where
    pub requeue_paths-Keeps :
        (now : ℕ) (paths : List Text) (reason : Text) → Keeps view (requeue_paths now paths reason)
    unfolding requeue_paths
    requeue_paths-Keeps now paths reason =
        Keeps-after view (require (not (reason == [])) value_error) _ (λ u.
          Keeps-after view (normalized_dirty_paths paths) _ (λ normalized.
            Keeps-transaction view _
              (Keeps-for_each view normalized _ tt (λ path c. (blind c.db _, refl)))))

    pub clear_requeued_paths-Keeps : (paths : List Text) → Keeps view (clear_requeued_paths paths)
    unfolding clear_requeued_paths
    clear_requeued_paths-Keeps paths =
        Keeps-after view (normalized_dirty_paths paths) _ (λ normalized.
          Keeps-transaction view _
            (Keeps-for_each view normalized _ tt (λ path c. (blind c.db _, refl))))

  pub set_status-Keeps :
      ((d : Db) (x : Option WorkspaceStatus) → view (record d { workspace_status = x }) ≡ view d)
      → (status : WorkspaceStatus) → Keeps view (set_status status)
  unfolding set_status transaction
  set_status-Keeps blind status c = (blind c.db _, refl)
