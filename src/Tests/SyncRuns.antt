-- ===== src/Tests/SyncRuns.antt =====
-- Cycles of the engine over a world in which nothing can be read, and one that ends well.
use remote_sandbox_cli.Base.{
  false, some, Text, true, Bool, ◌||◌, contains, text_eq, ◌≡◌, refl, none, List, [], ◌∷◌, max,
  ℕ_discrete, Text-discrete, option_text_discrete, option_nat_discrete, split, join,
}
use remote_sandbox_cli.Base.Result.{Result, ok, err, os_error}
use remote_sandbox_cli.Replica.{local, Side-discrete}
use remote_sandbox_cli.Manifest.{
  pos, entry, EntryKind-discrete, option_int_discrete, EntryFingerprint-discrete,
  FingerprintState-discrete, entry_fingerprint, missing_entry,
}
use remote_sandbox_cli.Journal.{
  JournalEvent, modify, journal_event, EventKind-discrete, JournalEvent-discrete, EventKey-discrete,
}
use remote_sandbox_cli.Reconcile.{SyncPlan, empty_plan, push}
use remote_sandbox_cli.Reconcile.Plan.{normalized_dirty_paths, insert_sorted, text_lt}
use remote_sandbox_cli.State.Events.{
  acknowledged, pending_events, pending_rows, acknowledge, last_allocated, max_sequence,
}
use remote_sandbox_cli.State.Conflicts.{list_conflicts, conflict_le}
use remote_sandbox_cli.State.Echoes.{set_expected_echo, consume_expected_echo}
use remote_sandbox_cli.State.Requeue.{list_requeued_paths, clear_requeued_paths}
use remote_sandbox_cli.State.Initial.{set_status}
use remote_sandbox_cli.State.Codec.{
  encode_fingerprint, encode_expected_echo, decode_expected_echo, decode_fingerprint, entry_kind,
}
use remote_sandbox_cli.Status.{sync_progress, WorkspacePhase-discrete}
use remote_sandbox_cli.Paths.{
  normalize_relative_path, nt_isabs, push_component, collapse, initial_slashes, normpath,
}
use remote_sandbox_cli.Base.Dict.{lookup, insert, erase}
use remote_sandbox_cli.Base.Sort.{sort, insort}
use remote_sandbox_cli.Sqlite
use remote_sandbox_cli.Sync.Machine
use remote_sandbox_cli.Sync.Transfer.{
  from_actions, transfer_item, transfer_batch, ActionType-discrete, TransferDirection-discrete,
}
use remote_sandbox_cli.Sync.Sources.{acknowledge_pending}
use remote_sandbox_cli.Sync.Actions.{conflicting_directory_deletes, expected_echo_intents}
use remote_sandbox_cli.Sync.Mutate.{mutate, destination_hashes}
use remote_sandbox_cli.Sync.Machine.{
  Machine, no_locals, try_except, pure, lift, gets, on_store, on_world, set_locals, for_each,
}
use remote_sandbox_cli.Sync.Outside.{Outside, Observations}
use remote_sandbox_cli.Sync.Commit.{
  commit, commit_expected_echo_intents, clear_echo_intents, commit_changes, set_engine_status,
  pending_count,
}
use remote_sandbox_cli.Sync.Execute.{execute}
use remote_sandbox_cli.Sync.Drift.{
  Readings, Drift, no_drift, examine_all, settle_drift, settle_all, side_quick_matches,
  quick_matches_base, option_signature_discrete,
}
use remote_sandbox_cli.Sync.Drifted.{is_verified, settle_drift-verified}
use remote_sandbox_cli.Sync.Failed.{but_echoes, execute-Restores}
use remote_sandbox_cli.Sync.Acknowledged.{commit-acknowledged}
use remote_sandbox_cli.Tests.Inputs.{a_txt, old_file, new_file, event_of, empty_store}

-- Every reader and every transfer fails; the clock works.
abbrev offline : Outside (Unit {0})
offline = record {
  transfer = λ batch w. (([], err os_error), w);
  delete_local = λ d w. (err os_error, w);
  delete_remote = λ d w. (err os_error, w);
  local_paths = λ paths b base w. (err os_error, w);
  metadata_paths = λ paths w. (err os_error, w);
  hash_paths = λ paths w. (err os_error, w);
  local_observations = λ paths base w. (err os_error, w);
  local_snapshot = λ base w. (err os_error, w);
  remote_observations = λ paths w. (err os_error, w);
  remote_snapshot = λ w. (err os_error, w);
  read_entry = λ path w. (err os_error, w);
  read_path = λ path w. (err os_error, w);
  acknowledge = λ n w. (ok n, w);
  events_after = λ n w. (ok [], w);
  now = λ w. (ok 7, w);
  uuid = λ w. (ok a_txt, w);
  sha256 = λ blob. blob;
  fsdecode = λ blob. blob;
}

abbrev start : Machine (Unit {0})
start = record {
  store = record empty_store {
    db = record empty_store.db {
      events = record { event = event_of local 3 modify a_txt; created_at = 1 } ∷ [];
    };
  };
  world = tt;
  status_override = none;
  locals = no_locals;
}

abbrev push_plan : SyncPlan
push_plan = record empty_plan {
  actions =
      record {
        type = push;
        path = a_txt;
        expected_local = entry new_file;
        expected_remote = entry old_file;
        base_after = entry new_file;
      }
      ∷ [];
}

abbrev one_event : List JournalEvent
one_event = event_of local 3 modify a_txt ∷ []

push-raises : (execute offline push_plan one_event [] [] [] start).0 ≡ err os_error
unfolding execute commit list_conflicts conflict_le sort insort conflicting_directory_deletes
    expected_echo_intents commit_expected_echo_intents clear_echo_intents set_expected_echo
    consume_expected_echo mutate lookup insert erase remote_sandbox_cli.Sync.Machine.transaction
    remote_sandbox_cli.Sqlite.transaction try_except pure lift gets on_store on_world set_locals
    remote_sandbox_cli.Sync.Machine.◌>>=◌ for_each encode_fingerprint encode_expected_echo
    decode_expected_echo decode_fingerprint entry_kind commit_changes set_engine_status
    pending_count pending_events pending_rows list_requeued_paths clear_requeued_paths
    acknowledge_pending acknowledge last_allocated max_sequence set_status sync_progress
    normalized_dirty_paths insert_sorted text_lt normalize_relative_path nt_isabs push_component
    collapse initial_slashes normpath split join from_actions transfer_item transfer_batch
    destination_hashes journal_event entry_fingerprint missing_entry Side-discrete
    ActionType-discrete TransferDirection-discrete EventKind-discrete JournalEvent-discrete
    EventKey-discrete WorkspacePhase-discrete EntryKind-discrete EntryFingerprint-discrete
    FingerprintState-discrete option_int_discrete ℕ_discrete Text-discrete option_text_discrete
    option_nat_discrete
push-raises = refl

execute-Restores_example :
    let m' = (execute offline push_plan one_event [] [] [] start).1 in
    (but_echoes m'.store.db ≡ but_echoes start.store.db) × (m'.store.savepoints ≡ [])
execute-Restores_example =
    execute-Restores offline push_plan one_event [] [] [] start os_error push-raises

commit_returns : (commit offline empty_plan [] [] [] [] one_event [] no_locals start).0 ≡ ok []
unfolding execute commit list_conflicts conflict_le sort insort conflicting_directory_deletes
    expected_echo_intents commit_expected_echo_intents clear_echo_intents set_expected_echo
    consume_expected_echo mutate lookup insert erase remote_sandbox_cli.Sync.Machine.transaction
    remote_sandbox_cli.Sqlite.transaction try_except pure lift gets on_store on_world set_locals
    remote_sandbox_cli.Sync.Machine.◌>>=◌ for_each encode_fingerprint encode_expected_echo
    decode_expected_echo decode_fingerprint entry_kind commit_changes set_engine_status
    pending_count pending_events pending_rows list_requeued_paths clear_requeued_paths
    acknowledge_pending acknowledge last_allocated max_sequence set_status sync_progress
    normalized_dirty_paths insert_sorted text_lt normalize_relative_path nt_isabs push_component
    collapse initial_slashes normpath split join from_actions transfer_item transfer_batch
    destination_hashes journal_event entry_fingerprint missing_entry Side-discrete
    ActionType-discrete TransferDirection-discrete EventKind-discrete JournalEvent-discrete
    EventKey-discrete WorkspacePhase-discrete EntryKind-discrete EntryFingerprint-discrete
    FingerprintState-discrete option_int_discrete ℕ_discrete Text-discrete option_text_discrete
    option_nat_discrete
commit_returns = refl

commit-acknowledged_example :
    acknowledged
      (commit offline empty_plan [] [] [] [] one_event [] no_locals start).1.store.db
      local
    ≡ max (acknowledged start.store.db local) 3
commit-acknowledged_example =
    commit-acknowledged offline empty_plan [] [] [] [] one_event [] no_locals start []
      commit_returns local

-- The local file has another modification time than the base.
abbrev touched : Readings
touched = record {
  base = (a_txt, old_file) ∷ [];
  local_entries = (a_txt, record old_file { mtime_ns = some (pos 8) }) ∷ [];
  remote_entries = (a_txt, old_file) ∷ [];
  local_signatures = [];
  remote_signatures = [];
  stored_local = [];
  stored_remote = [];
}

abbrev unread : Observations
unread = ([], [])

abbrev no_ignore : Text → Result Bool
no_ignore path = ok false

abbrev findings : Drift
findings = record no_drift { dirty = a_txt ∷ []; remote_updates = (a_txt, none) ∷ [] }

examined : examine_all touched no_ignore (a_txt ∷ []) no_drift ≡ ok findings
unfolding examine_all side_quick_matches quick_matches_base lookup insert option_signature_discrete
    EntryKind-discrete EntryFingerprint-discrete FingerprintState-discrete option_int_discrete
    ℕ_discrete Text-discrete option_text_discrete option_nat_discrete
examined = refl

settled : settle_drift touched.base unread unread findings ≡ ok (a_txt ∷ [], [], (a_txt, none) ∷ [])
unfolding settle_drift settle_all
settled = refl

listed : contains (a_txt ∷ []) a_txt ≡ true
unfolding Text-discrete
listed = refl

settle_drift-verified_example :
    (contains (a_txt ∷ []) a_txt || is_verified touched unread unread a_txt) ≡ true
settle_drift-verified_example =
    settle_drift-verified touched unread unread no_ignore (a_txt ∷ []) findings
      (a_txt ∷ [], [], (a_txt, none) ∷ []) a_txt examined settled listed refl
