-- ===== src/Tests/StoreRuns.antt =====
-- The store of a workspace, from the empty one.
use remote_sandbox_cli.Base.{
  ◌+◌, ℕ_discrete, Text-discrete, text_eq, ◌≡◌, refl, Bool, true, false, none, some, List, [], ◌∷◌,
  All, codes, split, join, if◌then◌else◌, ◌==◌, leb, any,
}
use remote_sandbox_cli.Base.Dict.{lookup}
use remote_sandbox_cli.Base.Sort.{IsSorted}
use remote_sandbox_cli.Base.Result.{Result, ok, err, value_error, integrity_error}
use remote_sandbox_cli.Paths.{
  normalize_relative_path, nt_isabs, push_component, collapse, initial_slashes, normpath,
}
use remote_sandbox_cli.Replica.{local, Side-discrete, side_eq}
use remote_sandbox_cli.Manifest.{entry, missing_entry, entry_fingerprint, state_eq}
use remote_sandbox_cli.Journal.{create, modify, journal_event, event_key_eq}
use remote_sandbox_cli.Status.{ready, initial_syncing, phase_eq}
use remote_sandbox_cli.Sqlite.{Connection}
use remote_sandbox_cli.State.Tables.{Db, EventRow}
use remote_sandbox_cli.State.Codec.{
  Payload, encode_fingerprint, decode_fingerprint, encode_expected_echo, decode_expected_echo,
}
use remote_sandbox_cli.State.Codec.RoundTrip.{decode-encode, decode_expected_echo-encode, rebuilt}
use remote_sandbox_cli.State.Bases.{get_base, upsert_base, delete_base}
use remote_sandbox_cli.State.Echoes.{set_expected_echo, consume_expected_echo}
use remote_sandbox_cli.State.Drained.{pending_events-latest_sequence}
use remote_sandbox_cli.State.Events.{
  latest_sequence, pending_events, append_event, acknowledge, last_allocated, max_sequence,
  pending_rows, row_le,
}
use remote_sandbox_cli.State.Conflicts.{
  NewConflict, check_conflict, create_conflict, has_id, new_record,
}
use remote_sandbox_cli.State.Initial.{
  complete_initial_sync, publish_initial_sync_started, generation_of, get_initial_sync_watermarks,
  initial_sync_completed,
}
use remote_sandbox_cli.State.Completed.{
  view, seen, complete_initial_sync-view, publish_initial_sync_started-view,
}
use remote_sandbox_cli.State.Journalled.{append_event-appended, appended, new_event}
use remote_sandbox_cli.State.ReadBack.{
  get_base-upsert_base, get_base-delete_base, consume-set_expected_echo,
}
use remote_sandbox_cli.State.Acknowledged.{IsPending, pending_rows-acknowledge}
use remote_sandbox_cli.State.Unresolved.{create_conflict_lem, with_conflicts, recorded}
use remote_sandbox_cli.Tests.Inputs.{a_txt, event_of, old_file, new_file, empty_store, status_of}

-- Two events of the local side.
abbrev two_events : Connection Db
two_events = record empty_store {
  db = record empty_store.db {
    events =
        record { event = event_of local 1 create a_txt; created_at = 5 }
        ∷ record { event = event_of local 2 modify a_txt; created_at = 6 }
        ∷ [];
  };
}

allocated_one : leb 1 (last_allocated two_events.db local) ≡ true
unfolding last_allocated max_sequence lookup Side-discrete ℕ_discrete
allocated_one = refl

normal_a : normalize_relative_path a_txt ≡ ok a_txt
unfolding normalize_relative_path normpath nt_isabs push_component collapse initial_slashes split
    join ℕ_discrete Text-discrete
normal_a = refl

new_file_valid : entry_fingerprint new_file ≡ ok new_file
unfolding entry_fingerprint normalize_relative_path normpath nt_isabs push_component collapse
    initial_slashes split join ℕ_discrete Text-discrete
new_file_valid = refl

new_file-rebuilt : rebuilt (entry new_file) ≡ ok (entry new_file)
unfolding entry_fingerprint normalize_relative_path normpath nt_isabs push_component collapse
    initial_slashes split join ℕ_discrete Text-discrete
new_file-rebuilt = refl

append_event-appended_example :
    append_event 9 local modify a_txt none two_events
    ≡ appended 9 two_events (journal_event (new_event two_events.db local modify a_txt none))
append_event-appended_example = append_event-appended 9 local modify a_txt none two_events

abbrev after_one : List EventRow
after_one = pending_rows local 0 (acknowledge local 1 two_events).1.db

pending_rows-acknowledge_example : All (IsPending local 0 1) after_one × IsSorted row_le after_one
pending_rows-acknowledge_example = pending_rows-acknowledge local 1 0 two_events allocated_one

get_base-upsert_base_example :
    (get_base a_txt (upsert_base new_file empty_store).1).0
    ≡ (if a_txt == a_txt then ok (entry new_file) else (get_base a_txt empty_store).0)
get_base-upsert_base_example =
    get_base-upsert_base new_file empty_store a_txt a_txt new_file_valid normal_a

get_base-delete_base_example :
    (get_base a_txt (delete_base a_txt empty_store).1).0
    ≡ (if a_txt == a_txt then missing_entry (some a_txt) else (get_base a_txt empty_store).0)
get_base-delete_base_example =
    get_base-delete_base empty_store a_txt a_txt a_txt a_txt normal_a normal_a

decode-encode_example :
    decode_fingerprint (encode_fingerprint new_file) a_txt ≡ entry_fingerprint new_file
decode-encode_example = decode-encode new_file

abbrev new_payload : Payload
new_payload = encode_fingerprint new_file

new_file_encoded : encode_expected_echo (entry new_file) ≡ ok new_payload
unfolding encode_expected_echo
new_file_encoded = refl

decode_expected_echo-encode_example :
    decode_expected_echo new_payload a_txt ≡ rebuilt (entry new_file)
decode_expected_echo-encode_example =
    decode_expected_echo-encode (entry new_file) a_txt new_payload refl new_file_encoded

abbrev expecting : Connection Db
expecting = (set_expected_echo 4 local (entry new_file) empty_store).1

abbrev consumed : Result Bool × Connection Db
consumed = consume_expected_echo local (entry old_file) expecting

consume-set_expected_echo_example :
    (consumed.0 ≡ ok (entry new_file == entry old_file))
    × (lookup (local, a_txt) consumed.1.db.expected_echoes ≡ (
        if entry new_file == entry old_file
        then none
        else lookup (local, a_txt) expecting.db.expected_echoes))
    × ((consume_expected_echo local (entry old_file) consumed.1).0 ≡ ok false)
consume-set_expected_echo_example =
    consume-set_expected_echo 4 local (entry new_file) a_txt empty_store refl new_file-rebuilt
      (entry old_file) refl

abbrev clash_at_a : NewConflict
clash_at_a = record {
  path = a_txt;
  reason = codes "both-modified";
  local_blob = some (1 ∷ []);
  remote_blob = none;
  local_fingerprint = some new_file;
  remote_fingerprint = none;
}

checked_clash : check_conflict clash_at_a ≡ ok a_txt
unfolding check_conflict normalize_relative_path normpath nt_isabs push_component collapse
    initial_slashes split join ℕ_discrete Text-discrete
checked_clash = refl

-- A store with one unresolved conflict at that path.
abbrev one_clash : Connection Db
one_clash = with_conflicts empty_store (recorded 1 (codes "c1") a_txt clash_at_a [])

create_conflict_lem_example : create_conflict 2 (codes "c2") clash_at_a one_clash ≡ (
    if any (has_id (codes "c2")) one_clash.db.conflicts then (err integrity_error, one_clash) else (
      ok (new_record 2 (codes "c2") a_txt clash_at_a),
      with_conflicts one_clash (recorded 2 (codes "c2") a_txt clash_at_a one_clash.db.conflicts),
    ))
create_conflict_lem_example =
    create_conflict_lem 2 (codes "c2") clash_at_a one_clash a_txt checked_clash

complete_initial_sync-view_example : seen (complete_initial_sync (status_of ready) two_events) ≡ (
    if ready == ready
    then (ok tt, (ok (status_of ready), ok none, ok true, ok (generation_of two_events.db)))
    else (err value_error, view two_events))
complete_initial_sync-view_example = complete_initial_sync-view (status_of ready) two_events

publish_initial_sync_started-view_example :
    seen (publish_initial_sync_started (status_of initial_syncing) two_events) ≡ (
      if initial_syncing == initial_syncing
      then (
        ok (generation_of two_events.db + 1),
        (
          ok (status_of initial_syncing),
          (get_initial_sync_watermarks two_events).0,
          (initial_sync_completed two_events).0,
          ok (generation_of two_events.db + 1),
        ),
      )
      else (err value_error, view two_events))
publish_initial_sync_started-view_example =
    publish_initial_sync_started-view (status_of initial_syncing) two_events

latest_two : (latest_sequence local two_events).0 ≡ ok 2
unfolding latest_sequence last_allocated max_sequence lookup Side-discrete ℕ_discrete
latest_two = refl

pending_events-latest_sequence_example :
    ((acknowledge local 2 two_events).0 ≡ ok tt)
    × ((pending_events local 0 (acknowledge local 2 two_events).1).0 ≡ ok [])
pending_events-latest_sequence_example =
    pending_events-latest_sequence local 0 2 two_events latest_two
