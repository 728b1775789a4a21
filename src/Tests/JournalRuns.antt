-- ===== src/Tests/JournalRuns.antt =====
-- The journal: a file that is created and then modified.
use remote_sandbox_cli.Base.{
  ℕ_discrete, Text-discrete, option_text_discrete, ◌≡◌, refl, List, [], ◌∷◌, split, join,
}
use remote_sandbox_cli.Base.Dict.{lookup, insert, values}
use remote_sandbox_cli.Base.Sort.{sort, insort}
use remote_sandbox_cli.Base.Result.{ok}
use remote_sandbox_cli.Paths.{
  normalize_relative_path, nt_isabs, push_component, collapse, initial_slashes, normpath,
}
use remote_sandbox_cli.Replica.{local, Side-discrete}
use remote_sandbox_cli.Journal.{
  JournalEvent, create, modify, EventKind-discrete, EventKey-discrete, journal_event,
  coalesce_path_event, event_le, coalesce_loop, coalesce_events,
}
use remote_sandbox_cli.Journal.Merged.{CoalescesTo, coalesce_events-CoalescesTo}
use remote_sandbox_cli.Journal.Total.{IsRecorded, coalesce_events_total}
use remote_sandbox_cli.Sqlite.{Connection, transaction}
use remote_sandbox_cli.State.Tables.{Db}
use remote_sandbox_cli.State.Events.{record_events, record_event, find_event, insert_event}
use remote_sandbox_cli.State.Recorded.{record_events-again}
use remote_sandbox_cli.Tests.Inputs.{empty_store, a_txt, b_txt, event_of}

-- Out of order.
abbrev two_changes : List JournalEvent
two_changes =
    event_of local 3 modify a_txt
    ∷ event_of local 1 create a_txt
    ∷ event_of local 2 modify b_txt
    ∷ []

abbrev merged_changes : List JournalEvent
merged_changes = event_of local 2 modify b_txt ∷ event_of local 3 create a_txt ∷ []

two_changes_merge : coalesce_events two_changes ≡ ok merged_changes
unfolding coalesce_events coalesce_loop coalesce_path_event journal_event event_le sort insort
    lookup insert values normalize_relative_path normpath nt_isabs push_component collapse
    initial_slashes split join ℕ_discrete Text-discrete option_text_discrete EventKind-discrete
    EventKey-discrete Side-discrete
two_changes_merge = refl

modify_a_IsRecorded : IsRecorded (event_of local 3 modify a_txt)
unfolding journal_event normalize_relative_path normpath nt_isabs push_component collapse
    initial_slashes split join ℕ_discrete Text-discrete option_text_discrete EventKind-discrete
modify_a_IsRecorded = refl

create_a_IsRecorded : IsRecorded (event_of local 1 create a_txt)
unfolding journal_event normalize_relative_path normpath nt_isabs push_component collapse
    initial_slashes split join ℕ_discrete Text-discrete option_text_discrete EventKind-discrete
create_a_IsRecorded = refl

coalesce_events-CoalescesTo_example : CoalescesTo two_changes merged_changes
coalesce_events-CoalescesTo_example =
    coalesce_events-CoalescesTo two_changes merged_changes two_changes_merge

coalesce_events_total_example :
    (out : List JournalEvent) × (coalesce_events
        (event_of local 3 modify a_txt ∷ event_of local 1 create a_txt ∷ [])
      ≡ ok out)
coalesce_events_total_example =
    coalesce_events_total (event_of local 3 modify a_txt ∷ event_of local 1 create a_txt ∷ [])
      (modify_a_IsRecorded, (create_a_IsRecorded, tt))

-- The store once that creation has been recorded.
abbrev one_recorded : Connection Db
one_recorded = record empty_store {
  db = record empty_store.db {
    events = record { event = event_of local 1 create a_txt; created_at = 5 } ∷ [];
  };
}

first_record :
    record_events 5 (event_of local 1 create a_txt ∷ []) empty_store ≡ (ok tt, one_recorded)
unfolding record_events record_event find_event insert_event transaction
first_record = refl

record_events-again_example :
    record_events 8 (event_of local 1 create a_txt ∷ []) one_recorded ≡ (ok tt, one_recorded)
record_events-again_example =
    record_events-again 5 8 (event_of local 1 create a_txt ∷ []) empty_store one_recorded
      (create_a_IsRecorded, tt) first_record
