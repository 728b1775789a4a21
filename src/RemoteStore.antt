-- ===== src/RemoteStore.antt =====
-- src/remote_sandbox/remote_agent/store.py: the journal of the agent, its watermarks and its
-- watcher row. `_write_transaction` begins a transaction where none is open, so it is `transaction`.
pub mod Watcher
pub mod Delivered
pub mod Handed
pub mod Within
pub mod Runs
use remote_sandbox_cli.Base.{
  ℕ, zero, suc, ◌+◌, ◌≡◌, Bool, true, false, not, ◌&&◌, ◌||◌, Option, none, some, List, [], ◌∷◌,
  ◌++◌, map, max, if◌then◌else◌, ◌==◌, ltb, leb, select, Text, text_eq, nat_eq, option_text_eq,
}
use remote_sandbox_cli.Base.Result.{Result, ok, err, value_error, key_error, require}
use remote_sandbox_cli.Base.Result
use remote_sandbox_cli.Base.Sort.{sort}
use remote_sandbox_cli.Paths.{validate_relative_path}
use remote_sandbox_cli.Journal.{
  EventKind, event_kind_eq, create, modify, delete, move, rescan_required, star,
}
use remote_sandbox_cli.Sqlite.{
  Exec, Connection, pure, lift, query, execute, transaction, ◌>>=◌, ◌>>◌,
}

pub record RemoteEvent : Type 0 where
  pub sequence : ℕ
  pub kind : EventKind
  pub path : Text
  pub destination_path : Option Text
  pub created_at : ℕ

pub record WatcherState : Type 0 where
  pub pid : Option ℕ
  pub status : Text
  pub backend : Option Text
  pub started_at : Option ℕ
  pub heartbeat_at : Option ℕ
  pub error : Option Text
  pub token : Option Text

-- The tables `events`, `watermark` and `watcher`, the last two with their single row. `allocated` is
-- the counter that AUTOINCREMENT keeps.
pub record RemoteDb : Type 0 where
  pub events : List RemoteEvent
  pub allocated : ℕ
  pub acknowledged_sequence : ℕ
  pub delivered_sequence : ℕ
  pub watcher : WatcherState

abbrev pub RemoteStore : Type 0 → Type 0
RemoteStore A = Exec RemoteDb A

abbrev pub validate_destination : Option Text → Result (Option Text)
validate_destination none = err value_error
validate_destination (some d) =
    Result.◌>>=◌ (validate_relative_path d) λ destination. ok (some destination)

-- `_validate_event`, whose kind is one of `_EVENT_KINDS` by its type.
unfoldable pub validate_event :
    EventKind → Text → Option Text → Result (EventKind × Text × Option Text)
validate_event rescan_required path destination_path =
    Result.◌>>◌ (require (path == star && destination_path == none) value_error)
      (ok (rescan_required, path, none))
validate_event move path destination_path = Result.◌>>=◌ (validate_relative_path path) λ safe_path.
    Result.◌>>=◌ (validate_destination destination_path)
      λ destination. ok (move, safe_path, destination)
validate_event kind path destination_path = Result.◌>>=◌ (validate_relative_path path) λ safe_path.
    Result.◌>>◌ (require (destination_path == none) value_error) (ok (kind, safe_path, none))

-- `_merge_event_kinds`: a pair that is no key raises.
unfoldable pub merge_event_kinds : EventKind → EventKind → Result EventKind
merge_event_kinds create create = ok create
merge_event_kinds create modify = ok create
merge_event_kinds create delete = ok delete
merge_event_kinds modify create = ok modify
merge_event_kinds modify modify = ok modify
merge_event_kinds modify delete = ok delete
merge_event_kinds delete create = ok modify
merge_event_kinds delete modify = ok modify
merge_event_kinds delete delete = ok delete
merge_event_kinds _ _ = err key_error

abbrev later : RemoteEvent → Option RemoteEvent → RemoteEvent
later e none = e
later e (some x) = if ltb e.sequence x.sequence then x else e

-- `WHERE … ORDER BY sequence DESC LIMIT 1`
unfoldable pub newest : (RemoteEvent → Bool) → List RemoteEvent → Option RemoteEvent
newest test [] = none
newest test (e ∷ events) =
    let rest = newest test events in if test e then some (later e rest) else rest

-- `UPDATE events SET … WHERE sequence = ?`
abbrev pub update_event : ℕ → (RemoteEvent → RemoteEvent) → List RemoteEvent → List RemoteEvent
update_event n f = map λ e. if e.sequence == n then f e else e

abbrev pub update_events : (List RemoteEvent → List RemoteEvent) → RemoteStore (Unit {0})
update_events f = execute (λ db. record db { events = f db.events })

abbrev pub protected_sequence : RemoteDb → ℕ
protected_sequence db = max db.acknowledged_sequence db.delivered_sequence

abbrev pub open_rescan : ℕ → RemoteEvent → Bool
open_rescan protected e = ltb protected e.sequence && e.kind == rescan_required

abbrev pub touches : Text → Option Text → Bool
touches path none = false
touches path (some d) = d == path

abbrev pub open_path : ℕ → Text → RemoteEvent → Bool
open_path protected path e =
    ltb protected e.sequence && (e.path == path || touches path e.destination_path)

-- The rest of the rescan branch of `_coalesce_event`.
abbrev pub coalesce_rescan : ℕ → Text → Option RemoteEvent → RemoteStore (Option RemoteEvent)
coalesce_rescan now path none = pure none
coalesce_rescan now path (some row) = do
  update_events (update_event row.sequence (λ e. record e { created_at = now }))
  pure (
      some (record {
        sequence = row.sequence;
        kind = rescan_required;
        path = path;
        destination_path = none;
        created_at = now;
      }))

-- A row that is a rescan or a move, or that has a destination, is not merged into.
abbrev pub is_mergeable : RemoteEvent → Bool
is_mergeable row =
    row.destination_path == none && (row.kind == create || row.kind == modify || row.kind == delete)

-- The end of `_coalesce_event`.
abbrev pub coalesce_path :
    ℕ → EventKind → Text → Option Text → Option RemoteEvent → RemoteStore (Option RemoteEvent)
coalesce_path now kind path destination_path none = pure none
coalesce_path now kind path destination_path (some row) =
    if is_mergeable row
    then (do
      merged_kind ← lift (merge_event_kinds row.kind kind)
      update_events
          (update_event row.sequence (λ e. record e { kind = merged_kind; created_at = now }))
      pure (
          some (record {
            sequence = row.sequence;
            kind = merged_kind;
            path = path;
            destination_path = destination_path;
            created_at = now;
          })))
    else pure none

-- `_coalesce_event`
unfoldable pub coalesce_event :
    ℕ → EventKind → Text → Option Text → RemoteStore (Option RemoteEvent)
coalesce_event now rescan_required path destination_path = do
  row ← query (λ db. newest (open_rescan (protected_sequence db)) db.events)
  coalesce_rescan now path row
coalesce_event now move path destination_path = pure none
coalesce_event now kind path destination_path = do
  row ← query (λ db. newest (open_path (protected_sequence db) path) db.events)
  coalesce_path now kind path destination_path row

-- `INSERT INTO events`; the result is the row id.
abbrev pub insert_event : ℕ → EventKind → Text → Option Text → RemoteStore RemoteEvent
insert_event now kind path destination_path = do
  last ← query (λ db. db.allocated)
  let event : RemoteEvent = record {
    sequence = last + 1;
    kind = kind;
    path = path;
    destination_path = destination_path;
    created_at = now;
  }
  execute (λ db. record db { events = db.events ++ (event ∷ []); allocated = last + 1 })
  pure event

abbrev pub or_insert :
    ℕ → EventKind → Text → Option Text → Option RemoteEvent → RemoteStore RemoteEvent
or_insert now kind path destination_path (some coalesced) = pure coalesced
or_insert now kind path destination_path none = insert_event now kind path destination_path

unfoldable pub append_event : ℕ → EventKind → Text → Option Text → RemoteStore RemoteEvent
append_event now kind path destination_path = do
  (safe_kind, safe_path, safe_destination) ← lift (validate_event kind path destination_path)
  transaction (do
    coalesced ← coalesce_event now safe_kind safe_path safe_destination
    or_insert now safe_kind safe_path safe_destination coalesced)

abbrev pub sequence_le : RemoteEvent → RemoteEvent → Bool
sequence_le a b = leb a.sequence b.sequence

unfoldable pub take : ℕ → List RemoteEvent → List RemoteEvent
take zero events = []
take (suc n) [] = []
take (suc n) (e ∷ events) = e ∷ take n events

-- ` LIMIT ?`
abbrev pub limited : Option ℕ → List RemoteEvent → List RemoteEvent
limited none events = events
limited (some n) events = take n events

abbrev pub is_positive : Option ℕ → Bool
is_positive none = true
is_positive (some n) = ltb 0 n

-- `MAX(delivered_sequence, rows[-1]["sequence"])`, where there are rows.
unfoldable pub delivered : ℕ → List RemoteEvent → ℕ
delivered n [] = n
delivered n (e ∷ []) = max n e.sequence
delivered n (e ∷ x ∷ events) = delivered n (x ∷ events)

unfoldable pub events_after : ℕ → Option ℕ → RemoteStore (List RemoteEvent)
events_after sequence limit = do
  lift (require (is_positive limit) value_error)
  transaction (do
    rows ←
        query
          (λ db. limited limit (sort sequence_le (select (λ e. ltb sequence e.sequence) db.events)))
    execute (λ db. record db { delivered_sequence = delivered db.delivered_sequence rows })
    pure rows)

unfoldable pub latest : List RemoteEvent → ℕ
latest [] = 0
latest (e ∷ events) = max e.sequence (latest events)

unfoldable pub latest_sequence : RemoteStore ℕ
latest_sequence = query (λ db. latest db.events)

unfoldable pub acknowledge : ℕ → RemoteStore (Unit {0})
acknowledge sequence = transaction (do
  last ← query (λ db. latest db.events)
  lift (require (leb sequence last) value_error)
  execute (λ db. record db { acknowledged_sequence = max db.acknowledged_sequence sequence }))
