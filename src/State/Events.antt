-- ===== src/State/Events.antt =====
-- The journal tables: events and watermarks, one sequence for each side.
use remote_sandbox_cli.Base.{
  ℕ, ◌+◌, Bool, ◌&&◌, Option, none, some, List, [], ◌∷◌, ◌++◌, max, if◌then◌else◌, ◌==◌, nat_eq,
  Text, ltb, leb, select,
}
use remote_sandbox_cli.Base.Dict.{lookup, insert}
use remote_sandbox_cli.Base.Result.{
  Result, ok, err, value_error, runtime_error, integrity_error, require,
}
use remote_sandbox_cli.Base.Result
use remote_sandbox_cli.Base.Sort.{sort}
use remote_sandbox_cli.Replica.{Side, side_eq}
use remote_sandbox_cli.Journal.{JournalEvent, EventKind, journal_event, journal_event_eq}
use remote_sandbox_cli.Sqlite.{pure, lift, query, execute, transaction, for_each, ◌>>=◌, ◌>>◌}
use remote_sandbox_cli.State.Tables.{EventRow, Db, Store}

abbrev pub of_side : Side → EventRow → Bool
of_side side row = row.event.side == side

-- `COALESCE((SELECT MAX(sequence) FROM events WHERE side = ?), 0)`
unfoldable pub max_sequence : Side → List EventRow → ℕ
max_sequence side [] = 0
max_sequence side (row ∷ rows) =
    let rest = max_sequence side rows in
    if of_side side row then max row.event.sequence rest else rest

abbrev pub or_zero : Option ℕ → ℕ
or_zero none = 0
or_zero (some n) = n

abbrev pub acknowledged : Db → Side → ℕ
acknowledged db side = or_zero (lookup side db.watermarks)

-- `_last_allocated_sequence`
unfoldable pub last_allocated : Db → Side → ℕ
last_allocated db side = max (max_sequence side db.events) (acknowledged db side)

-- `SELECT … FROM events WHERE side = ? AND sequence = ?`
unfoldable pub find_event : Side → ℕ → List EventRow → Option JournalEvent
find_event side n [] = none
find_event side n (row ∷ rows) =
    if of_side side row && row.event.sequence == n then some row.event else find_event side n rows

-- `INSERT INTO events`: the side and the sequence are the primary key.
unfoldable pub insert_event : ℕ → JournalEvent → Store (Unit {0})
insert_event now e c = elim (find_event e.side e.sequence c.db.events) [
  | none ↦
      execute
        (λ (db : Db). record db {
          events = db.events ++ (record { event = e; created_at = now } ∷ []);
        })
        c
  | some _ ↦ (err integrity_error, c)
]

-- `append_event`
unfoldable pub append_event : ℕ → Side → EventKind → Text → Option Text → Store JournalEvent
append_event now side kind path destination_path = transaction (do
  last ← query (λ db. last_allocated db side)
  event ← lift (
      journal_event (record {
        side = side;
        sequence = last + 1;
        kind = kind;
        path = path;
        destination_path = destination_path;
      }))
  insert_event now event
  pure event)

-- One round of the loop of `record_events`. A row that is there is read back as an event.
unfoldable pub record_event : ℕ → JournalEvent → Store (Unit {0})
record_event now event = do
  existing ← query (λ db. find_event event.side event.sequence db.events)
  elim existing [
    | none ↦ insert_event now event
    | some old ↦ (do
      stored ← lift (journal_event old)
      lift (require (stored == event) runtime_error))
  ]

unfoldable pub record_events : ℕ → List JournalEvent → Store (Unit {0})
record_events now events = transaction (for_each events (record_event now) tt)

abbrev pub row_le : EventRow → EventRow → Bool
row_le a b = leb a.event.sequence b.event.sequence

abbrev pub read_rows : List EventRow → Result (List JournalEvent)
read_rows [] = ok []
read_rows (row ∷ rows) =
    Result.◌>>=◌ (journal_event row.event) λ e. Result.◌>>=◌ (read_rows rows) λ rest. ok (e ∷ rest)

-- The rows that `pending_events` selects, in their order.
unfoldable pub pending_rows : Side → ℕ → Db → List EventRow
pending_rows side after_sequence db = sort row_le (
    select
      (λ row.
        of_side side row && ltb (max after_sequence (acknowledged db side)) row.event.sequence)
      db.events)

unfoldable pub pending_events : Side → ℕ → Store (List JournalEvent)
pending_events side after_sequence = do
  rows ← query (pending_rows side after_sequence)
  lift (read_rows rows)

-- `acknowledge`
unfoldable pub acknowledge : Side → ℕ → Store (Unit {0})
acknowledge side through_sequence = transaction (do
  last ← query (λ db. last_allocated db side)
  lift (require (leb through_sequence last) value_error)
  execute (λ db. record db {
    watermarks = insert side (max (acknowledged db side) through_sequence) db.watermarks;
  }))

unfoldable pub acknowledged_sequence : Side → Store ℕ
acknowledged_sequence side = query (λ db. acknowledged db side)

unfoldable pub latest_sequence : Side → Store ℕ
latest_sequence side = query (λ db. last_allocated db side)
