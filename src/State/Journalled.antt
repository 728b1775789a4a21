-- ===== src/State/Journalled.antt =====
-- `WorkspaceStore.append_event` of src/remote_sandbox/state.py.
use remote_sandbox_cli.Base.{
  ℕ, ◌+◌, ◌<◌, ◌≡◌, refl, Option, none, List, [], ◌∷◌, ◌++◌, arith, nat_eq, Text,
}
use remote_sandbox_cli.Base.Result.{Result, ok, err}
use remote_sandbox_cli.Replica.{Side, side_eq}
use remote_sandbox_cli.Journal.{
  JournalEvent, EventKind, journal_event, journal_event_eq, normalize_event, move,
}
use remote_sandbox_cli.Sqlite.{Connection, transaction}
use remote_sandbox_cli.State.Tables.{EventRow, Db}
use remote_sandbox_cli.State.Events.{
  max_sequence, last_allocated, find_event, insert_event, append_event,
}

last-above : (db : Db) (side : Side) → max_sequence side db.events < last_allocated db side + 1
unfolding last_allocated
last-above db side = omega arith

-- No event of a side has a number past the largest.
find_event-above :
    (side : Side) (n : ℕ) (rows : List EventRow)
    → max_sequence side rows < n
    → find_event side n rows ≡ none
unfolding find_event max_sequence
find_event-above side n [] h = refl
find_event-above side n (row ∷ rows) h = ground (arith, find_event-above side n rows)

normalize_event-keeps :
    (k : EventKind) (x e : JournalEvent)
    → normalize_event k x ≡ ok e
    → (e.side ≡ x.side) × (e.sequence ≡ x.sequence)
normalize_event-keeps move x e h = ground arith
normalize_event-keeps _ x e h = ground arith

-- The constructor keeps the side and the number.
pub journal_event-keeps :
    (x e : JournalEvent) → journal_event x ≡ ok e → (e.side ≡ x.side) × (e.sequence ≡ x.sequence)
unfolding journal_event
journal_event-keeps x e h = ground (arith, normalize_event-keeps x.kind x e)

abbrev pub new_event : Db → Side → EventKind → Text → Option Text → JournalEvent
new_event db side kind path destination = record {
  side = side;
  sequence = last_allocated db side + 1;
  kind = kind;
  path = path;
  destination_path = destination;
}

abbrev pub with_event : ℕ → Connection Db → JournalEvent → Connection Db
with_event now c e = record c {
  db = record c.db { events = c.db.events ++ (record { event = e; created_at = now } ∷ []) };
}

-- The row is written, or nothing is.
abbrev pub appended : ℕ → Connection Db → Result JournalEvent → Result JournalEvent × Connection Db
appended now c (ok e) = (ok e, with_event now c e)
appended now c (err x) = (err x, c)

insert_event_free :
    (now : ℕ) (e : JournalEvent) (c : Connection Db)
    → find_event e.side e.sequence c.db.events ≡ none
    → insert_event now e c ≡ (ok tt, with_event now c e)
unfolding insert_event
insert_event_free now e c h = rw (h, insert_event)

-- `append_event` adds the event that its arguments make with the next number of its side. It
-- raises only what the event's constructor raises, never an integrity error, and then the
-- connection is unchanged.
pub append_event-appended :
    (now : ℕ) (side : Side) (kind : EventKind) (path : Text) (destination : Option Text)
    (c : Connection Db)
    → append_event now side kind path destination c
      ≡ appended now c (journal_event (new_event c.db side kind path destination))
unfolding append_event transaction
append_event-appended now side kind path destination c =
    go (journal_event (new_event c.db side kind path destination)) refl
  where
    open_c : Connection Db
    open_c = record c { savepoints = c.db ∷ c.savepoints }

    go :
        (r : Result JournalEvent)
        → journal_event (new_event c.db side kind path destination) ≡ r
        → append_event now side kind path destination c ≡ appended now c r
    go (err x) h = rw h
    go (ok e) h =
        let (same_side, next) = journal_event-keeps _ e h in
        let free : find_event e.side e.sequence c.db.events ≡ none =
          rw (same_side, next) (find_event-above side _ c.db.events (last-above c.db side)) in
        rw (h, insert_event_free now e open_c free)
