-- ===== src/Journal.antt =====
-- src/remote_sandbox/journal.py: the events of both sides, and their coalescing. A dict keeps its
-- insertion order, as Python's does.
pub mod Merged
pub mod Total
use remote_sandbox_cli.Base.{
  ℕ, ◌≡◌, Bool, true, false, not, ◌&&◌, ◌||◌, Option, none, some, List, [], ◌∷◌, ◌++◌,
  if◌then◌else◌, Eq, ◌==◌, Text, Text-discrete, text_eq, nat_eq, option_text_eq, codes, ltb, leb,
  ℕ_discrete,
}
use remote_sandbox_cli.Base.Dict.{Dict, lookup, insert, values}
use remote_sandbox_cli.Base.Result.{Result, ok, err, value_error, ◌>>=◌, ◌>>◌, require}
use remote_sandbox_cli.Base.Sort.{sort}
use remote_sandbox_cli.Paths.{normalize_relative_path}
use remote_sandbox_cli.Replica.{Side, side_eq, side_le, Side-discrete}

pub data EventKind : Type 0 where
  create modify delete move rescan_required : EventKind

unfoldable pub EventKind-discrete : Discrete EventKind
EventKind-discrete = hlevel

instance abbrev pub event_kind_eq : Eq EventKind
event_kind_eq = record { dec = EventKind-discrete }

pub record JournalEvent : Type 0 where
  pub side : Side
  pub sequence : ℕ
  pub kind : EventKind
  pub path : Text
  pub destination_path : Option Text

unfoldable pub JournalEvent-discrete : Discrete JournalEvent
JournalEvent-discrete = hlevel ℕ_discrete

instance abbrev pub journal_event_eq : Eq JournalEvent
journal_event_eq = record { dec = JournalEvent-discrete }

-- The path of a rescan event.
abbrev pub star : Text
star = codes "*"

abbrev pub normalize_destination : Option Text → Result (Option Text)
normalize_destination none = err value_error
normalize_destination (some d) = do destination ← normalize_relative_path d; ok (some destination)

-- The end of `__post_init__`, for events that are no rescan.
abbrev pub normalize_event : EventKind → JournalEvent → Result JournalEvent
normalize_event move e = do
  path ← normalize_relative_path e.path
  destination ← normalize_destination e.destination_path
  ok (record e { path = path; destination_path = destination })
normalize_event _ e = do
  path ← normalize_relative_path e.path
  require (e.destination_path == none) value_error
  ok (record e { path = path })

-- `JournalEvent(…)`: the constructor with its `__post_init__`. The types rule out other sides and
-- sequence numbers below 0.
unfoldable pub journal_event : JournalEvent → Result JournalEvent
journal_event e = do
  require (ltb 0 e.sequence) value_error
  if e.kind == rescan_required
      then (do require (e.path == star && e.destination_path == none) value_error; ok e)
      else normalize_event e.kind e

-- `_coalesce_path_event`: `replace` builds a new event, which is checked again.
unfoldable pub coalesce_path_event : Option JournalEvent → JournalEvent → Result JournalEvent
coalesce_path_event none current = ok current
coalesce_path_event (some previous) current =
    if previous.kind == create && current.kind == modify
    then journal_event (record current { kind = create })
    else if previous.kind == delete && current.kind == create
    then journal_event (record current { kind = modify })
    else ok current

-- The sort key `(sequence, side)`.
unfoldable pub event_le : JournalEvent → JournalEvent → Bool
event_le a b = ltb a.sequence b.sequence || (a.sequence == b.sequence && side_le a.side b.side)

abbrev pub EventKey : Type 0
EventKey = Side × Text

unfoldable pub EventKey-discrete : Discrete EventKey
EventKey-discrete = hlevel ℕ_discrete

instance abbrev pub event_key_eq : Eq EventKey
event_key_eq = record { dec = EventKey-discrete }

abbrev pub key_of : JournalEvent → EventKey
key_of e = (e.side, e.path)

abbrev pub is_structural : JournalEvent → Bool
is_structural e = e.kind == move || e.kind == rescan_required

-- The two containers that the loop fills.
pub record Coalesced : Type 0 where
  pub path_events : Dict EventKey JournalEvent
  pub structural_events : List JournalEvent

unfoldable pub coalesce_loop : List JournalEvent → Coalesced → Result Coalesced
coalesce_loop [] c = ok c
coalesce_loop (e ∷ events) c = do
  c' ←
      if is_structural e
      then ok (record c { structural_events = c.structural_events ++ (e ∷ []) })
      else (do
        merged ← coalesce_path_event (lookup (key_of e) c.path_events) e
        ok (record c { path_events = insert (key_of e) merged c.path_events }))
  coalesce_loop events c'

abbrev pub no_events : Coalesced
no_events = record { path_events = []; structural_events = [] }

unfoldable pub coalesce_events : List JournalEvent → Result (List JournalEvent)
coalesce_events events = do
  c ← coalesce_loop (sort event_le events) no_events
  ok (sort event_le (c.structural_events ++ values c.path_events))
