-- ===== src/Sync/Sources.antt =====
-- src/remote_sandbox/_engine_events.py: which paths a cycle looks at, and why.
use remote_sandbox_cli.Base.{
  Bool, ◌||◌, Option, none, some, List, [], ◌∷◌, ◌++◌, if◌then◌else◌, Eq, ◌==◌, Text, text_eq, any,
}
use remote_sandbox_cli.Base.Dict.{Dict, lookup, insert}
use remote_sandbox_cli.Base.Sets.{add}
use remote_sandbox_cli.Base.Result.{Result, ok, err, assertion_error, ◌>>=◌}
use remote_sandbox_cli.Replica.{Side}
use remote_sandbox_cli.Journal.{JournalEvent, event_kind_eq, move, rescan_required, coalesce_events}
use remote_sandbox_cli.Reconcile.Plan.{insert_sorted}
use remote_sandbox_cli.Sqlite.{pure}
use remote_sandbox_cli.State.Tables.{Store}
use remote_sandbox_cli.State.Events.{acknowledge}

-- "requeue", "conflict", or the name of a side.
pub data Source : Type 0 where
  requeue conflict : Source
  changed_on : Side → Source

unfoldable pub Source-discrete : Discrete Source
Source-discrete = hlevel

instance abbrev pub source_eq : Eq Source
source_eq = record { dec = Source-discrete }

abbrev pub Sources : Type 0
Sources = Dict Text (List Source)

abbrev pub or_empty : Option (List Source) → List Source
or_empty none = []
or_empty (some s) = s

-- `sources.setdefault(path, set()).add(source)`
abbrev pub add_source : Text → Source → Sources → Sources
add_source path source sources = insert path (add source (or_empty (lookup path sources))) sources

abbrev pub add_destination : JournalEvent → Option Text → Sources → Result Sources
add_destination e none sources = err assertion_error
add_destination e (some d) sources = ok (add_source d (changed_on e.side) sources)

-- One round of the loop of `dirty_sources`.
abbrev pub add_event : JournalEvent → Sources → Result Sources
add_event e sources =
    if e.kind == rescan_required
    then ok sources
    else (let more = add_source e.path (changed_on e.side) sources in
        if e.kind == move then add_destination e e.destination_path more else ok more)

abbrev pub add_events : List JournalEvent → Sources → Result Sources
add_events [] sources = ok sources
add_events (e ∷ events) sources = do more ← add_event e sources; add_events events more

abbrev pub requeued_sources : List Text → Sources
requeued_sources [] = []
requeued_sources (path ∷ paths) = insert path (requeue ∷ []) (requeued_sources paths)

unfoldable pub dirty_sources : List JournalEvent → List JournalEvent → List Text → Result Sources
dirty_sources local_events remote_events requeued = do
  events ← coalesce_events (local_events ++ remote_events)
  add_events events (requeued_sources requeued)

-- `contains_rescan`
abbrev pub is_rescan : JournalEvent → Bool
is_rescan e = e.kind == rescan_required

unfoldable pub contains_rescan : List JournalEvent → List JournalEvent → Bool
contains_rescan local_events remote_events =
    any is_rescan local_events || any is_rescan remote_events

abbrev pub last_event : JournalEvent → List JournalEvent → JournalEvent
last_event e [] = e
last_event e (x ∷ events) = last_event x events

-- `acknowledge_pending`
unfoldable pub acknowledge_pending : Side → List JournalEvent → Store (Unit {0})
acknowledge_pending side [] = pure tt
acknowledge_pending side (e ∷ events) = acknowledge side (last_event e events).sequence

-- `sorted(sources)`
abbrev pub sorted_paths {ℓ} : {V : Type ℓ} → Dict Text V → List Text
sorted_paths [] = []
sorted_paths ((path, _) ∷ rest) = insert_sorted path (sorted_paths rest)
