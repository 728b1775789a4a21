-- ===== src/Sync/Gather.antt =====
-- What a cycle of src/remote_sandbox/engine.py gathers before it plans: moves, echoes and sources.
use remote_sandbox_cli.Base.{
  Bool, false, ◌&&◌, Option, none, some, List, [], ◌∷◌, if◌then◌else◌, ◌==◌, Text, text_eq,
  contains,
}
use remote_sandbox_cli.Base.Dict.{Dict, lookup, insert, erase}
use remote_sandbox_cli.Base.Sets.{add}
use remote_sandbox_cli.Base.Result.{
  Result, ok, err, Error, value_error, key_error, runtime_error, require,
}
use remote_sandbox_cli.Base.Result
use remote_sandbox_cli.Replica.{Side, side_eq, local, remote}
use remote_sandbox_cli.Manifest.{
  EntryFingerprint, FingerprintState, entry, missing, kind_eq, dir, state_eq,
}
use remote_sandbox_cli.Journal.{JournalEvent, move, event_kind_eq}
use remote_sandbox_cli.Reconcile.Plan.{Entries}
use remote_sandbox_cli.State.Tables.{ConflictRecord}
use remote_sandbox_cli.Sync.Sources.{Source, Sources, source_eq, conflict, changed_on, add_source}
use remote_sandbox_cli.Sync.Actions.{regular_file}
use remote_sandbox_cli.Sync.Mutate.{at_path}
use remote_sandbox_cli.Sync.Results.{Echo}

abbrev pub is_dir_state : FingerprintState → Bool
is_dir_state (entry e) = e.kind == dir
is_dir_state (missing p) = false

abbrev pub is_dir_entry : Option EntryFingerprint → Bool
is_dir_entry none = false
is_dir_entry (some e) = e.kind == dir

abbrev pub moves_of : List JournalEvent → List JournalEvent
moves_of [] = []
moves_of (e ∷ events) = let rest = moves_of events in if e.kind == move then e ∷ rest else rest

abbrev pub add_path : Option Text → List Text → List Text
add_path none paths = paths
add_path (some path) paths = add path paths

abbrev pub destinations : Side → List JournalEvent → List Text
destinations side [] = []
destinations side (e ∷ events) =
    let rest = destinations side events in
    if e.side == side then add_path e.destination_path rest else rest

abbrev pub Candidate : Type 0
Candidate = Side × Text × FingerprintState

-- The regular files among the candidates of a side.
abbrev pub file_candidates : Side → List Candidate → List Text
file_candidates side [] = []
file_candidates side ((s, path, expected) ∷ candidates) =
    let rest = file_candidates side candidates in
    if s == side && regular_file expected then add path rest else rest

abbrev pub side_entries : Side → Entries → Entries → Entries
side_entries local l r = l
side_entries remote l r = r

abbrev pub matching : List Candidate → Entries → Entries → Result (List Echo)
matching [] l r = ok []
matching ((side, path, expected) ∷ candidates) l r =
    Result.◌>>=◌ (at_path (lookup path (side_entries side l r))) λ observed.
      Result.◌>>=◌ (matching candidates l r) λ rest. ok (
        if observed == expected
        then record { side = side; path = path; observed = observed } ∷ rest
        else rest)

-- `path_sources.discard(echo.side)`, and `sources.pop(echo.path)` when nothing is left.
abbrev pub left : Text → List Source → Sources → Sources
left path [] sources = erase path sources
left path (s ∷ rest) sources = insert path (s ∷ rest) sources

abbrev pub without_source : Source → List Source → List Source
without_source s [] = []
without_source s (x ∷ xs) = let rest = without_source s xs in if x == s then rest else x ∷ rest

abbrev pub discard_at : Echo → Option (List Source) → Sources → Sources
discard_at echo none sources = sources
discard_at echo (some found) sources =
    left echo.path (without_source (changed_on echo.side) found) sources

abbrev pub discard_echoes : List Echo → Sources → Sources
discard_echoes [] sources = sources
discard_echoes (echo ∷ echoes) sources =
    discard_echoes echoes (discard_at echo (lookup echo.path sources) sources)

abbrev pub add_conflicts : List ConflictRecord → Sources → Sources
add_conflicts [] sources = sources
add_conflicts (r ∷ rows) sources = add_conflicts rows (add_source r.path conflict sources)

-- `{path: entries[path] for path in dirty}`
abbrev pub restrict : Entries → List Text → Result Entries
restrict entries [] = ok []
restrict entries (path ∷ paths) =
    Result.◌>>=◌ (at_path (lookup path entries))
      λ state. Result.◌>>=◌ (restrict entries paths) λ rest. ok ((path, state) ∷ rest)

abbrev pub requeued_among : List Text → List Text → List Text
requeued_among requeued [] = []
requeued_among requeued (path ∷ paths) =
    let rest = requeued_among requeued paths in if contains requeued path then path ∷ rest else rest

-- The base as states, as the planner reads it.
abbrev pub base_states : Dict Text EntryFingerprint → Entries
base_states [] = []
base_states ((path, e) ∷ rows) = (path, entry e) ∷ base_states rows
