-- ===== src/Lib.antt =====
-- The synchronisation core of remote-sandbox: what decides which side of a workspace wins, and
-- what keeps those decisions durable.
--
-- A workspace has two sides, local and remote. Each side's changes become events of a journal,
-- numbered for each side. The engine coalesces pending events into dirty paths, compares for each
-- of them the fingerprints of both sides with the base that both last agreed on, carries out the
-- planned actions, sets the base and acknowledges the events. On the remote host an agent keeps a
-- journal of its own, from which the client imports.
--
-- Files:
--   Base        Python's comparisons, texts, dicts, sorting, and calls that may raise
--   Paths       src/remote_sandbox/manifest.py (`normalize_relative_path`),
--               src/remote_sandbox/remote_agent/paths.py, and `_validate_relative_path` of
--               src/remote_sandbox/remote_agent/store.py
--   Manifest    src/remote_sandbox/manifest.py: fingerprints, `EntryFingerprint`, `MissingEntry`
--   Replica     src/remote_sandbox/policy.py: `ReplicaSide` alone
--   Policy      src/remote_sandbox/policy.py: Pattern holds Python's `fnmatch`, Lines the rule
--               file, Decides, Rules and Plans the theorems
--   Reconcile   src/remote_sandbox/reconcile.py: Compare holds the tests on fingerprints, Plan the
--               planner, Merge, Mirror, Safety, Rest, Settle, Found and Whole its theorems
--   Journal     src/remote_sandbox/journal.py: `JournalEvent`, `coalesce_events`
--   Status      src/remote_sandbox/status.py: `WorkspaceStatus`, `SyncProgress`
--   Sqlite      transactions as `WorkspaceStore.transaction` nests them
--   State       src/remote_sandbox/state.py, by table: Bases, Events, Echoes, Conflicts, Initial,
--               Requeue; Codec holds the JSON payloads; the other files hold the theorems
--   Engine      src/remote_sandbox/_engine_planning.py: planning again with the digests that were
--               missing
--   Sync        src/remote_sandbox/engine.py, _engine_events.py and _engine_audit.py, and the
--               batches of transport.py: Machine holds the calls of a cycle, Outside what it asks
--               of the world, Gather what it reads before it plans, Mutate the transfers and
--               deletions, Results and Commit the transaction at the end, Execute both, Run the
--               whole cycle, Seed the initial synchronisation, Drift and Audit the audit; the
--               other files hold the theorems
--   RemoteStore src/remote_sandbox/remote_agent/store.py: events, watermarks and the watcher row
--   InitialPlan src/remote_sandbox/initial_sync.py: the direction and the plan of the first copy
--   Inotify     src/remote_sandbox/remote_agent/inotify.py: `parse_inotify_buffer`
--   Tests       concrete runs
--
-- State and operations: a store is a record of its tables (`Db`, `RemoteDb`); a method is a
-- function from a connection, the database with its open savepoints, to a result and the next
-- connection (`Sqlite.Exec`). Calls that raise return an error with the class of the exception,
-- without its message; what was written before stays unless a transaction rolls it back. The time
-- of day and generated ids are arguments.
--
-- A cycle of the engine works on a `Sync.Machine`: the store, the state of all that is outside,
-- and the local variables that an `except` block still reads. The disks, the transport, the agent,
-- the clock and the ids are the record `Sync.Outside`, a parameter whose calls may raise and may
-- do anything to the outside, but not write to the store. The reads of one planning see the
-- outside as it is when the planning starts.
--
-- All functions are by structural recursion, so there is no fuel. Python's integers are natural
-- numbers where the code rejects negative ones, and `ℤ` in fingerprints. Times are whole clock
-- ticks. Type checks at run time that the types here express are left out.
--
-- Not modelled: disk, ssh, process and terminal I/O, and with it the command line, the daemon, the
-- registry, the settings, the shell, and the transports themselves; the watchers but for the
-- decoding of their records; threads, since every store method holds the lock of its store, and
-- other processes that share a store; a statement `BEGIN` or `COMMIT` that fails, because the
-- database is locked or full (`BEGIN` and `SAVEPOINT` both are one snapshot of the database);
-- migrations of old schemas; the JSON form of a status and of the fingerprints in a conflict,
-- which are kept as values; the order of rows in results that are dicts; in
-- initial_sync.py, _engine_audit.py and the deletions of engine.py, that `MissingEntry(path)`
-- normalises a path once more, which raises for one that begins like an absolute Windows path.
pub mod Base
pub mod Paths
pub mod Replica
pub mod Manifest
pub mod Reconcile
pub mod Journal
pub mod Sqlite
pub mod Status
pub mod State
pub mod RemoteStore
pub mod Engine
pub mod Policy
pub mod Inotify
pub mod Sync
pub mod InitialPlan
pub mod Tests
