-- ===== src/Tests/Inputs.antt =====
-- Concrete paths, files and stores.
use remote_sandbox_cli.Base.{ℕ, false, none, some, [], Text, codes}
use remote_sandbox_cli.Manifest.{EntryFingerprint, file, pos}
use remote_sandbox_cli.Journal.{EventKind, JournalEvent}
use remote_sandbox_cli.Replica.{Side}
use remote_sandbox_cli.Status.{WorkspacePhase, WorkspaceStatus}
use remote_sandbox_cli.Sqlite.{Connection}
use remote_sandbox_cli.State.Tables.{Db}

abbrev pub a_txt : Text
a_txt = codes "a.txt"

abbrev pub b_txt : Text
b_txt = codes "b"

-- A file with the given digest.
abbrev pub file_with : Text → Text → EntryFingerprint
file_with path digest = record {
  path = path;
  kind = file;
  size = some (pos 3);
  mtime_ns = some (pos 7);
  mode = some (pos 420);
  link_target = none;
  content_hash = some digest;
  is_placeholder = false;
}

abbrev pub old_file : EntryFingerprint
old_file = file_with a_txt (codes "11")

abbrev pub new_file : EntryFingerprint
new_file = file_with a_txt (codes "22")

abbrev pub event_of : Side → ℕ → EventKind → Text → JournalEvent
event_of side n kind path = record {
  side = side;
  sequence = n;
  kind = kind;
  path = path;
  destination_path = none;
}

abbrev pub status_of : WorkspacePhase → WorkspaceStatus
status_of phase = record {
  phase = phase;
  progress = record {
    stage = codes "idle";
    files_done = 0;
    files_total = 0;
    bytes_done = 0;
    bytes_total = 0;
    current_path = none;
    elapsed_seconds = 0;
  };
  pending = 0;
  conflicts = 0;
  last_error = none;
  last_sync_at = none;
}

abbrev pub empty_store : Connection Db
empty_store = record {
  db = record {
    base_entries = [];
    events = [];
    watermarks = [];
    workspace_status = none;
    initial_sync_checkpoint = none;
    initial_sync_completed = none;
    initial_sync_started_generation = none;
    expected_echoes = [];
    conflicts = [];
    requeued_paths = [];
    audit_signatures = [];
  };
  savepoints = [];
}
