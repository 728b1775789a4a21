-- ===== src/State/Tables.antt =====
-- The tables that `_create_current_schema` creates. A table with a primary key is a dict; the two
-- rows of `schema_meta` that the store reads and writes are fields. Times are counts of clock ticks.
use remote_sandbox_cli.Base.{ℕ, Option, List, Bool, Text}
use remote_sandbox_cli.Base.Dict.{Dict}
use remote_sandbox_cli.Replica.{Side}
use remote_sandbox_cli.Manifest.{EntryKind, EntryFingerprint}
use remote_sandbox_cli.Journal.{JournalEvent, EventKey}
use remote_sandbox_cli.Status.{WorkspaceStatus}
use remote_sandbox_cli.Sqlite.{Exec}
use remote_sandbox_cli.State.Codec.{Payload}

-- A row of `events`.
pub record EventRow : Type 0 where
  pub event : JournalEvent
  pub created_at : ℕ

-- A blob is the list of its bytes.
pub record ConflictRecord : Type 0 where
  pub conflict_id : Text
  pub path : Text
  pub reason : Text
  pub local_blob : Option (List ℕ)
  pub remote_blob : Option (List ℕ)
  pub local_fingerprint : Option EntryFingerprint
  pub remote_fingerprint : Option EntryFingerprint
  pub created_at : ℕ
  pub resolved_at : Option ℕ

pub record AuditSignature : Type 0 where
  pub path : Text
  pub kind : EntryKind
  pub ctime_ns : ℕ
  pub device : ℕ
  pub inode : ℕ

pub record Db : Type 0 where
  pub base_entries : Dict Text Payload
  pub events : List EventRow
  pub watermarks : Dict Side ℕ
  pub workspace_status : Option WorkspaceStatus
  pub initial_sync_checkpoint : Option (ℕ × ℕ)
  pub initial_sync_completed : Option Bool
  pub initial_sync_started_generation : Option ℕ
  pub expected_echoes : Dict EventKey (Payload × ℕ)
  pub conflicts : List ConflictRecord
  pub requeued_paths : Dict Text (Text × ℕ)
  pub audit_signatures : Dict EventKey AuditSignature

abbrev pub Store : Type 0 → Type 0
Store A = Exec Db A
