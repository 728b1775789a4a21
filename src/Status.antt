-- ===== src/Status.antt =====
-- src/remote_sandbox/status.py. A time in seconds, a float there, is a count of clock ticks here: the
-- code stores such times and compares them. Counts are natural numbers by their type.
use remote_sandbox_cli.Base.{ℕ, not, ◌||◌, Option, Eq, ◌==◌, Text, text_eq, nat_eq, [], leb}
use remote_sandbox_cli.Base.Result.{Result, ok, value_error, ◌>>◌, require}

pub data WorkspacePhase : Type 0 where
  starting initial_syncing ready syncing degraded disconnected failed stopped : WorkspacePhase

unfoldable pub WorkspacePhase-discrete : Discrete WorkspacePhase
WorkspacePhase-discrete = hlevel

instance abbrev pub phase_eq : Eq WorkspacePhase
phase_eq = record { dec = WorkspacePhase-discrete }

pub record SyncProgress : Type 0 where
  pub stage : Text
  pub files_done : ℕ
  pub files_total : ℕ
  pub bytes_done : ℕ
  pub bytes_total : ℕ
  pub current_path : Option Text
  pub elapsed_seconds : ℕ

pub record WorkspaceStatus : Type 0 where
  pub phase : WorkspacePhase
  pub progress : SyncProgress
  pub pending : ℕ
  pub conflicts : ℕ
  pub last_error : Option Text
  pub last_sync_at : Option ℕ

-- `SyncProgress(…)`: the constructor with its `__post_init__`.
unfoldable pub sync_progress : SyncProgress → Result SyncProgress
sync_progress p = do
  require (not (p.stage == [])) value_error
  require (p.files_total == 0 || leb p.files_done p.files_total) value_error
  require (p.bytes_total == 0 || leb p.bytes_done p.bytes_total) value_error
  ok p
