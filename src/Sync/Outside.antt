-- ===== src/Sync/Outside.antt =====
-- What the engine asks of the world: the readers of both replicas, the transport and the agent
-- (`LocalMetadata`, `ProtectedLocalRoot`, `RemoteReplica`, `SyncTransport`), and the system.
use remote_sandbox_cli.Base.{ℕ, Bool, Option, List, Text}
use remote_sandbox_cli.Base.Dict.{Dict}
use remote_sandbox_cli.Base.Result.{Result}
use remote_sandbox_cli.Manifest.{EntryFingerprint, FingerprintState}
use remote_sandbox_cli.Journal.{JournalEvent}
use remote_sandbox_cli.Reconcile.Plan.{Entries}
use remote_sandbox_cli.State.Tables.{AuditSignature, Store}
use remote_sandbox_cli.Sync.Machine.{Call, on_world, on_store, ◌>>=◌}
use remote_sandbox_cli.Sync.Transfer.{TransferBatch, TransferResult}

-- What is at the given paths, with the signature of what is there.
abbrev pub Observations : Type 0
Observations = Entries × Dict Text (Option AuditSignature)

abbrev pub Snapshot : Type 0
Snapshot = Dict Text EntryFingerprint × Dict Text AuditSignature

pub record Outside (W : Type 0) : Type 0 where
  -- The results that are reported to `on_progress`, and the end of the transfer.
  pub transfer : TransferBatch → W → (List TransferResult × Result TransferResult) × W
  pub delete_local : Dict Text FingerprintState → W → Result TransferResult × W
  pub delete_remote : Dict Text FingerprintState → W → Result TransferResult × W
  -- `LocalMetadata.paths(paths, with_hash=…, base=…)`
  pub local_paths : List Text → Bool → Dict Text EntryFingerprint → W → Result Entries × W
  pub metadata_paths : List Text → W → Result Entries × W
  pub hash_paths : List Text → W → Result Entries × W
  -- `LocalMetadata.observations(paths, with_hash=True, base=…)`, `LocalMetadata.snapshot_with_signatures`
  pub local_observations : List Text → Dict Text EntryFingerprint → W → Result Observations × W
  pub local_snapshot : Dict Text EntryFingerprint → W → Result Snapshot × W
  pub remote_observations : List Text → W → Result Observations × W
  pub remote_snapshot : W → Result Snapshot × W
  -- `ProtectedLocalRoot.read_entry`
  pub read_entry : Text → W → Result (FingerprintState × Option (List ℕ)) × W
  pub read_path : Text → W → Result (Option (List ℕ)) × W
  pub acknowledge : ℕ → W → Result ℕ × W
  pub events_after : ℕ → W → Result (List JournalEvent) × W
  -- `time.time()` and `uuid.uuid4().hex`
  pub now : W → Result ℕ × W
  pub uuid : W → Result Text × W
  -- `hashlib.sha256(blob).hexdigest()` and `os.fsdecode`
  pub sha256 : List ℕ → Text
  pub fsdecode : List ℕ → Text

-- A method of the store that reads the clock.
abbrev pub timed : {W A : Type 0} → Outside W → (ℕ → Store A) → Call W A
timed out f = do time ← on_world out.now; on_store (f time)
