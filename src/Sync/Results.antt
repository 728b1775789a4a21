-- ===== src/Sync/Results.antt =====
-- The results of a cycle of src/remote_sandbox/engine.py, and what its end is computed from.
use remote_sandbox_cli.Base.{
  Bool, true, false, ◌&&◌, ◌||◌, Option, none, some, List, [], ◌∷◌, map, if◌then◌else◌, Eq, ◌==◌,
  Text, text_eq,
}
use remote_sandbox_cli.Base.Sets.{union, minus}
use remote_sandbox_cli.Base.Result.{Error, transfer_preflight_error}
use remote_sandbox_cli.Replica.{Side}
use remote_sandbox_cli.Manifest.{EntryFingerprint, FingerprintState, EntryFingerprint-discrete}
use remote_sandbox_cli.Journal.{EventKey, event_key_eq}
use remote_sandbox_cli.Status.{WorkspacePhase, SyncProgress, ready, degraded, phase_eq}
use remote_sandbox_cli.Reconcile.{SyncPlan, ConflictDecision, PlanWarning}
use remote_sandbox_cli.State.Tables.{ConflictRecord}
use remote_sandbox_cli.Reconcile.Plan.{insert_sorted}
use remote_sandbox_cli.Sync.Machine.{Locals}
use remote_sandbox_cli.Sync.Actions.{Intents, entry_or_none}

pub record EngineResult : Type 0 where
  pub transferred : List Text
  pub completed : List Text
  pub requeued : List Text
  pub echoes : List Text
  pub conflict_ids : List Text
  pub warnings : List PlanWarning

abbrev pub empty_result : EngineResult
empty_result = record {
  transferred = [];
  completed = [];
  requeued = [];
  echoes = [];
  conflict_ids = [];
  warnings = [];
}

-- `_Echo`
pub record Echo : Type 0 where
  pub side : Side
  pub path : Text
  pub observed : FingerprintState

unfoldable pub option_entry_discrete : Discrete (Option EntryFingerprint)
option_entry_discrete = hlevel EntryFingerprint-discrete

instance abbrev pub option_entry_eq : Eq (Option EntryFingerprint)
option_entry_eq = record { dec = option_entry_discrete }

-- `sorted(paths)` of a set.
abbrev pub sorted_set : List Text → List Text
sorted_set [] = []
sorted_set (path ∷ paths) = insert_sorted path (sorted_set paths)

-- `SyncProgress(stage)`
abbrev pub progress_of : Text → SyncProgress
progress_of stage = record {
  stage = stage;
  files_done = 0;
  files_total = 0;
  bytes_done = 0;
  bytes_total = 0;
  current_path = none;
  elapsed_seconds = 0;
}

abbrev pub is_settled : WorkspacePhase → Bool
is_settled phase = phase == ready || phase == degraded

-- The test of `_existing_conflict`.
abbrev pub same_conflict : ConflictDecision → ConflictRecord → Bool
same_conflict c r =
    r.path == c.path
    && r.reason == c.reason
    && r.local_fingerprint == entry_or_none c.local_state
    && r.remote_fingerprint == entry_or_none c.remote_state

abbrev pub find_record : ConflictDecision → List ConflictRecord → Option ConflictRecord
find_record c [] = none
find_record c (r ∷ rows) = if same_conflict c r then some r else find_record c rows

-- What `clear_requeued_paths` is given at the end of a cycle.
abbrev pub clearable : SyncPlan → List Text → List Text → Locals → List Text
clearable plan requeued_before deferred l =
    minus
      (minus
        (union
          (union (union l.completed (map (λ (c : ConflictDecision). c.path) plan.conflicts))
            (map (λ (w : PlanWarning). w.path) plan.warnings))
          requeued_before)
        l.changed)
      deferred

abbrev pub is_preflight : Error → Bool
is_preflight transfer_preflight_error = true
is_preflight _ = false

-- The intents whose announcement is withdrawn after a failure.
abbrev pub unused_intents : Error → Intents → Locals → List EventKey
unused_intents e intents l =
    let unused =
      union l.known_unused (minus (map (λ (key, _). key) intents) l.attempted_mutations) in
    if is_preflight e then union unused l.current_attempt else unused
