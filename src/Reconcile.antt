-- ===== src/Reconcile.antt =====
-- The plan of src/remote_sandbox/reconcile.py: its parts, each built by a constructor that
-- normalises and checks the path again (`__post_init__`).
pub mod Compare
pub mod Plan
pub mod Merge
pub mod Mirror
pub mod Rest
pub mod Settle
pub mod Safety
pub mod Found
pub mod Whole
use remote_sandbox_cli.Base.{
  Bool, not, List, Option, some, ◌==◌, Text, text_eq, option_text_eq, codes, [],
}
use remote_sandbox_cli.Base.Result.{Result, ok, value_error, ◌>>=◌, ◌>>◌, require}
use remote_sandbox_cli.Paths.{normalize_relative_path}
use remote_sandbox_cli.Replica.{Side}
use remote_sandbox_cli.Manifest.{FingerprintState, state_path}

pub data ActionType : Type 0 where
  push pull delete_local delete_remote update_base : ActionType

pub record HashRequest : Type 0 where
  pub side : Side
  pub path : Text

pub record ConflictDecision : Type 0 where
  pub path : Text
  pub reason : Text
  pub local_state : FingerprintState
  pub remote_state : FingerprintState

pub record PlanWarning : Type 0 where
  pub path : Text
  pub reason : Text

pub record SyncAction : Type 0 where
  pub type : ActionType
  pub path : Text
  pub expected_local : FingerprintState
  pub expected_remote : FingerprintState
  pub base_after : FingerprintState

pub record SyncPlan : Type 0 where
  pub hash_requests : List HashRequest
  pub actions : List SyncAction
  pub conflicts : List ConflictDecision
  pub warnings : List PlanWarning

abbrev pub empty_plan : SyncPlan
empty_plan = record { hash_requests = []; actions = []; conflicts = []; warnings = [] }

-- `_validate_snapshot`
abbrev pub validate_snapshot : FingerprintState → Text → Result (Unit {0})
validate_snapshot state path = require (state_path state == some path) value_error

-- `_validate_reason`
abbrev pub validate_reason : Text → Result (Unit {0})
validate_reason reason = require (not (reason == [])) value_error

-- `HashRequest(side, path)`
unfoldable pub hash_request : Side → Text → Result HashRequest
hash_request side p = do path ← normalize_relative_path p; ok (record { side = side; path = path })

-- `ConflictDecision(path, reason, local, remote)`
unfoldable pub conflict_decision :
    Text → Text → FingerprintState → FingerprintState → Result ConflictDecision
conflict_decision p reason l r = do
  path ← normalize_relative_path p
  validate_reason reason
  validate_snapshot l path
  validate_snapshot r path
  ok (record { path = path; reason = reason; local_state = l; remote_state = r })

-- `PlanWarning(path, reason)`
unfoldable pub plan_warning : Text → Text → Result PlanWarning
plan_warning p reason = do
  path ← normalize_relative_path p
  validate_reason reason
  ok (record { path = path; reason = reason })

-- `SyncAction(type, path, expected_local, expected_remote, base_after)`
unfoldable pub sync_action :
    ActionType → Text → FingerprintState → FingerprintState → FingerprintState → Result SyncAction
sync_action type p l r after = do
  path ← normalize_relative_path p
  validate_snapshot l path
  validate_snapshot r path
  validate_snapshot after path
  ok (record {
    type = type;
    path = path;
    expected_local = l;
    expected_remote = r;
    base_after = after;
  })
