-- ===== src/Sync/Transfer.antt =====
-- The batches and results of src/remote_sandbox/transport.py.
use remote_sandbox_cli.Base.{
  Bool, false, not, ◌||◌, Option, none, some, List, [], ◌∷◌, map, Eq, ◌==◌, Text, text_eq,
  option_text_eq, contains, all,
}
use remote_sandbox_cli.Base.Sets.{is_empty}
use remote_sandbox_cli.Base.Result.{Result, ok, err, value_error, ◌>>=◌, ◌>>◌, require}
use remote_sandbox_cli.Paths.{normalize_relative_path}
use remote_sandbox_cli.Manifest.{EntryFingerprint, FingerprintState}
use remote_sandbox_cli.Reconcile.{
  ActionType, SyncAction, push, pull, delete_local, delete_remote, update_base, validate_snapshot,
}

pub data TransferDirection : Type 0 where
  push_direction pull_direction : TransferDirection

unfoldable pub TransferDirection-discrete : Discrete TransferDirection
TransferDirection-discrete = hlevel

instance abbrev pub direction_eq : Eq TransferDirection
direction_eq = record { dec = TransferDirection-discrete }

unfoldable pub ActionType-discrete : Discrete ActionType
ActionType-discrete = hlevel

instance abbrev pub action_type_eq : Eq ActionType
action_type_eq = record { dec = ActionType-discrete }

pub record TransferItem : Type 0 where
  pub path : Text
  pub expected_source : Option FingerprintState
  pub expected_destination : Option FingerprintState

pub record TransferBatch : Type 0 where
  pub direction : TransferDirection
  pub items : List TransferItem

pub record TransferResult : Type 0 where
  pub completed : List Text
  pub changed_during_transfer : List Text
  pub verified_fingerprints : List EntryFingerprint

-- `_validate_expected`
abbrev pub validate_expected : Option FingerprintState → Text → Result (Unit {0})
validate_expected none path = ok tt
validate_expected (some state) path = validate_snapshot state path

-- `TransferItem(…)`
unfoldable pub transfer_item : TransferItem → Result TransferItem
transfer_item item = do
  path ← normalize_relative_path item.path
  validate_expected item.expected_source path
  validate_expected item.expected_destination path
  ok (record item { path = path })

abbrev pub repeats : List Text → Bool
repeats [] = false
repeats (p ∷ ps) = contains ps p || repeats ps

abbrev pub item_paths : List TransferItem → List Text
item_paths = map (λ (item : TransferItem). item.path)

-- `TransferBatch(…)`
unfoldable pub transfer_batch : TransferBatch → Result TransferBatch
transfer_batch batch = do
  require (not (is_empty batch.items)) value_error
  require (not (repeats (item_paths batch.items))) value_error
  ok batch

-- What one action of `from_actions` adds to the two lists.
abbrev pub item_of : SyncAction → Result (TransferDirection × TransferItem)
item_of a = elim a.type [
  | push ↦ (do
    item ← transfer_item (record {
      path = a.path;
      expected_source = some a.expected_local;
      expected_destination = some a.expected_remote;
    })
    ok (push_direction, item))
  | pull ↦ (do
    item ← transfer_item (record {
      path = a.path;
      expected_source = some a.expected_remote;
      expected_destination = some a.expected_local;
    })
    ok (pull_direction, item))
  | delete_local ↦ err value_error
  | delete_remote ↦ err value_error
  | update_base ↦ err value_error
]

abbrev pub items_of : List SyncAction → Result (List (TransferDirection × TransferItem))
items_of [] = ok []
items_of (a ∷ actions) = do item ← item_of a; rest ← items_of actions; ok (item ∷ rest)

abbrev pub one_direction : List (TransferDirection × TransferItem) → Result TransferBatch
one_direction [] = err value_error
one_direction ((d, item) ∷ rest) = do
  require (all (λ (d', _). d' == d) rest) value_error
  transfer_batch (record { direction = d; items = item ∷ map (λ (_, i). i) rest })

-- `TransferBatch.from_actions`
unfoldable pub from_actions : List SyncAction → Result TransferBatch
from_actions actions = do items ← items_of actions; one_direction items
