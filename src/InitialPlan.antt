-- ===== src/InitialPlan.antt =====
-- The planning of src/remote_sandbox/initial_sync.py: which side an initial synchronisation copies from,
-- and what it copies. An `InitialSyncError` is a runtime error; the limit is a natural number.
pub mod Sources
use remote_sandbox_cli.Base.{
  ℕ, Bool, true, false, not, ◌&&◌, ◌||◌, Option, none, some, List, [], ◌∷◌, map, if◌then◌else◌,
  ◌==◌, Text, text_eq, option_text_eq, contains, select,
}
use remote_sandbox_cli.Base.Dict.{Dict, lookup, insert}
use remote_sandbox_cli.Base.Sets.{is_empty}
use remote_sandbox_cli.Base.Sort.{sort}
use remote_sandbox_cli.Base.Result.{Result, ok, err, runtime_error, key_error, ◌>>=◌}
use remote_sandbox_cli.Replica.{Side, local, remote}
use remote_sandbox_cli.Manifest.{
  EntryFingerprint, FingerprintState, EntryKind, kind_eq, option_int_eq, entry, missing, file, dir,
  symlink, special, entry_fingerprint,
}
use remote_sandbox_cli.Policy.{PolicyDecision, placeholder, decision_eq, exceeds}
use remote_sandbox_cli.Reconcile.Plan.{Entries, text_lt}
use remote_sandbox_cli.Sqlite
use remote_sandbox_cli.State.Tables.{Store}
use remote_sandbox_cli.State.Bases.{list_base}
use remote_sandbox_cli.State.Echoes.{get_expected_echo}
use remote_sandbox_cli.Sync.Sources.{sorted_paths}
use remote_sandbox_cli.Sync.Transfer.{
  TransferDirection, push_direction, pull_direction, TransferItem, TransferBatch, transfer_item,
  transfer_batch,
}

pub data InitialDirection : Type 0 where
  local_to_remote remote_to_local empty : InitialDirection

pub record InitialSyncPlan : Type 0 where
  pub transfer_batch : Option TransferBatch
  pub placeholders : Dict Text EntryFingerprint

abbrev pub has_echo : Option FingerprintState → Bool
has_echo none = false
has_echo (some state) = true

-- The loop over the base.
abbrev pub direction_of_base : List Text → Store InitialDirection
direction_of_base [] = Sqlite.lift (err runtime_error)
direction_of_base (path ∷ paths) = Sqlite.◌>>=◌ (get_expected_echo remote path) λ sent.
    if has_echo sent
    then Sqlite.pure local_to_remote
    else (Sqlite.◌>>=◌ (get_expected_echo local path) λ fetched.
        if has_echo fetched then Sqlite.pure remote_to_local else direction_of_base paths)

-- `choose_initial_direction`
unfoldable pub choose_initial_direction :
    Dict Text EntryFingerprint → Dict Text EntryFingerprint → Store InitialDirection
choose_initial_direction [] [] = Sqlite.pure empty
choose_initial_direction (x ∷ l) [] = Sqlite.pure local_to_remote
choose_initial_direction [] (y ∷ r) = Sqlite.pure remote_to_local
choose_initial_direction (x ∷ l) (y ∷ r) =
    Sqlite.◌>>=◌ list_base λ base. direction_of_base (sorted_paths base)

abbrev pub quick_matches_entry : EntryFingerprint → EntryFingerprint → Bool
quick_matches_entry o e = elim o.kind [
  | file ↦ o.size == e.size && o.mtime_ns == e.mtime_ns && o.mode == e.mode
  | symlink ↦ o.link_target == e.link_target
  | dir ↦ o.mode == e.mode
  | special ↦ o.mode == e.mode
]

-- `_quick_matches`
unfoldable pub quick_matches : FingerprintState → EntryFingerprint → Bool
quick_matches (missing p) e = false
quick_matches (entry o) e = o.kind == e.kind && quick_matches_entry o e

abbrev pub or_missing : Text → Option EntryFingerprint → FingerprintState
or_missing path none = missing (some path)
or_missing path (some e) = entry e

abbrev pub has_key : Option EntryFingerprint → Bool
has_key none = false
has_key (some e) = true

abbrev pub or_changed : Option FingerprintState → Result EntryFingerprint
or_changed none = err key_error
or_changed (some (missing p)) = err runtime_error
or_changed (some (entry e)) = if e.content_hash == none then err runtime_error else ok e

-- One round of the loop over the placeholder paths.
abbrev pub placeholder_of : Entries → Text → Result EntryFingerprint
placeholder_of strong path = do
  e ← or_changed (lookup path strong)
  entry_fingerprint (record e { path = path; is_placeholder = true })

abbrev pub placeholders_of : Entries → List Text → Result (Dict Text EntryFingerprint)
placeholders_of strong [] = ok []
placeholders_of strong (path ∷ paths) = do
  e ← placeholder_of strong path
  rest ← placeholders_of strong paths
  ok ((path, e) ∷ rest)

-- Whether both sides are still as they were when they last agreed.
abbrev pub agreed : Option EntryFingerprint → EntryFingerprint → FingerprintState → Bool
agreed none e destination = false
agreed (some b) e destination = quick_matches (entry e) b && quick_matches destination b

abbrev pub is_skipped : Bool → EntryFingerprint → Option EntryFingerprint → Bool
is_skipped is_push e held = e.kind == special || has_key held || (is_push && e.is_placeholder)

abbrev pub add_item :
    Bool → Result TransferItem → Result (List TransferItem) → Result (List TransferItem)
add_item true item rest = rest
add_item false item rest = do i ← item; items ← rest; ok (i ∷ items)

-- The loop over the entries of the source.
abbrev pub items_from :
    Bool
    → Dict Text EntryFingerprint
    → Dict Text EntryFingerprint
    → Dict Text EntryFingerprint
    → Dict Text EntryFingerprint
    → Result (List TransferItem)
items_from is_push destination persisted placeholders [] = ok []
items_from is_push destination persisted placeholders ((path, e) ∷ rows) =
    let found = or_missing path (lookup path destination) in
    add_item
      (is_skipped is_push e (lookup path placeholders) || agreed (lookup path persisted) e found)
      (transfer_item (record {
        path = path;
        expected_source = some (entry e);
        expected_destination = some found;
      }))
      (items_from is_push destination persisted placeholders rows)

abbrev pub is_directory_item : Option FingerprintState → Bool
is_directory_item (some (entry e)) = e.kind == dir
is_directory_item state = false

-- Directories come first, then by path.
abbrev pub item_le : TransferItem → TransferItem → Bool
item_le a b =
    if is_directory_item a.expected_source && not (is_directory_item b.expected_source)
    then true
    else not (not (is_directory_item a.expected_source) && is_directory_item b.expected_source)
      && not (text_lt b.path a.path)

abbrev pub batch_of : TransferDirection → List TransferItem → Result (Option TransferBatch)
batch_of direction [] = ok none
batch_of direction (item ∷ items) = do
  batch ← transfer_batch (record { direction = direction; items = item ∷ items })
  ok (some batch)

abbrev pub plan_of :
    Bool
    → Dict Text EntryFingerprint
    → Dict Text EntryFingerprint
    → Dict Text EntryFingerprint
    → Dict Text EntryFingerprint
    → Result InitialSyncPlan
plan_of is_push source destination persisted placeholders = do
  items ← items_from is_push destination persisted placeholders source
  batch ← batch_of (if is_push then push_direction else pull_direction) (sort item_le items)
  ok (record { transfer_batch = batch; placeholders = placeholders })

module _ (classify : EntryFingerprint → Side → Result PolicyDecision)
    (hash_paths : List Text → Result Entries) (placeholder_limit : ℕ) where
  abbrev pub is_large : EntryFingerprint → Result Bool
  is_large e =
      if not (e.kind == file)
      then ok false
      else if exceeds e.size (some placeholder_limit)
      then ok true
      else (do decision ← classify e remote; ok (decision == placeholder))

  abbrev pub large_rows : Dict Text EntryFingerprint → Result (Dict Text EntryFingerprint)
  large_rows [] = ok []
  large_rows ((path, e) ∷ rows) = do
    large ← is_large e
    rest ← large_rows rows
    ok (if large then (path, e) ∷ rest else rest)

  abbrev pub hash_some : List Text → Result Entries
  hash_some [] = ok []
  hash_some (path ∷ paths) = hash_paths (path ∷ paths)

  -- `build_initial_plan`
  unfoldable pub build_initial_plan :
      InitialDirection
      → Dict Text EntryFingerprint
      → Dict Text EntryFingerprint
      → Dict Text EntryFingerprint
      → Result InitialSyncPlan
  build_initial_plan empty l r base = ok (record { transfer_batch = none; placeholders = [] })
  build_initial_plan local_to_remote l r base = plan_of true l r base []
  build_initial_plan remote_to_local l r base = do
    large ← large_rows r
    strong ← hash_some (sorted_paths large)
    placeholders ← placeholders_of strong (sorted_paths large)
    plan_of false r l base placeholders

abbrev pub kept_batch : List Text → Option TransferBatch → Result (Option TransferBatch)
kept_batch changed none = ok none
kept_batch changed (some batch) =
    batch_of batch.direction
      (select (λ (item : TransferItem). not (contains changed item.path)) batch.items)

-- `_exclude_changed_paths`
unfoldable pub exclude_changed_paths : InitialSyncPlan → List Text → Result InitialSyncPlan
exclude_changed_paths plan changed = do
  batch ← kept_batch changed plan.transfer_batch
  ok (record {
    transfer_batch = batch;
    placeholders = select (λ (path, e). not (contains changed path)) plan.placeholders;
  })
