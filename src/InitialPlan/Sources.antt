-- ===== src/InitialPlan/Sources.antt =====
-- What the initial plan of src/remote_sandbox/initial_sync.py copies, and over what.
use mathlib.Core.List.{Memᴰ}
use remote_sandbox_cli.Base.{
  ℕ, ◌≡◌, refl, sym, ◌∙◌, ap, subst, Bool, text_eq, not, true, false, ◌||◌, ◌&&◌, some, List, [],
  ◌∷◌, Text, All, if◌then◌else◌, ||_eq_false, ◌==◌,
}
use remote_sandbox_cli.Base.Dict.{Dict, lookup}
use remote_sandbox_cli.Base.Sort.{sort, All-sort}
use remote_sandbox_cli.Base.Result.{
  Result, ok, ok_injective, >>=-eq-ok, require, require->>, value_error, ◌>>◌,
}
use remote_sandbox_cli.Paths.{normalize_relative_path}
use remote_sandbox_cli.Manifest.{EntryFingerprint, entry, kind_eq, special}
use remote_sandbox_cli.Replica.{Side}
use remote_sandbox_cli.Policy.{PolicyDecision}
use remote_sandbox_cli.Reconcile.Plan.{Entries}
use remote_sandbox_cli.Sync.Sources.{sorted_paths}
use remote_sandbox_cli.Sync.Transfer.{
  TransferDirection, push_direction, pull_direction, TransferItem, TransferBatch, validate_expected,
  repeats, item_paths, transfer_item, transfer_batch,
}
use remote_sandbox_cli.InitialPlan.{
  InitialSyncPlan, or_missing, has_key, agreed, is_skipped, add_item, items_from, batch_of, plan_of,
  item_le, build_initial_plan, InitialDirection, local_to_remote, remote_to_local, empty,
  large_rows, hash_some, placeholders_of,
}

-- The item comes from a row of the source, at the normal form of the row's path: it replaces what
-- the snapshot of the destination has there, and the row is no special file, no stub that would be
-- sent as if it were the file, and not unchanged on both sides.
pub record FromSource (is_push : Bool) (source destination persisted : Dict Text EntryFingerprint)
    (item : TransferItem) : Type 0 where
  pub path : Text
  pub source_entry : EntryFingerprint
  pub of_source : Memᴰ (path, source_entry) source
  pub at_path : normalize_relative_path path ≡ ok item.path
  pub from_source : item.expected_source ≡ some (entry source_entry)
  pub onto_destination :
      item.expected_destination ≡ some (or_missing path (lookup path destination))
  pub not_special : (source_entry.kind == special) ≡ false
  pub not_stub : (is_push && source_entry.is_placeholder) ≡ false
  pub not_agreed :
      agreed (lookup path persisted) source_entry (or_missing path (lookup path destination))
      ≡ false

some_injective : (a b : TransferBatch) → some a ≡ some b → a ≡ b
some_injective a b h = cc

transfer_item-fields :
    (item made : TransferItem)
    → transfer_item item ≡ ok made
    → (normalize_relative_path item.path ≡ ok made.path)
      × (made.expected_source ≡ item.expected_source)
      × (made.expected_destination ≡ item.expected_destination)
unfolding transfer_item
transfer_item-fields item made h =
    let (path, normal, h) = >>=-eq-ok (normalize_relative_path item.path) _ h in
    let (_, _, h) = >>=-eq-ok (validate_expected item.expected_source path) _ h in
    let (_, _, h) = >>=-eq-ok (validate_expected item.expected_destination path) _ h in
    let same = ok_injective (record item { path = path }) made h in
    (
      normal ∙ ap (λ (i : TransferItem). ok i.path) same,
      ap (λ (i : TransferItem). i.expected_source) (sym same),
      ap (λ (i : TransferItem). i.expected_destination) (sym same),
    )

module _ (is_push : Bool)
    (source destination persisted placeholders : Dict Text EntryFingerprint) where
  add_item-FromSource :
      (path : Text) (e : EntryFingerprint) (rest : Result (List TransferItem))
      (items : List TransferItem)
      → Memᴰ (path, e) source
      → ((more : List TransferItem)
          → rest ≡ ok more
          → All (FromSource is_push source destination persisted) more)
      → (skipped : Bool)
      → (is_skipped is_push e (lookup path placeholders)
          || agreed (lookup path persisted) e (or_missing path (lookup path destination)))
        ≡ skipped
      → add_item skipped
          (transfer_item (record {
            path = path;
            expected_source = some (entry e);
            expected_destination = some (or_missing path (lookup path destination));
          }))
          rest
        ≡ ok items
      → All (FromSource is_push source destination persisted) items
  add_item-FromSource path e rest items held ih true k h = ih items h
  add_item-FromSource path e rest items held ih false k h =
      let asked : TransferItem = record {
        path = path;
        expected_source = some (entry e);
        expected_destination = some (or_missing path (lookup path destination));
      } in
      let (item, made, h) = >>=-eq-ok (transfer_item asked) _ h in
      let (more, at_rest, h) = >>=-eq-ok rest _ h in
      let (skipped, not_agreed) =
        ||_eq_false (is_skipped is_push e (lookup path placeholders)) _ k in
      let (kept, not_stub) =
        ||_eq_false (e.kind == special || has_key (lookup path placeholders))
          (is_push && e.is_placeholder) skipped in
      let (not_special, _) =
        ||_eq_false (e.kind == special) (has_key (lookup path placeholders)) kept in
      let (at_path, from_source, onto_destination) = transfer_item-fields asked item made in
      subst (All (FromSource is_push source destination persisted))
        (ok_injective (item ∷ more) items h)
        (
          record {
            path = path;
            source_entry = e;
            of_source = held;
            at_path = at_path;
            from_source = from_source;
            onto_destination = onto_destination;
            not_special = not_special;
            not_stub = not_stub;
            not_agreed = not_agreed;
          },
          ih more at_rest,
        )

  items_from-FromSource :
      (rows : Dict Text EntryFingerprint) (items : List TransferItem)
      → ((row : Text × EntryFingerprint) → Memᴰ row rows → Memᴰ row source)
      → items_from is_push destination persisted placeholders rows ≡ ok items
      → All (FromSource is_push source destination persisted) items
  items_from-FromSource [] items held h =
      subst (All (FromSource is_push source destination persisted)) (ok_injective [] items h) tt
  items_from-FromSource ((path, e) ∷ rows) items held h =
      add_item-FromSource path e (items_from is_push destination persisted placeholders rows) items
        (held (path, e) (Memᴰ.head refl))
        (λ more. items_from-FromSource rows more (λ row m. held row (Memᴰ.tail m))) _ refl h

  batch_of-items :
      (direction : TransferDirection) (items : List TransferItem) (batch : TransferBatch)
      → batch_of direction items ≡ ok (some batch)
      → batch.items ≡ items
  unfolding transfer_batch
  batch_of-items direction [] batch h = cc
  batch_of-items direction (item ∷ items) batch h =
      let asked : TransferBatch = record { direction = direction; items = item ∷ items } in
      let (made, at_made, h) = >>=-eq-ok (transfer_batch asked) _ h in
      let distinct = not (repeats (item_paths (item ∷ items))) in
      let (_, at_made) =
        require->> true value_error (require distinct value_error >> ok asked) at_made in
      let (_, at_made) = require->> distinct value_error (ok asked) at_made in
      ap (λ (b : TransferBatch). b.items)
        (sym (some_injective made batch (ok_injective (some made) (some batch) h))
          ∙ sym (ok_injective asked made at_made))

  plan_of-FromSource :
      (plan : InitialSyncPlan) (batch : TransferBatch)
      → plan_of is_push source destination persisted placeholders ≡ ok plan
      → plan.transfer_batch ≡ some batch
      → All (FromSource is_push source destination persisted) batch.items
  plan_of-FromSource plan batch h k =
      let direction : TransferDirection = if is_push then push_direction else pull_direction in
      let (items, at_items, h) =
        >>=-eq-ok (items_from is_push destination persisted placeholders source) _ h in
      let (made, at_made, h) = >>=-eq-ok (batch_of direction (sort item_le items)) _ h in
      let same : made ≡ plan.transfer_batch =
        ap (λ (p : InitialSyncPlan). p.transfer_batch) (ok_injective _ plan h) in
      subst (All (FromSource is_push source destination persisted))
        (sym (batch_of-items direction (sort item_le items) batch (at_made ∙ ap ok (same ∙ k))))
        (All-sort item_le (FromSource is_push source destination persisted) items
          (items_from-FromSource source items (λ row m. m) at_items))

-- Which side is written to, and whether it is the remote one.
abbrev pub is_push_to_remote : InitialDirection → Bool
is_push_to_remote local_to_remote = true
is_push_to_remote remote_to_local = false
is_push_to_remote empty = false

abbrev pub destination_of :
    InitialDirection
    → Dict Text EntryFingerprint
    → Dict Text EntryFingerprint
    → Dict Text EntryFingerprint
destination_of local_to_remote l r = r
destination_of remote_to_local l r = l
destination_of empty l r = l

abbrev pub source_of :
    InitialDirection
    → Dict Text EntryFingerprint
    → Dict Text EntryFingerprint
    → Dict Text EntryFingerprint
source_of local_to_remote l r = l
source_of remote_to_local l r = r
source_of empty l r = []

-- Every transfer that an initial synchronisation plans has an entry of the copied side as its
-- source, is made at the normal form of the path that this side has the entry at, and expects there
-- what was found at that path on the other side. It sends no special file, no placeholder's
-- stub to the remote host, and nothing that both sides still hold as they last agreed.
pub build_initial_plan-FromSource :
    (classify : EntryFingerprint → Side → Result PolicyDecision)
    (hash_paths : List Text → Result Entries) (limit : ℕ) (direction : InitialDirection)
    (l r base : Dict Text EntryFingerprint) (plan : InitialSyncPlan) (batch : TransferBatch)
    → build_initial_plan classify hash_paths limit direction l r base ≡ ok plan
    → plan.transfer_batch ≡ some batch
    → All
        (FromSource
          (is_push_to_remote direction)
          (source_of direction l r)
          (destination_of direction l r)
          base)
        batch.items
unfolding build_initial_plan
build_initial_plan-FromSource classify hash_paths limit empty l r base plan batch h k =
    cc (ap (λ (p : InitialSyncPlan). p.transfer_batch) (ok_injective _ plan h), k)
build_initial_plan-FromSource classify hash_paths limit local_to_remote l r base plan batch h k =
    plan_of-FromSource true l r base [] plan batch h k
build_initial_plan-FromSource classify hash_paths limit remote_to_local l r base plan batch h k =
    let (large, _, h) = >>=-eq-ok (large_rows classify hash_paths limit r) _ h in
    let (strong, _, h) = >>=-eq-ok (hash_some classify hash_paths limit (sorted_paths large)) _ h in
    let (placeholders, _, h) = >>=-eq-ok (placeholders_of strong (sorted_paths large)) _ h in
    plan_of-FromSource false r l base placeholders plan batch h k
