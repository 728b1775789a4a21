-- ===== src/State/Conflicts.antt =====
-- The conflicts table: preserved versions, and when each conflict was resolved.
use remote_sandbox_cli.Base.{
  ℕ, Bool, true, false, not, ◌&&◌, ◌||◌, Option, none, some, List, [], ◌∷◌, ◌++◌, map,
  if◌then◌else◌, ◌==◌, Text, text_eq, any, select, length, ltb, nat_eq,
}
use remote_sandbox_cli.Base.Result.{
  Result, ok, err, value_error, key_error, integrity_error, require,
}
use remote_sandbox_cli.Base.Result
use remote_sandbox_cli.Base.Sort.{sort}
use remote_sandbox_cli.Paths.{normalize_relative_path}
use remote_sandbox_cli.Manifest.{EntryFingerprint}
use remote_sandbox_cli.Reconcile.Plan.{text_lt}
use remote_sandbox_cli.Sqlite.{pure, lift, query, execute, transaction, ◌>>=◌, ◌>>◌}
use remote_sandbox_cli.State.Tables.{ConflictRecord, Store}

abbrev pub is_unresolved : ConflictRecord → Bool
is_unresolved r = elim r.resolved_at [ none ↦ true | some _ ↦ false ]

-- `resolved_at = COALESCE(resolved_at, ?)`
abbrev pub resolve_at : ℕ → ConflictRecord → ConflictRecord
resolve_at now r = elim r.resolved_at [ none ↦ record r { resolved_at = some now } | some _ ↦ r ]

abbrev pub open_at : Text → ConflictRecord → Bool
open_at path r = r.path == path && is_unresolved r

abbrev pub resolve_open : ℕ → Text → ConflictRecord → ConflictRecord
resolve_open now path r = if open_at path r then resolve_at now r else r

abbrev pub has_id : Text → ConflictRecord → Bool
has_id conflict_id r = r.conflict_id == conflict_id

abbrev pub set_conflicts : (List ConflictRecord → List ConflictRecord) → Store (Unit {0})
set_conflicts f = execute (λ db. record db { conflicts = f db.conflicts })

-- `INSERT INTO conflicts`: the id is the primary key, and the index `conflicts_one_unresolved_per_path`
-- admits one unresolved row for a path.
unfoldable pub insert_conflict : ConflictRecord → Store (Unit {0})
insert_conflict r = do
  clash ← query (λ db.
      any (has_id r.conflict_id) db.conflicts
      || (is_unresolved r && any (open_at r.path) db.conflicts))
  if clash then lift (err integrity_error) else set_conflicts (λ rows. rows ++ (r ∷ []))

abbrev fingerprint_at_path : Text → Option EntryFingerprint → Bool
fingerprint_at_path path none = true
fingerprint_at_path path (some e) = e.path == path

abbrev is_none {ℓ} : {A : Type ℓ} → Option A → Bool
is_none none = true
is_none (some _) = false

-- The arguments of `create_conflict`.
pub record NewConflict : Type 0 where
  pub path : Text
  pub reason : Text
  pub local_blob : Option (List ℕ)
  pub remote_blob : Option (List ℕ)
  pub local_fingerprint : Option EntryFingerprint
  pub remote_fingerprint : Option EntryFingerprint

-- The checks of `create_conflict`; the result is the normalised path.
unfoldable pub check_conflict : NewConflict → Result Text
check_conflict n = Result.◌>>=◌ (normalize_relative_path n.path) λ path.
    Result.◌>>◌ (require (not (n.reason == [])) value_error) (
      Result.◌>>◌ (require (not (is_none n.local_blob && is_none n.remote_blob)) value_error) (
        Result.◌>>◌
          (require
            (fingerprint_at_path path n.local_fingerprint
              && fingerprint_at_path path n.remote_fingerprint)
            value_error)
          (ok path)))

abbrev pub new_record : ℕ → Text → Text → NewConflict → ConflictRecord
new_record now conflict_id path n = record {
  conflict_id = conflict_id;
  path = path;
  reason = n.reason;
  local_blob = n.local_blob;
  remote_blob = n.remote_blob;
  local_fingerprint = n.local_fingerprint;
  remote_fingerprint = n.remote_fingerprint;
  created_at = now;
  resolved_at = none;
}

-- `now` is what `time.time()` returns, and `conflict_id` is `uuid.uuid4().hex`.
unfoldable pub create_conflict : ℕ → Text → NewConflict → Store ConflictRecord
create_conflict now conflict_id n = do
  path ← lift (check_conflict n)
  transaction (do
    set_conflicts (map (resolve_open now path))
    insert_conflict (new_record now conflict_id path n))
  pure (new_record now conflict_id path n)

unfoldable pub find_conflict : Text → List ConflictRecord → Option ConflictRecord
find_conflict conflict_id [] = none
find_conflict conflict_id (r ∷ rows) =
    if has_id conflict_id r then some r else find_conflict conflict_id rows

abbrev pub or_key_error : Option ConflictRecord → Result ConflictRecord
or_key_error none = err key_error
or_key_error (some r) = ok r

unfoldable pub get_conflict : Text → Store ConflictRecord
get_conflict conflict_id = do
  row ← query (λ db. find_conflict conflict_id db.conflicts)
  lift (or_key_error row)

-- `ORDER BY created_at, conflict_id`
unfoldable pub conflict_le : ConflictRecord → ConflictRecord → Bool
conflict_le a b =
    ltb a.created_at b.created_at
    || (a.created_at == b.created_at && not (text_lt b.conflict_id a.conflict_id))

unfoldable pub list_conflicts : Bool → Store (List ConflictRecord)
list_conflicts unresolved_only =
    query
      (λ db. sort conflict_le (select (λ r. not unresolved_only || is_unresolved r) db.conflicts))

unfoldable pub resolve_conflict : ℕ → Text → Store ConflictRecord
resolve_conflict timestamp conflict_id = do
  transaction (do
    found ← query (λ db. any (has_id conflict_id) db.conflicts)
    set_conflicts (map (λ r. if has_id conflict_id r then resolve_at timestamp r else r))
    lift (require found key_error))
  get_conflict conflict_id

unfoldable pub resolve_conflicts_for_path : ℕ → Text → Store ℕ
resolve_conflicts_for_path timestamp p = do
  path ← lift (normalize_relative_path p)
  transaction (do
    count ← query (λ db. length (select (open_at path) db.conflicts))
    set_conflicts (map (resolve_open timestamp path))
    pure count)
