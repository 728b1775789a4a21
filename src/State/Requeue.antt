-- ===== src/State/Requeue.antt =====
-- Requeued paths, and the audit signatures of each side.
use remote_sandbox_cli.Base.{
  ℕ, Bool, not, Option, none, some, List, [], ◌∷◌, select, ◌==◌, Text, text_eq,
}
use remote_sandbox_cli.Base.Dict.{Dict, lookup, insert, erase}
use remote_sandbox_cli.Base.Result.{Result, ok, err, value_error, integrity_error, require}
use remote_sandbox_cli.Base.Result
use remote_sandbox_cli.Paths.{normalize_relative_path}
use remote_sandbox_cli.Replica.{Side, side_eq}
use remote_sandbox_cli.Journal.{EventKey, event_key_eq}
use remote_sandbox_cli.Reconcile.Plan.{insert_sorted, normalized_dirty_paths}
use remote_sandbox_cli.Sqlite.{lift, query, execute, transaction, for_each, ◌>>=◌, ◌>>◌}
use remote_sandbox_cli.State.Tables.{AuditSignature, Store}

abbrev pub set_requeued : (Dict Text (Text × ℕ) → Dict Text (Text × ℕ)) → Store (Unit {0})
set_requeued f = execute (λ db. record db { requeued_paths = f db.requeued_paths })

-- The sorted set of the normalised paths is what the planner takes of its dirty paths.
unfoldable pub requeue_paths : ℕ → List Text → Text → Store (Unit {0})
requeue_paths now paths reason = do
  lift (require (not (reason == [])) value_error)
  normalized ← lift (normalized_dirty_paths paths)
  transaction (for_each normalized (λ path. set_requeued (insert path (reason, now))) tt)

abbrev pub sorted_keys : Dict Text (Text × ℕ) → List Text
sorted_keys [] = []
sorted_keys ((path, _) ∷ rows) = insert_sorted path (sorted_keys rows)

unfoldable pub list_requeued_paths : Store (List Text)
list_requeued_paths = query (λ db. sorted_keys db.requeued_paths)

unfoldable pub clear_requeued_paths : List Text → Store (Unit {0})
clear_requeued_paths paths = do
  normalized ← lift (normalized_dirty_paths paths)
  transaction (for_each normalized (λ path. set_requeued (erase path)) tt)

abbrev set_signatures :
    (Dict EventKey AuditSignature → Dict EventKey AuditSignature) → Store (Unit {0})
set_signatures f = execute (λ db. record db { audit_signatures = f db.audit_signatures })

abbrev of_side : Side → EventKey × AuditSignature → Bool
of_side side ((s, _), _) = s == side

-- `AuditSignature(…)`, whose `__post_init__` normalises the path.
abbrev audit_signature : AuditSignature → Result AuditSignature
audit_signature signature =
    Result.◌>>=◌ (normalize_relative_path signature.path)
      λ path. ok (record signature { path = path })

-- Each row is read with the path of its key.
abbrev signatures_of : Dict EventKey AuditSignature → Result (Dict Text AuditSignature)
signatures_of [] = ok []
signatures_of (((_, path), signature) ∷ rows) =
    Result.◌>>=◌ (audit_signature (record signature { path = path }))
      λ read. Result.◌>>=◌ (signatures_of rows) λ rest. ok ((path, read) ∷ rest)

unfoldable pub list_audit_signatures : Side → Store (Dict Text AuditSignature)
list_audit_signatures side = do
  rows ← query (λ db. select (of_side side) db.audit_signatures)
  lift (signatures_of rows)

-- The rows that `replace_audit_signatures` inserts.
abbrev signature_rows : Side → Dict Text AuditSignature → Result (Dict EventKey AuditSignature)
signature_rows side [] = ok []
signature_rows side ((p, signature) ∷ signatures) = Result.◌>>=◌ (normalize_relative_path p) λ path.
    Result.◌>>◌ (require (signature.path == path) value_error)
      (Result.◌>>=◌ (signature_rows side signatures) λ rest. ok (((side, path), signature) ∷ rest))

-- `INSERT` with no conflict clause.
abbrev insert_signature : EventKey × AuditSignature → Store (Unit {0})
insert_signature (key, signature) = do
  old ← query (λ db. lookup key db.audit_signatures)
  elim old [ none ↦ set_signatures (insert key signature) | some _ ↦ lift (err integrity_error) ]

unfoldable pub replace_audit_signatures : Side → Dict Text AuditSignature → Store (Unit {0})
replace_audit_signatures side signatures = do
  rows ← lift (signature_rows side signatures)
  transaction (do
    set_signatures (select (λ row. not (of_side side row)))
    for_each rows insert_signature tt)

-- One round of the loop of `update_audit_signatures`.
abbrev update_signature : Side → Text × Option AuditSignature → Store (Unit {0})
update_signature side (p, none) = do
  path ← lift (normalize_relative_path p)
  set_signatures (erase (side, path))
update_signature side (p, some signature) = do
  path ← lift (normalize_relative_path p)
  lift (require (signature.path == path) value_error)
  set_signatures (insert (side, path) signature)

unfoldable pub update_audit_signatures :
    Side → List (Text × Option AuditSignature) → Store (Unit {0})
update_audit_signatures side signatures =
    transaction (for_each signatures (update_signature side) tt)
