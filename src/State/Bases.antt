-- ===== src/State/Bases.antt =====
-- The base: the fingerprints that both sides last agreed on, by path.
use remote_sandbox_cli.Base.{
  ℕ, Bool, false, not, ◌||◌, Option, none, some, List, [], ◌∷◌, map, ◌==◌, Text, text_eq, contains,
}
use remote_sandbox_cli.Base.Dict.{Dict, lookup, insert, erase}
use remote_sandbox_cli.Base.Result.{Result, ok, err, value_error, integrity_error, require}
use remote_sandbox_cli.Base.Result
use remote_sandbox_cli.Paths.{normalize_relative_path}
use remote_sandbox_cli.Replica.{Side, side_eq}
use remote_sandbox_cli.Journal.{event_key_eq}
use remote_sandbox_cli.Manifest.{EntryFingerprint, FingerprintState, entry, missing_entry}
use remote_sandbox_cli.Sqlite.{lift, query, execute, transaction, for_each, ◌>>=◌, ◌>>◌}
use remote_sandbox_cli.State.Codec.{Payload, encode_fingerprint, decode_fingerprint}
use remote_sandbox_cli.State.Tables.{Store}

abbrev pub set_base : (Dict Text Payload → Dict Text Payload) → Store (Unit {0})
set_base f = execute (λ db. record db { base_entries = f db.base_entries })

abbrev pub decode_base : Text → Option Payload → Result FingerprintState
decode_base path none = missing_entry (some path)
decode_base path (some payload) = Result.◌>>=◌ (decode_fingerprint payload path) (λ e. ok (entry e))

unfoldable pub get_base : Text → Store FingerprintState
get_base p = do
  path ← lift (normalize_relative_path p)
  row ← query (λ db. lookup path db.base_entries)
  lift (decode_base path row)

abbrev pub decode_rows : Dict Text Payload → Result (Dict Text EntryFingerprint)
decode_rows [] = ok []
decode_rows ((path, payload) ∷ rows) =
    Result.◌>>=◌ (decode_fingerprint payload path)
      λ e. Result.◌>>=◌ (decode_rows rows) λ rest. ok ((path, e) ∷ rest)

-- The order of the rows is not modelled: the result is a dict.
unfoldable pub list_base : Store (Dict Text EntryFingerprint)
list_base = do rows ← query (λ db. db.base_entries); lift (decode_rows rows)

unfoldable pub upsert_base : EntryFingerprint → Store (Unit {0})
upsert_base e = transaction (set_base (insert e.path (encode_fingerprint e)))

unfoldable pub delete_base : Text → Store (Unit {0})
delete_base p = do path ← lift (normalize_relative_path p); transaction (set_base (erase path))

-- `INSERT` with no conflict clause.
abbrev pub insert_base : Text × Payload → Store (Unit {0})
insert_base (path, payload) = do
  old ← query (λ db. lookup path db.base_entries)
  elim old [ none ↦ set_base (insert path payload) | some _ ↦ lift (err integrity_error) ]

abbrev pub encode_entries : Dict Text EntryFingerprint → Result (Dict Text Payload)
encode_entries [] = ok []
encode_entries ((p, e) ∷ entries) = Result.◌>>=◌ (normalize_relative_path p) λ path.
    Result.◌>>◌ (require (path == e.path) value_error)
      (Result.◌>>=◌ (encode_entries entries) λ rest. ok ((path, encode_fingerprint e) ∷ rest))

unfoldable pub replace_base : Dict Text EntryFingerprint → Store (Unit {0})
replace_base entries = do
  encoded ← lift (encode_entries entries)
  transaction (do set_base (λ _. []); for_each encoded insert_base tt)

abbrev pub repeats : List Text → Bool
repeats [] = false
repeats (p ∷ ps) = contains ps p || repeats ps

abbrev pub paths_of : List EntryFingerprint → List Text
paths_of = map (λ (e : EntryFingerprint). e.path)

-- `now` is what `time.time()` returns.
unfoldable pub seed_verified_transfer : ℕ → Side → List EntryFingerprint → Store (Unit {0})
seed_verified_transfer now side [] = lift (err value_error)
seed_verified_transfer now side (first ∷ rest) = do
  lift (require (not (repeats (paths_of (first ∷ rest)))) value_error)
  transaction (do
    for_each (first ∷ rest) (λ e. set_base (insert e.path (encode_fingerprint e))) tt
    for_each (first ∷ rest)
        (λ e. execute (λ db. record db {
          expected_echoes = insert (side, e.path) (encode_fingerprint e, now) db.expected_echoes;
        }))
        tt)
