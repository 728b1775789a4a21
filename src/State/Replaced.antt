-- ===== src/State/Replaced.antt =====
-- `WorkspaceStore.replace_base` of src/remote_sandbox/state.py, and the base that is listed after it.
use mathlib.Core.List.{append-nil, append_assoc}
use remote_sandbox_cli.Base.{
  ◌≡◌, refl, ◌∙◌, ap, Bool, true, false, ◌||◌, none, some, List, [], ◌∷◌, ◌++◌, map, any, arith,
  if◌then◌else◌, ◌==◌, Text, text_eq, contains, eq_refl, Bool-cases, inl, inr, All,
}
use remote_sandbox_cli.Base.Dict.{Dict, lookup, insert}
use remote_sandbox_cli.Base.Result.{ok, err, integrity_error}
use remote_sandbox_cli.Paths.{normalize_relative_path}
use remote_sandbox_cli.Manifest.{EntryFingerprint, entry_fingerprint}
use remote_sandbox_cli.Sqlite.{Connection, for_each, transaction}
use remote_sandbox_cli.State.Codec.{Payload, encode_fingerprint}
use remote_sandbox_cli.State.Codec.RoundTrip.{decode-encode}
use remote_sandbox_cli.State.Tables.{Db}
use remote_sandbox_cli.State.Bases.{
  encode_entries, insert_base, replace_base, list_base, decode_rows, repeats,
}

abbrev Rows : Type 0
Rows = Dict Text Payload

abbrev has : Rows → Text → Bool
has [] q = false
has ((p, _) ∷ rows) q = p == q || has rows q

lookup-absent : (q : Text) (rows : Rows) → has rows q ≡ false → lookup q rows ≡ none
unfolding lookup
lookup-absent q [] h = refl
lookup-absent q ((p, v) ∷ rows) h = ground (arith, lookup-absent q rows)

lookup-present :
    (q : Text) (rows : Rows) → has rows q ≡ true → (v : Payload) × (lookup q rows ≡ some v)
unfolding lookup
lookup-present q [] h = cc
lookup-present q ((p, v) ∷ rows) h = elim (Bool-cases (p == q)) [
  | inl same ↦ rw same (v, refl)
  | inr other ↦ let (w, e) = lookup-present q rows (rw other at h) in rw other (w, e)
]

insert-absent :
    (q : Text) (v : Payload) (rows : Rows)
    → has rows q ≡ false
    → insert q v rows ≡ rows ++ ((q, v) ∷ [])
unfolding insert
insert-absent q v [] h = refl
insert-absent q v ((p, w) ∷ rows) h = ground (arith, insert-absent q v rows)

-- Whether one of the rows has a path of the table, or that of an earlier row.
abbrev clashes : Rows → Rows → Bool
clashes held [] = false
clashes held ((p, v) ∷ rows) = has held p || clashes (held ++ ((p, v) ∷ [])) rows

abbrev keys : Rows → List Text
keys = map (λ (p, _). p)

has-append :
    (held : Rows) (p : Text) (v : Payload) (q : Text)
    → has (held ++ ((p, v) ∷ [])) q ≡ (has held q || p == q)
has-append [] p v q = ground arith
has-append ((k, w) ∷ held) p v q = ground (arith, has-append held p v q)

abbrev any_held : Rows → Rows → Bool
any_held held rows = any (λ (q, _). has held q) rows

any_held-append :
    (held : Rows) (p : Text) (v : Payload) (rows : Rows)
    → any_held (held ++ ((p, v) ∷ [])) rows ≡ (any_held held rows || contains (keys rows) p)
any_held-append held p v [] = refl
any_held-append held p v ((q, w) ∷ rows) =
    ground (arith, has-append held p v q, any_held-append held p v rows)

clashes_lem : (held rows : Rows) → clashes held rows ≡ (any_held held rows || repeats (keys rows))
clashes_lem held [] = refl
clashes_lem held ((p, v) ∷ rows) =
    ground (arith, clashes_lem (held ++ ((p, v) ∷ [])) rows, any_held-append held p v rows)

any_held-nil : (rows : Rows) → any_held [] rows ≡ false
any_held-nil [] = refl
any_held-nil ((p, v) ∷ rows) = any_held-nil rows

abbrev with_base : Connection Db → Rows → Connection Db
with_base c rows = record c { db = record c.db { base_entries = rows } }

insert_base_taken :
    (p : Text) (v w : Payload) (c : Connection Db)
    → lookup p c.db.base_entries ≡ some w
    → insert_base (p, v) c ≡ (err integrity_error, c)
insert_base_taken p v w c h = rw h refl

insert_base_free :
    (p : Text) (v : Payload) (c : Connection Db)
    → lookup p c.db.base_entries ≡ none
    → insert_base (p, v) c ≡ (ok tt, with_base c (insert p v c.db.base_entries))
insert_base_free p v c h = rw h refl

-- The rows are inserted one by one, up to the first that clashes.
insert_loop :
    (held rows : Rows) (c : Connection Db)
    → (d : Connection Db) × (for_each rows insert_base tt (with_base c held) ≡ (
        if clashes held rows
        then (err integrity_error, d)
        else (ok tt, with_base c (held ++ rows))))
      × (d.savepoints ≡ c.savepoints)
insert_loop held [] c = (c, rw (append-nil held) refl, refl)
insert_loop held ((p, v) ∷ rows) c = elim (Bool-cases (has held p)) [
  | inl taken ↦
      let (w, e) = lookup-present p held taken in
      (with_base c held, rw (insert_base_taken p v w (with_base c held) e, taken) refl, refl)
  | inr free ↦
      let (d, run, saved) = insert_loop (held ++ ((p, v) ∷ [])) rows c in
      (
        d,
        rw
            (
              insert_base_free p v (with_base c held) (lookup-absent p held free),
              insert-absent p v held free,
              free,
              run,
              append_assoc held ((p, v) ∷ []) rows,
            )
            refl,
        saved,
      )
]

-- The key of the row is a spelling of the fingerprint's path, and the constructor, given the fields of
-- the fingerprint, gives it back.
abbrev pub IsEntry : Text × EntryFingerprint → Type 0
IsEntry (p, e) = (normalize_relative_path p ≡ ok e.path) × (entry_fingerprint e ≡ ok e)

-- The fingerprints by their paths.
abbrev pub by_path : Dict Text EntryFingerprint → Dict Text EntryFingerprint
by_path [] = []
by_path ((p, e) ∷ entries) = (e.path, e) ∷ by_path entries

-- Two keys are spellings of one path.
abbrev pub repeats_path : Dict Text EntryFingerprint → Bool
repeats_path entries = repeats (map (λ (p, _). p) (by_path entries))

abbrev encoded : Dict Text EntryFingerprint → Rows
encoded [] = []
encoded ((p, e) ∷ entries) = (e.path, encode_fingerprint e) ∷ encoded entries

encode_entries-encoded :
    (entries : Dict Text EntryFingerprint)
    → All IsEntry entries
    → encode_entries entries ≡ ok (encoded entries)
encode_entries-encoded [] h = refl
encode_entries-encoded ((p, e) ∷ entries) ((n, valid), h) =
    rw (n, eq_refl {A = Text} e.path, encode_entries-encoded entries h) refl

decode_rows-encoded :
    (entries : Dict Text EntryFingerprint)
    → All IsEntry entries
    → decode_rows (encoded entries) ≡ ok (by_path entries)
decode_rows-encoded [] h = refl
decode_rows-encoded ((p, e) ∷ entries) ((n, valid), h) =
    rw (decode-encode e, valid, decode_rows-encoded entries h) refl

keys-encoded :
    (entries : Dict Text EntryFingerprint)
    → keys (encoded entries) ≡ map (λ (p, _). p) (by_path entries)
keys-encoded [] = refl
keys-encoded ((p, e) ∷ entries) = ap (λ ps. e.path ∷ ps) (keys-encoded entries)

clashes-encoded :
    (entries : Dict Text EntryFingerprint) → clashes [] (encoded entries) ≡ repeats_path entries
clashes-encoded entries =
    clashes_lem [] (encoded entries)
    ∙ rw (any_held-nil (encoded entries)) (ap repeats (keys-encoded entries))

-- Where every key is a spelling of its fingerprint's path and the constructor gives each fingerprint
-- back unchanged, replacing the base succeeds unless two keys are spellings of one path, and then
-- listing the base gives exactly these fingerprints by their paths. If two are, an integrity error is
-- raised and listing the base gives what it gave before.
pub list_base-replace_base :
    (entries : Dict Text EntryFingerprint) (c : Connection Db)
    → All IsEntry entries
    → ((replace_base entries c).0 ≡ (if repeats_path entries then err integrity_error else ok tt))
      × ((list_base (replace_base entries c).1).0
          ≡ (if repeats_path entries then (list_base c).0 else ok (by_path entries)))
unfolding replace_base list_base transaction
list_base-replace_base entries c h =
    let entered : Connection Db = record c { savepoints = c.db ∷ c.savepoints } in
    let (d, run, saved) = insert_loop [] (encoded entries) entered in
    elim (Bool-cases (repeats_path entries)) [
      | inl twice ↦
          rw (encode_entries-encoded entries h, run, clashes-encoded entries, twice, saved)
            (refl, refl)
      | inr once ↦
          rw (encode_entries-encoded entries h, run, clashes-encoded entries, once)
            (refl, decode_rows-encoded entries h)
    ]
