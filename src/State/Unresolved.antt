-- ===== src/State/Unresolved.antt =====
-- `WorkspaceStore.create_conflict` and the open conflicts of a path.
use remote_sandbox_cli.Base.{
  ℕ, ◌≡◌, refl, ◌∙◌, true, false, List, [], ◌∷◌, ◌++◌, map, arith, if◌then◌else◌, ◌==◌, Text,
  text_eq, any, select, length, eq_refl, Bool-cases, inl, inr,
}
use remote_sandbox_cli.Base.Result.{ok, err, integrity_error}
use remote_sandbox_cli.Sqlite.{Connection, transaction}
use remote_sandbox_cli.State.Tables.{ConflictRecord, Db}
use remote_sandbox_cli.State.Conflicts.{
  open_at, resolve_open, has_id, insert_conflict, NewConflict, check_conflict, new_record,
  create_conflict,
}

abbrev pub open_count : Text → List ConflictRecord → ℕ
open_count path rows = length (select (open_at path) rows)

-- Resolving every open conflict of a path leaves none, and leaves other paths alone.
open_count-resolve_open :
    (now : ℕ) (path p : Text) (rows : List ConflictRecord)
    → open_count p (map (resolve_open now path) rows) ≡ (if path == p then 0 else open_count p rows)
open_count-resolve_open now path p [] = ground arith
open_count-resolve_open now path p (r ∷ rows) =
    ground (arith, open_count-resolve_open now path p rows)

any-open_at :
    (path : Text) (rows : List ConflictRecord)
    → open_count path rows ≡ 0
    → any (open_at path) rows ≡ false
any-open_at path [] h = refl
any-open_at path (r ∷ rows) h = ground (arith, any-open_at path rows)

has_id-resolve_open :
    (id path : Text) (now : ℕ) (rows : List ConflictRecord)
    → any (has_id id) (map (resolve_open now path) rows) ≡ any (has_id id) rows
has_id-resolve_open id path now [] = refl
has_id-resolve_open id path now (r ∷ rows) = ground (arith, has_id-resolve_open id path now rows)

-- The rows once a conflict has been recorded.
abbrev pub recorded : ℕ → Text → Text → NewConflict → List ConflictRecord → List ConflictRecord
recorded now id path n rows = map (resolve_open now path) rows ++ (new_record now id path n ∷ [])

abbrev pub with_conflicts : Connection Db → List ConflictRecord → Connection Db
with_conflicts c rows = record c { db = record c.db { conflicts = rows } }

insert_conflict_taken :
    (r : ConflictRecord) (d : Connection Db)
    → any (has_id r.conflict_id) d.db.conflicts ≡ true
    → insert_conflict r d ≡ (err integrity_error, d)
unfolding insert_conflict
insert_conflict_taken r d h = rw (insert_conflict, h)

insert_conflict_free :
    (r : ConflictRecord) (d : Connection Db)
    → any (has_id r.conflict_id) d.db.conflicts ≡ false
    → any (open_at r.path) d.db.conflicts ≡ false
    → insert_conflict r d ≡ (ok tt, with_conflicts d (d.db.conflicts ++ (r ∷ [])))
unfolding insert_conflict
insert_conflict_free r d h k = ground (arith, h, k)

module _ (now : ℕ) (id : Text) (n : NewConflict) (c : Connection Db) (path : Text)
    (checked : check_conflict n ≡ ok path) where
  -- Where the checks of `create_conflict` pass, a new conflict supersedes the open ones of its path: they are resolved at that moment, and the
  -- new one is added. With an id that is taken nothing is changed, the superseded ones included.
  pub create_conflict_lem : create_conflict now id n c ≡ (
      if any (has_id id) c.db.conflicts then (err integrity_error, c) else (
        ok (new_record now id path n),
        with_conflicts c (recorded now id path n c.db.conflicts),
      ))
  unfolding create_conflict transaction
  create_conflict_lem =
      let free : any (open_at path) (map (resolve_open now path) c.db.conflicts) ≡ false =
        any-open_at path _
          (open_count-resolve_open now path path c.db.conflicts ∙ rw (eq_refl {A = Text} path)) in
      let entered : Connection Db = record {
        db = record c.db { conflicts = map (resolve_open now path) c.db.conflicts };
        savepoints = c.db ∷ c.savepoints;
      } in
      let same = has_id-resolve_open id path now c.db.conflicts in
      elim (Bool-cases (any (has_id id) c.db.conflicts)) [
        | inl taken ↦ rw (
          checked,
          insert_conflict_taken (new_record now id path n) entered (same ∙ taken),
          taken,
        )
        | inr fresh ↦ rw (
          checked,
          insert_conflict_free (new_record now id path n) entered (same ∙ fresh) free,
          fresh,
        )
      ]
