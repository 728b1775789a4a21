-- ===== src/State/Acknowledged.antt =====
-- `WorkspaceStore.acknowledge` and `pending_events` of src/remote_sandbox/state.py.
use remote_sandbox_cli.Base.{
  ℕ, ◌<◌, ◌≡◌, refl, Bool, true, false, ◌&&◌, some, List, [], ◌∷◌, max, arith, if◌then◌else◌, ◌==◌,
  nat_eq, ltb, leb, All, All-map, All-select, Bool-cases, inl, inr, eq→path, eq_refl, ltb→lt,
  &&_eq_true,
}
use remote_sandbox_cli.Base.Dict.{lookup, insert, lookup-insert}
use remote_sandbox_cli.Base.Result.{ok, err, value_error}
use remote_sandbox_cli.Base.Sort.{sort-IsSorted, IsSorted, All-sort}
use remote_sandbox_cli.Replica.{Side, side_eq}
use remote_sandbox_cli.Sqlite.{Connection, transaction}
use remote_sandbox_cli.State.Tables.{EventRow, Db}
use remote_sandbox_cli.State.Events.{
  of_side, acknowledged, last_allocated, acknowledge, pending_rows, row_le, or_zero,
}

-- The connection after an acknowledgement.
abbrev pub raised : Side → ℕ → Connection Db → Connection Db
raised side n c = record c {
  db = record c.db { watermarks = insert side (max (acknowledged c.db side) n) c.db.watermarks };
}

-- Only numbers that have been allocated are acknowledged; any other raises and changes nothing.
pub acknowledge_lem :
    (side : Side) (n : ℕ) (c : Connection Db)
    → acknowledge side n c ≡ (
        if leb n (last_allocated c.db side) then (ok tt, raised side n c) else (err value_error, c))
unfolding acknowledge transaction
acknowledge_lem side n c = elim (Bool-cases (leb n (last_allocated c.db side))) [
  | inl h ↦ rw (h, acknowledge) refl
  | inr h ↦ rw (h, acknowledge) refl
]

-- After an acknowledgement the watermark of its side is the larger of the old one and the new
-- number, never smaller than before, and the other side's watermark is what it was.
acknowledged-acknowledge :
    (side s : Side) (n : ℕ) (c : Connection Db)
    → leb n (last_allocated c.db side) ≡ true
    → acknowledged (acknowledge side n c).1.db s
      ≡ (if side == s then max (acknowledged c.db side) n else acknowledged c.db s)
acknowledged-acknowledge side s n c h =
    rw
      (
        acknowledge_lem side n c,
        h,
        lookup-insert s side (max (acknowledged c.db side) n) c.db.watermarks,
      )
      (go (side == s))
  where
    go :
        (b : Bool)
        → or_zero (if b then some (max (acknowledged c.db side) n) else lookup s c.db.watermarks)
          ≡ (if b then max (acknowledged c.db side) n else acknowledged c.db s)
    go true = refl
    go false = refl

row_le_total : (a b : EventRow) → row_le a b ≡ false → row_le b a ≡ true
row_le_total a b h = ground arith

row_le_trans : (a b c : EventRow) → row_le a b ≡ true → row_le b c ≡ true → row_le a c ≡ true
row_le_trans a b c h k = ground arith

-- A row that may still be delivered.
abbrev pub IsPending : Side → ℕ → ℕ → EventRow → Type 0
IsPending side after_sequence n row =
    (row.event.side ≡ side) × (after_sequence < row.event.sequence) × (n < row.event.sequence)

every : (rows : List EventRow) → All (λ _. Unit {0}) rows
every [] = tt
every (row ∷ rows) = (tt, every rows)

pending_rows-IsPending :
    (side : Side) (after_sequence : ℕ) (db : Db)
    → All
        (IsPending side after_sequence (acknowledged db side))
        (pending_rows side after_sequence db)
unfolding pending_rows
pending_rows-IsPending side after_sequence db =
    All-sort row_le _ _
      (All-map _ _ pending _ (All-select (λ _. Unit {0}) selected db.events (every db.events)))
  where
    selected : EventRow → Bool
    selected row =
        of_side side row && ltb (max after_sequence (acknowledged db side)) row.event.sequence

    pending :
        (row : EventRow)
        → Unit {0} × (selected row ≡ true)
        → IsPending side after_sequence (acknowledged db side) row
    pending row (_, h) =
        let (same, above) = &&_eq_true (of_side side row) _ h in
        let past = ltb→lt _ _ above in (eq→path row.event.side side same, omega arith, omega arith)

pending_rows-IsSorted :
    (side : Side) (after_sequence : ℕ) (db : Db)
    → IsSorted row_le (pending_rows side after_sequence db)
unfolding pending_rows
pending_rows-IsSorted side after_sequence db = sort-IsSorted row_le row_le_total row_le_trans _

-- Once a number has been acknowledged, what is pending comes in the order of the numbers, and holds
-- only events of that side past that number and past the number that the caller names.
pub pending_rows-acknowledge :
    (side : Side) (n after_sequence : ℕ) (c : Connection Db)
    → leb n (last_allocated c.db side) ≡ true
    → let rows = pending_rows side after_sequence (acknowledge side n c).1.db in
      All (IsPending side after_sequence n) rows × IsSorted row_le rows
pending_rows-acknowledge side n after_sequence c h =
    let db = (acknowledge side n c).1.db in
    (
      All-map _ _ (past db (acknowledged-acknowledge side side n c h)) _
          (pending_rows-IsPending side after_sequence db),
      pending_rows-IsSorted side after_sequence db,
    )
  where
    past :
        (db : Db)
        → acknowledged db side
          ≡ (if side == side then max (acknowledged c.db side) n else acknowledged c.db side)
        → (row : EventRow) → IsPending side after_sequence (acknowledged db side) row
        → IsPending side after_sequence n row
    past db e row (s, a, k) = (s, a, omega (arith, rw (eq_refl {A = Side} side) at e))
