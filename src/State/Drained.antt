-- ===== src/State/Drained.antt =====
-- `latest_sequence`, `acknowledge` and `pending_events` of src/remote_sandbox/state.py, one after another.
use remote_sandbox_cli.Base.{
  ℕ, subst, sym, ◌≤◌, ◌≡◌, refl, true, ◌&&◌, List, [], ◌∷◌, max, arith, nat_eq, ltb, leb, select,
  eq_refl,
}
use remote_sandbox_cli.Base.Dict.{lookup-insert}
use remote_sandbox_cli.Base.Result.{ok_injective, ok}
use remote_sandbox_cli.Base.Sort.{sort}
use remote_sandbox_cli.Replica.{Side, side_eq}
use remote_sandbox_cli.Sqlite.{Connection}
use remote_sandbox_cli.State.Tables.{EventRow, Db}
use remote_sandbox_cli.State.Events.{
  of_side, acknowledged, last_allocated, acknowledge, pending_rows, max_sequence, latest_sequence,
  pending_events,
}
use remote_sandbox_cli.State.Acknowledged.{raised, acknowledge_lem}

-- No event of the side is above a number that its events do not reach.
select_above :
    (side : Side) (n : ℕ) (rows : List EventRow)
    → max_sequence side rows ≤ n
    → select (λ row. of_side side row && ltb n row.event.sequence) rows ≡ []
unfolding max_sequence
select_above side n [] h = refl
select_above side n (row ∷ rows) h = ground (arith, select_above side n rows)

leb_refl : (n : ℕ) → leb n n ≡ true
leb_refl n = ground arith

max_bound : (s a k n b : ℕ) → max s a ≡ n → s ≤ max b (max k n)
max_bound s a k n b h = ground (arith, h)

acknowledged-raised :
    (side : Side) (n : ℕ) (c : Connection Db)
    → acknowledged (raised side n c).db side ≡ max (acknowledged c.db side) n
acknowledged-raised side n c =
    rw
      (
        lookup-insert side side (max (acknowledged c.db side) n) c.db.watermarks,
        eq_refl {A = Side} side,
      )
      refl

reached :
    (side : Side) (after_sequence n : ℕ) (c : Connection Db)
    → last_allocated c.db side ≡ n
    → max_sequence side c.db.events ≤ max after_sequence (acknowledged (raised side n c).db side)
unfolding last_allocated
reached side after_sequence n c e =
    subst (λ m. max_sequence side c.db.events ≤ max after_sequence m)
      (sym (acknowledged-raised side n c))
      (max_bound (max_sequence side c.db.events) (acknowledged c.db side) (acknowledged c.db side) n
        after_sequence e)

nothing_pending :
    (side : Side) (after_sequence n : ℕ) (c : Connection Db)
    → last_allocated c.db side ≡ n
    → pending_rows side after_sequence (raised side n c).db ≡ []
unfolding pending_rows sort
nothing_pending side after_sequence n c e =
    rw
      (select_above side (max after_sequence (acknowledged (raised side n c).db side)) c.db.events
        (reached side after_sequence n c e))
      refl

-- Once the number that `latest_sequence` returns has been acknowledged, which does not raise, nothing
-- of that side is pending.
pub pending_events-latest_sequence :
    (side : Side) (after_sequence n : ℕ) (c : Connection Db)
    → (latest_sequence side c).0 ≡ ok n
    → ((acknowledge side n c).0 ≡ ok tt)
      × ((pending_events side after_sequence (acknowledge side n c).1).0 ≡ ok [])
unfolding latest_sequence pending_events
pending_events-latest_sequence side after_sequence n c h =
    let e = ok_injective (last_allocated c.db side) n h in
    let admitted : leb n (last_allocated c.db side) ≡ true =
      subst (λ m. leb n m ≡ true) (sym e) (leb_refl n) in
    rw (acknowledge_lem side n c, admitted, nothing_pending side after_sequence n c e) (refl, refl)
