-- ===== src/RemoteStore/Handed.antt =====
-- `RemoteStore.events_after` and its watermark.
use remote_sandbox_cli.Base.{
  ℕ, zero, suc, ◌≤◌, ◌<◌, ◌≡◌, refl, true, false, Option, none, some, List, [], ◌∷◌, ltb, leb,
  select, arith, All, All-select, ltb→lt,
}
use remote_sandbox_cli.Base.Result.{ok}
use remote_sandbox_cli.Base.Sort.{sort, IsSorted, sort-IsSorted, All-sort}
use remote_sandbox_cli.Sqlite.{Connection, transaction}
use remote_sandbox_cli.RemoteStore.{
  RemoteEvent, RemoteDb, sequence_le, take, limited, is_positive, delivered, events_after,
}

-- The rows that the query of `events_after` finds.
abbrev pub found : ℕ → Option ℕ → RemoteDb → List RemoteEvent
found sequence limit db =
    limited limit (sort sequence_le (select (λ e. ltb sequence e.sequence) db.events))

pub events_after_lem :
    (sequence : ℕ) (limit : Option ℕ) (c : Connection RemoteDb)
    → is_positive limit ≡ true
    → events_after sequence limit c ≡ (
      ok (found sequence limit c.db),
      record c {
        db = record c.db {
          delivered_sequence = delivered c.db.delivered_sequence (found sequence limit c.db);
        };
      },
    )
unfolding events_after transaction
events_after_lem sequence limit c h = rw (h)

module _ (P : RemoteEvent → Type 0) where
  All-take : (n : ℕ) (events : List RemoteEvent) → All P events → All P (take n events)
  unfolding take
  All-take zero events h = tt
  All-take (suc n) [] h = tt
  All-take (suc n) (e ∷ events) (a, h) = (a, All-take n events h)

  pub All-limited :
      (limit : Option ℕ) (events : List RemoteEvent) → All P events → All P (limited limit events)
  All-limited none events h = h
  All-limited (some n) events h = All-take n events h

IsSorted-take :
    (n : ℕ) (events : List RemoteEvent)
    → IsSorted sequence_le events
    → IsSorted sequence_le (take n events)
unfolding take
IsSorted-take zero events h = tt
IsSorted-take (suc n) [] h = tt
IsSorted-take (suc n) (e ∷ events) (a, h) = (All-take _ n events a, IsSorted-take n events h)

IsSorted-limited :
    (limit : Option ℕ) (events : List RemoteEvent)
    → IsSorted sequence_le events
    → IsSorted sequence_le (limited limit events)
IsSorted-limited none events h = h
IsSorted-limited (some n) events h = IsSorted-take n events h

bounded : (a b n : ℕ) → leb a b ≡ true → b ≤ n → a ≤ n
bounded a b n h k = ground arith

-- The last row of a sorted list carries the largest number.
delivered_bounds :
    (n : ℕ) (rows : List RemoteEvent)
    → IsSorted sequence_le rows
    → All (λ e. e.sequence ≤ delivered n rows) rows
unfolding delivered
delivered_bounds n [] h = tt
delivered_bounds n (e ∷ []) h = (omega arith, tt)
delivered_bounds n (e ∷ x ∷ rows) ((e_le, _), h) =
    let (x_le, rest) = delivered_bounds n (x ∷ rows) h in
    (bounded e.sequence x.sequence _ e_le x_le, (x_le, rest))

sequence_le_total : (a b : RemoteEvent) → sequence_le a b ≡ false → sequence_le b a ≡ true
sequence_le_total a b h = ground arith

sequence_le_trans :
    (a b c : RemoteEvent) → sequence_le a b ≡ true → sequence_le b c ≡ true → sequence_le a c ≡ true
sequence_le_trans a b c h k = ground arith

every : (rows : List RemoteEvent) → All (λ _. Unit {0}) rows
every [] = tt
every (row ∷ rows) = (tt, every rows)

-- `events_after` with a limit that is not 0 returns, in the order of their numbers, events past the
-- number it is given, and leaves the delivery watermark at or above each of them.
pub events_after-delivers :
    (sequence : ℕ) (limit : Option ℕ) (c : Connection RemoteDb)
    → is_positive limit ≡ true
    → (rows : List RemoteEvent) × ((events_after sequence limit c).0 ≡ ok rows)
      × IsSorted sequence_le rows
      × All
          (λ e.
            (sequence < e.sequence)
            × (e.sequence ≤ (events_after sequence limit c).1.db.delivered_sequence))
          rows
events_after-delivers sequence limit c h =
    let rows = found sequence limit c.db in
    let sorted =
      IsSorted-limited limit _ (sort-IsSorted sequence_le sequence_le_total sequence_le_trans _) in
    let past = All-limited _ limit _ (
      All-sort sequence_le _ _ (
        All-select (λ _. Unit {0}) (λ e. ltb sequence e.sequence) c.db.events
          (every c.db.events))) in
    rw (events_after_lem sequence limit c h) (
      rows,
      refl,
      sorted,
      both sequence _ rows past (delivered_bounds c.db.delivered_sequence rows sorted),
    )
  where
    both :
        (s n : ℕ) (rows : List RemoteEvent)
        → All (λ e. Unit {0} × (ltb s e.sequence ≡ true)) rows
        → All (λ e. e.sequence ≤ n) rows
        → All (λ e. (s < e.sequence) × (e.sequence ≤ n)) rows
    both s n [] h k = tt
    both s n (e ∷ rows) ((_, a), h) (b, k) = ((ltb→lt s e.sequence a, b), both s n rows h k)
