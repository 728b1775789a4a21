-- ===== src/RemoteStore/Runs.antt =====
-- Sequences of calls of the agent's journal.
use remote_sandbox_cli.Base.{
  ℕ, ◌≤◌, ◌≡◌, refl, sym, ◌∙◌, ap, subst, true, false, Option, List, [], ◌∷◌, max, ltb, leb, select,
  if◌then◌else◌, Text, arith, All, All-select, All-map, Bool-cases, inl, inr,
}
use remote_sandbox_cli.Base.Result.{ok, err, value_error}
use remote_sandbox_cli.Base.Sort.{All-sort}
use remote_sandbox_cli.Journal.{EventKind}
use remote_sandbox_cli.Sqlite.{Connection, transaction}
use remote_sandbox_cli.RemoteStore.{
  RemoteEvent, RemoteDb, append_event, events_after, acknowledge, is_positive, latest, delivered,
  protected_sequence, sequence_le,
}
use remote_sandbox_cli.RemoteStore.Delivered.{up_to, append_event-Kept}
use remote_sandbox_cli.RemoteStore.Handed.{found, events_after_lem, All-limited}
use remote_sandbox_cli.RemoteStore.Within.{
  IsUpTo, IsWithin, append_event-Keeps, latest_within, delivered_within_rows, max_within,
}

-- A call that changes the journal.
pub data Request : Type 0 where
  append : ℕ → EventKind → Text → Option Text → Request
  after : ℕ → Option ℕ → Request
  acknowledged : ℕ → Request

abbrev pub serve : Request → Connection RemoteDb → Connection RemoteDb
serve (append now kind path destination) c = (append_event now kind path destination c).1
serve (after sequence limit) c = (events_after sequence limit c).1
serve (acknowledged sequence) c = (acknowledge sequence c).1

abbrev pub serve_all : List Request → Connection RemoteDb → Connection RemoteDb
serve_all [] c = c
serve_all (r ∷ requests) c = serve_all requests (serve r c)

-- What one call does to the connection.
record Served (c d : Connection RemoteDb) : Type 0 where
  within : IsWithin d.db
  grown : protected_sequence c.db ≤ protected_sequence d.db
  kept :
      select (up_to (protected_sequence c.db)) d.db.events
      ≡ select (up_to (protected_sequence c.db)) c.db.events

acknowledge_lem :
    (n : ℕ) (c : Connection RemoteDb)
    → acknowledge n c ≡ (
        if leb n (latest c.db.events)
        then (
          ok tt,
          record c {
            db = record c.db { acknowledged_sequence = max c.db.acknowledged_sequence n };
          },
        )
        else (err value_error, c))
unfolding acknowledge transaction
acknowledge_lem n c = elim (Bool-cases (leb n (latest c.db.events))) [
  | inl h ↦ rw (h)
  | inr h ↦ rw (h)
]

events_after_refused :
    (sequence : ℕ) (limit : Option ℕ) (c : Connection RemoteDb)
    → is_positive limit ≡ false
    → events_after sequence limit c ≡ (err value_error, c)
unfolding events_after
events_after_refused sequence limit c h = rw (h)

unchanged : (c : Connection RemoteDb) → IsWithin c.db → Served c c
unchanged c w = record { within = w; grown = omega arith; kept = refl }

found_within :
    (sequence : ℕ) (limit : Option ℕ) (db : RemoteDb)
    → All (IsUpTo db.allocated) db.events
    → All (IsUpTo db.allocated) (found sequence limit db)
found_within sequence limit db h = All-limited _ limit _ (
    All-sort sequence_le _ _ (
      All-map _ _ (λ e p. p.0) _
        (All-select (IsUpTo db.allocated) (λ e. ltb sequence e.sequence) db.events h)))

delivered_grows : (n : ℕ) (rows : List RemoteEvent) → n ≤ delivered n rows
unfolding delivered
delivered_grows n [] = omega arith
delivered_grows n (e ∷ []) = omega arith
delivered_grows n (e ∷ x ∷ rows) = delivered_grows n (x ∷ rows)

max_grows : (a b c d : ℕ) → a ≤ c → b ≤ d → max a b ≤ max c d
max_grows a b c d h k = ground (arith, h, k)

serve-Served : (r : Request) (c : Connection RemoteDb) → IsWithin c.db → Served c (serve r c)
serve-Served (append now kind path destination) c w =
    let bound =
      max_within c.db.acknowledged_sequence c.db.delivered_sequence c.db.allocated
        w.acknowledged_within w.delivered_within in
    let (kept, _, _, fixed) = append_event-Kept now kind path destination c bound in
    record {
      within = (append_event-Keeps now kind path destination c).0 w;
      grown = subst (λ n. protected_sequence c.db ≤ n) (sym fixed) (omega arith);
      kept = kept;
    }
serve-Served (after sequence limit) c w = elim (Bool-cases (is_positive limit)) [
  | inr h ↦ rw (serve, events_after_refused sequence limit c h) (unchanged c w)
  | inl h ↦
      rw (serve, events_after_lem sequence limit c h)
        (record {
          within = record {
            events_within = w.events_within;
            acknowledged_within = w.acknowledged_within;
            delivered_within =
                delivered_within_rows c.db.allocated c.db.delivered_sequence
                  (found sequence limit c.db) w.delivered_within
                  (found_within sequence limit c.db w.events_within);
          };
          grown =
              max_grows c.db.acknowledged_sequence c.db.delivered_sequence
                c.db.acknowledged_sequence _ (omega arith)
                (delivered_grows c.db.delivered_sequence (found sequence limit c.db));
          kept = refl;
        })
]
serve-Served (acknowledged n) c w = elim (Bool-cases (leb n (latest c.db.events))) [
  | inr h ↦ rw (serve, acknowledge_lem n c, h) (unchanged c w)
  | inl h ↦
      rw (serve, acknowledge_lem n c, h)
        (record {
          within = record {
            events_within = w.events_within;
            acknowledged_within =
                max_within c.db.acknowledged_sequence n c.db.allocated w.acknowledged_within (
                  below n _ c.db.allocated h
                    (latest_within c.db.allocated c.db.events w.events_within));
            delivered_within = w.delivered_within;
          };
          grown =
              max_grows c.db.acknowledged_sequence c.db.delivered_sequence
                (max c.db.acknowledged_sequence n) c.db.delivered_sequence (omega arith)
                (omega arith);
          kept = refl;
        })
]
  where
    below : (n k a : ℕ) → leb n k ≡ true → k ≤ a → n ≤ a
    below n k a h g = ground (arith, h, g)

select-up_to :
    (p q : ℕ) (events : List RemoteEvent)
    → p ≤ q
    → select (up_to p) (select (up_to q) events) ≡ select (up_to p) events
select-up_to p q [] h = refl
select-up_to p q (e ∷ events) h = ground (arith, h, select-up_to p q events h)

-- An agent's journal is in order when no event's number and neither watermark is past the allocated
-- numbers. From a journal in order, any sequence of calls leads to one in order.
pub serve_all-IsWithin :
    (requests : List Request) (c : Connection RemoteDb)
    → IsWithin c.db
    → IsWithin (serve_all requests c).db
serve_all-IsWithin [] c w = w
serve_all-IsWithin (r ∷ requests) c w =
    serve_all-IsWithin requests (serve r c) (serve-Served r c w).within

-- Events that have been delivered or acknowledged at one moment are the same ones, unchanged, after
-- any sequence of further calls, and no other event comes to stand at or below that watermark. At
-- that moment no event's number and neither watermark may be past the allocated numbers.
pub serve_all-keeps_delivered :
    (requests : List Request) (c : Connection RemoteDb)
    → IsWithin c.db
    → select (up_to (protected_sequence c.db)) (serve_all requests c).db.events
      ≡ select (up_to (protected_sequence c.db)) c.db.events
serve_all-keeps_delivered [] c w = refl
serve_all-keeps_delivered (r ∷ requests) c w =
    let s = serve-Served r c w in
    let p = protected_sequence c.db in
    let q = protected_sequence (serve r c).db in
    let rest = serve_all-keeps_delivered requests (serve r c) s.within in
    sym (select-up_to p q (serve_all requests (serve r c)).db.events s.grown)
    ∙ ap (select (up_to p)) rest
    ∙ select-up_to p q (serve r c).db.events s.grown
    ∙ s.kept
