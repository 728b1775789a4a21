-- ===== src/RemoteStore/Delivered.antt =====
-- `RemoteStore.append_event` and the events that have been handed out.
use remote_sandbox_cli.Base.{
  ℕ, ◌≤◌, ◌<◌, ◌≡◌, refl, ◌∙◌, Bool, true, Option, none, some, List, [], ◌∷◌, ◌++◌, if◌then◌else◌,
  ltb, leb, select, Text, arith, Bool-cases, inl, inr, ltb→lt, &&_eq_true, nat_eq,
}
use remote_sandbox_cli.Base.Result.{Result, ok, err, Result-cases}
use remote_sandbox_cli.Journal.{
  EventKind, event_kind_eq, create, modify, delete, move, rescan_required,
}
use remote_sandbox_cli.Sqlite.{Connection, transaction, leave, continue, ◌>>=◌}
use remote_sandbox_cli.RemoteStore.{
  RemoteEvent, RemoteDb, RemoteStore, newest, later, update_event, protected_sequence, open_rescan,
  open_path, coalesce_rescan, coalesce_path, coalesce_event, or_insert, append_event, is_mergeable,
  merge_event_kinds, validate_event,
}

abbrev pub up_to : ℕ → RemoteEvent → Bool
up_to p e = leb e.sequence p

later_passes :
    (test : RemoteEvent → Bool) (e row : RemoteEvent) (rest : Option RemoteEvent)
    → (rest ≡ some row → test row ≡ true)
    → (if test e then some (later e rest) else rest) ≡ some row
    → test row ≡ true
later_passes test e row none below h = ground arith
later_passes test e row (some x) below h = ground (arith, below)

-- The row that a query finds passes its test.
newest_passes :
    (test : RemoteEvent → Bool) (events : List RemoteEvent) (row : RemoteEvent)
    → newest test events ≡ some row
    → test row ≡ true
unfolding newest
newest_passes test [] row h = cc
newest_passes test (e ∷ events) row h =
    later_passes test e row (newest test events) (newest_passes test events row) h

updated :
    (p n : ℕ) (f : RemoteEvent → RemoteEvent) (events : List RemoteEvent)
    → ((e : RemoteEvent) → (f e).sequence ≡ e.sequence)
    → p < n
    → select (up_to p) (update_event n f events) ≡ select (up_to p) events
updated p n f [] same h = refl
updated p n f (e ∷ events) same h = ground (arith, updated p n f events same h, same e)

added :
    (p : ℕ) (e : RemoteEvent) (events : List RemoteEvent)
    → p < e.sequence
    → select (up_to p) (events ++ (e ∷ [])) ≡ select (up_to p) events
added p e [] h = ground arith
added p e (x ∷ events) h = ground (arith, added p e events h)

-- A call that left the events up to `p`, and the open transactions, as they were.
abbrev pub Kept {ℓ} :
    {A : Type ℓ} → ℕ → Connection RemoteDb → Result A × Connection RemoteDb → Type 0
Kept p c r =
    (select (up_to p) r.1.db.events ≡ select (up_to p) c.db.events)
    × (r.1.savepoints ≡ c.savepoints)
    × (c.db.allocated ≤ r.1.db.allocated)
    × (protected_sequence r.1.db ≡ protected_sequence c.db)

module _ {A B : Type 0} where
  Kept-bind :
      (p : ℕ) (c : Connection RemoteDb) (m : RemoteStore A) (f : A → RemoteStore B)
      → Kept p c (m c)
      → ((a : A) (d : Connection RemoteDb) → c.db.allocated ≤ d.db.allocated → Kept p d (f a d))
      → Kept p c ((m >>= f) c)
  Kept-bind p c m f (same, depth, grown, fixed) next = go (m c) same depth grown fixed
    where
      go :
          (r : Result A × Connection RemoteDb)
          → select (up_to p) r.1.db.events ≡ select (up_to p) c.db.events
          → r.1.savepoints ≡ c.savepoints
          → c.db.allocated ≤ r.1.db.allocated
          → protected_sequence r.1.db ≡ protected_sequence c.db
          → Kept p c (continue r.0 f r.1)
      go (ok a, d) s t g f =
          let (s', t', g', f') = next a d g in (s' ∙ s, t' ∙ t, omega arith, f' ∙ f)
      go (err e, d) s t g f = (s, t, g, f)

module _ {A : Type 0} where
  Kept-transaction :
      (p : ℕ) (c : Connection RemoteDb) (m : RemoteStore A)
      → Kept p
          (record c { savepoints = c.db ∷ c.savepoints })
          (m (record c { savepoints = c.db ∷ c.savepoints }))
      → Kept p c (transaction m c)
  unfolding transaction
  Kept-transaction p c m (same, depth, grown, fixed) =
      go (m (record c { savepoints = c.db ∷ c.savepoints })) same depth grown fixed
    where
      go :
          (r : Result A × Connection RemoteDb)
          → select (up_to p) r.1.db.events ≡ select (up_to p) c.db.events
          → r.1.savepoints ≡ c.db ∷ c.savepoints
          → c.db.allocated ≤ r.1.db.allocated
          → protected_sequence r.1.db ≡ protected_sequence c.db
          → Kept p c (let (o, d) = r in leave o d)
      go (ok a, d) s t g f = rw (t) (s, refl, g, f)
      go (err e, d) s t g f = rw (t) (refl, refl, omega arith, refl)

Kept-refl : {A : Type 0} (p : ℕ) (c : Connection RemoteDb) (r : Result A) → Kept p c (r, c)
Kept-refl p c r = (refl, refl, omega arith, refl)

coalesce_rescan-Kept :
    (p now : ℕ) (path : Text) (row : Option RemoteEvent) (c : Connection RemoteDb)
    → ((e : RemoteEvent) → row ≡ some e → p < e.sequence)
    → Kept p c (coalesce_rescan now path row c)
coalesce_rescan-Kept p now path none c above = (refl, refl, omega arith, refl)
coalesce_rescan-Kept p now path (some row) c above =
    (updated p row.sequence _ c.db.events (λ e. refl) (above row refl), refl, omega arith, refl)

coalesce_path-Kept :
    (p now : ℕ) (kind : EventKind) (path : Text) (destination : Option Text)
    (row : Option RemoteEvent)
    → (c : Connection RemoteDb) → ((e : RemoteEvent) → row ≡ some e → p < e.sequence)
    → Kept p c (coalesce_path now kind path destination row c)
coalesce_path-Kept p now kind path destination none c above = (refl, refl, omega arith, refl)
coalesce_path-Kept p now kind path destination (some row) c above =
    elim (Bool-cases (is_mergeable row)) [
      | inr h ↦ rw (h) (refl, refl, omega arith, refl)
      | inl h ↦ elim (Result-cases (merge_event_kinds row.kind kind)) [
        | inl (k, e) ↦
            rw (h, e)
              (
                updated p row.sequence _ c.db.events (λ e. refl) (above row refl),
                refl,
                omega arith,
                refl,
              )
        | inr (x, e) ↦ rw (h, e) (refl, refl, omega arith, refl)
      ]
    ]

path_Kept :
    (now : ℕ) (kind : EventKind) (path : Text) (destination : Option Text) (c : Connection RemoteDb)
    → Kept (protected_sequence c.db) c (
        coalesce_path now kind path destination
          (newest (open_path (protected_sequence c.db) path) c.db.events)
          c)
path_Kept now kind path destination c =
    let p = protected_sequence c.db in
    coalesce_path-Kept p now kind path destination _ c (λ e h.
      ltb→lt _ _
        ((&&_eq_true (ltb p e.sequence) _ (newest_passes (open_path p path) c.db.events e h)).0))

coalesce_event-Kept :
    (now : ℕ) (kind : EventKind) (path : Text) (destination : Option Text) (c : Connection RemoteDb)
    → Kept (protected_sequence c.db) c (coalesce_event now kind path destination c)
unfolding coalesce_event
coalesce_event-Kept now rescan_required path destination c =
    let p = protected_sequence c.db in
    coalesce_rescan-Kept p now path _ c (λ e h.
      ltb→lt _ _
        ((&&_eq_true (ltb p e.sequence) _ (newest_passes (open_rescan p) c.db.events e h)).0))
coalesce_event-Kept now move path destination c = (refl, refl, omega arith, refl)
coalesce_event-Kept now create path destination c = path_Kept now create path destination c
coalesce_event-Kept now modify path destination c = path_Kept now modify path destination c
coalesce_event-Kept now delete path destination c = path_Kept now delete path destination c

or_insert-Kept :
    (p now : ℕ) (kind : EventKind) (path : Text) (destination : Option Text)
    (o : Option RemoteEvent)
    → (c : Connection RemoteDb) → p ≤ c.db.allocated
    → Kept p c (or_insert now kind path destination o c)
or_insert-Kept p now kind path destination (some e) c h = (refl, refl, omega arith, refl)
or_insert-Kept p now kind path destination none c h =
    (added p _ c.db.events (omega (arith, h)), refl, omega arith, refl)

pub append_event-Kept :
    (now : ℕ) (kind : EventKind) (path : Text) (destination : Option Text) (c : Connection RemoteDb)
    → protected_sequence c.db ≤ c.db.allocated
    → Kept (protected_sequence c.db) c (append_event now kind path destination c)
unfolding append_event
append_event-Kept now kind path destination c h =
    elim (Result-cases (validate_event kind path destination)) [
      | inr (e, refused) ↦ rw (refused) (refl, refl, omega arith, refl)
      | inl ((k, q, d), safe) ↦
          let p = protected_sequence c.db in
          let inside = record c { savepoints = c.db ∷ c.savepoints } in
          rw (safe) (
            (Kept-transaction p c _ (
              Kept-bind p inside (coalesce_event now k q d) (or_insert now k q d)
                (coalesce_event-Kept now k q d inside)
                (λ o e g. or_insert-Kept p now k q d o e (omega (arith, h, g))))))
    ]

-- An event that has been delivered or acknowledged is never changed, removed or added by
-- `append_event`, on any branch: a new event is merged into a later one, or gets a later number. The
-- watermark has to be within the numbers that were given out.
pub append_event-keeps_delivered :
    (now : ℕ) (kind : EventKind) (path : Text) (destination : Option Text) (c : Connection RemoteDb)
    → protected_sequence c.db ≤ c.db.allocated
    → select
        (up_to (protected_sequence c.db))
        (append_event now kind path destination c).1.db.events
      ≡ select (up_to (protected_sequence c.db)) c.db.events
append_event-keeps_delivered now kind path destination c h =
    (append_event-Kept now kind path destination c h).0
