-- ===== src/RemoteStore/Within.antt =====
-- The watermarks of the agent's store and the numbers that were given out.
use remote_sandbox_cli.Base.{
  ℕ, ◌+◌, ◌≤◌, ◌≡◌, refl, ◌∙◌, Option, none, some, List, [], ◌∷◌, ◌++◌, max, nat_eq, Text, arith,
  All, Bool-cases, inl, inr,
}
use remote_sandbox_cli.Base.Result.{Result, ok, err, Result-cases}
use remote_sandbox_cli.Journal.{EventKind, create, modify, delete, move, rescan_required}
use remote_sandbox_cli.Sqlite.{Connection, transaction, continue, leave, ◌>>=◌}
use remote_sandbox_cli.RemoteStore.{
  RemoteEvent, RemoteDb, RemoteStore, update_event, coalesce_rescan, coalesce_path, coalesce_event,
  or_insert, append_event, is_mergeable, merge_event_kinds, validate_event, delivered, latest,
}

abbrev pub IsUpTo : ℕ → RemoteEvent → Type 0
IsUpTo n e = e.sequence ≤ n

-- All numbers have been allocated.
pub record IsWithin (db : RemoteDb) : Type 0 where
  pub events_within : All (IsUpTo db.allocated) db.events
  pub acknowledged_within : db.acknowledged_sequence ≤ db.allocated
  pub delivered_within : db.delivered_sequence ≤ db.allocated

-- A call that keeps them so, and leaves the transactions that it enters.
abbrev pub Keeps : {A : Type 0} → Connection RemoteDb → Result A × Connection RemoteDb → Type 0
Keeps c r = (IsWithin c.db → IsWithin r.1.db) × (r.1.savepoints ≡ c.savepoints)

module _ {A B : Type 0} where
  Keeps-bind :
      (c : Connection RemoteDb) (m : RemoteStore A) (f : A → RemoteStore B)
      → Keeps c (m c)
      → ((a : A) (d : Connection RemoteDb) → Keeps d (f a d))
      → Keeps c ((m >>= f) c)
  Keeps-bind c m f (within, depth) next = go (m c) within depth
    where
      go :
          (r : Result A × Connection RemoteDb)
          → (IsWithin c.db → IsWithin r.1.db)
          → r.1.savepoints ≡ c.savepoints
          → Keeps c (continue r.0 f r.1)
      go (ok a, d) w s = let (w', s') = next a d in ((λ h. w' (w h)), s' ∙ s)
      go (err e, d) w s = (w, s)

module _ {A : Type 0} where
  Keeps-transaction :
      (c : Connection RemoteDb) (m : RemoteStore A)
      → Keeps
          (record c { savepoints = c.db ∷ c.savepoints })
          (m (record c { savepoints = c.db ∷ c.savepoints }))
      → Keeps c (transaction m c)
  unfolding transaction
  Keeps-transaction c m (within, depth) =
      go (m (record c { savepoints = c.db ∷ c.savepoints })) within depth
    where
      go :
          (r : Result A × Connection RemoteDb)
          → (IsWithin c.db → IsWithin r.1.db)
          → r.1.savepoints ≡ c.db ∷ c.savepoints
          → Keeps c (leave r.0 r.1)
      go (ok a, d) w s = rw (s) (w, refl)
      go (err e, d) w s = rw (s) ((λ h. h), refl)

updated_within :
    (a n : ℕ) (f : RemoteEvent → RemoteEvent) (events : List RemoteEvent)
    → ((e : RemoteEvent) → (f e).sequence ≡ e.sequence)
    → All (IsUpTo a) events
    → All (IsUpTo a) (update_event n f events)
updated_within a n f [] same h = tt
updated_within a n f (e ∷ events) same (h, hs) =
    (ground (arith, same e, h), updated_within a n f events same hs)

added_within :
    (a : ℕ) (e : RemoteEvent) (events : List RemoteEvent)
    → e.sequence ≡ a + 1
    → All (IsUpTo a) events
    → All (IsUpTo (a + 1)) (events ++ (e ∷ []))
added_within a e [] h tt = (omega (arith, h), tt)
added_within a e (x ∷ events) h (k, ks) = (omega (arith, k), added_within a e events h ks)

-- An update of one event's kind or time.
update-IsWithin :
    (n : ℕ) (f : RemoteEvent → RemoteEvent) (db : RemoteDb)
    → ((e : RemoteEvent) → (f e).sequence ≡ e.sequence)
    → IsWithin db
    → IsWithin (record db { events = update_event n f db.events })
update-IsWithin n f db same w = record {
  events_within = updated_within db.allocated n f db.events same w.events_within;
  acknowledged_within = w.acknowledged_within;
  delivered_within = w.delivered_within;
}

coalesce_rescan-Keeps :
    (now : ℕ) (path : Text) (row : Option RemoteEvent) (c : Connection RemoteDb)
    → Keeps c (coalesce_rescan now path row c)
coalesce_rescan-Keeps now path none c = ((λ w. w), refl)
coalesce_rescan-Keeps now path (some row) c =
    ((λ w. update-IsWithin row.sequence _ c.db (λ e. refl) w), refl)

coalesce_path-Keeps :
    (now : ℕ) (kind : EventKind) (path : Text) (destination : Option Text)
    (row : Option RemoteEvent)
    → (c : Connection RemoteDb) → Keeps c (coalesce_path now kind path destination row c)
coalesce_path-Keeps now kind path destination none c = ((λ w. w), refl)
coalesce_path-Keeps now kind path destination (some row) c = elim (Bool-cases (is_mergeable row)) [
  | inr h ↦ rw (h) ((λ w. w), refl)
  | inl h ↦ elim (Result-cases (merge_event_kinds row.kind kind)) [
    | inl (k, e) ↦ rw (h, e) ((λ w. update-IsWithin row.sequence _ c.db (λ e. refl) w), refl)
    | inr (x, e) ↦ rw (h, e) ((λ w. w), refl)
  ]
]

coalesce_event-Keeps :
    (now : ℕ) (kind : EventKind) (path : Text) (destination : Option Text) (c : Connection RemoteDb)
    → Keeps c (coalesce_event now kind path destination c)
unfolding coalesce_event
coalesce_event-Keeps now rescan_required path destination c = coalesce_rescan-Keeps now path _ c
coalesce_event-Keeps now move path destination c = ((λ w. w), refl)
coalesce_event-Keeps now create path destination c =
    coalesce_path-Keeps now create path destination _ c
coalesce_event-Keeps now modify path destination c =
    coalesce_path-Keeps now modify path destination _ c
coalesce_event-Keeps now delete path destination c =
    coalesce_path-Keeps now delete path destination _ c

or_insert-Keeps :
    (now : ℕ) (kind : EventKind) (path : Text) (destination : Option Text) (o : Option RemoteEvent)
    → (c : Connection RemoteDb) → Keeps c (or_insert now kind path destination o c)
or_insert-Keeps now kind path destination (some e) c = ((λ w. w), refl)
or_insert-Keeps now kind path destination none c = (
  (λ w. record {
    events_within = added_within c.db.allocated _ c.db.events refl w.events_within;
    acknowledged_within = omega (arith, w.acknowledged_within);
    delivered_within = omega (arith, w.delivered_within);
  }),
  refl,
)

pub append_event-Keeps :
    (now : ℕ) (kind : EventKind) (path : Text) (destination : Option Text) (c : Connection RemoteDb)
    → Keeps c (append_event now kind path destination c)
unfolding append_event
append_event-Keeps now kind path destination c =
    elim (Result-cases (validate_event kind path destination)) [
      | inr (e, refused) ↦ rw (refused) ((λ w. w), refl)
      | inl ((k, q, d), safe) ↦
          let inside = record c { savepoints = c.db ∷ c.savepoints } in
          rw (safe) (
            Keeps-transaction c _ (
              Keeps-bind inside (coalesce_event now k q d) (or_insert now k q d)
                (coalesce_event-Keeps now k q d inside) (or_insert-Keeps now k q d)))
    ]

pub latest_within : (a : ℕ) (events : List RemoteEvent) → All (IsUpTo a) events → latest events ≤ a
unfolding latest
latest_within a [] h = omega arith
latest_within a (e ∷ events) (h, hs) = ground (arith, h, latest_within a events hs)

pub delivered_within_rows :
    (a n : ℕ) (rows : List RemoteEvent) → n ≤ a → All (IsUpTo a) rows → delivered n rows ≤ a
unfolding delivered
delivered_within_rows a n [] h hs = h
delivered_within_rows a n (e ∷ []) h (k, _) = ground (arith, h, k)
delivered_within_rows a n (e ∷ x ∷ rows) h (_, hs) = delivered_within_rows a n (x ∷ rows) h hs

pub max_within : (a b n : ℕ) → a ≤ n → b ≤ n → max a b ≤ n
max_within a b n h k = ground (arith, h, k)
