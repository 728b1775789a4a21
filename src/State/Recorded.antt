-- ===== src/State/Recorded.antt =====
-- `WorkspaceStore.record_events` of src/remote_sandbox/state.py, called again.
use remote_sandbox_cli.Base.{
  ℕ, subst, sym, ◌∙◌, ◌≡◌, refl, some, none, List, [], ◌∷◌, ◌++◌, arith, ◌==◌, nat_eq, eq_refl,
  eq→path, All, Option-cases, Bool-cases, inl, inr, ap,
}
use remote_sandbox_cli.Base.Result.{Result, ok, err, Result-cases, Error}
use remote_sandbox_cli.Replica.{Side, side_eq}
use remote_sandbox_cli.Journal.{JournalEvent, journal_event, journal_event_eq}
use remote_sandbox_cli.Journal.Total.{IsRecorded}
use remote_sandbox_cli.Sqlite.{
  Connection, for_each, transaction, continue, leave, release, roll_back,
}
use remote_sandbox_cli.State.Tables.{EventRow, Db}
use remote_sandbox_cli.State.Events.{find_event, insert_event, record_event, record_events}

-- The event is in the table, as its constructor reads it.
abbrev Stored : JournalEvent → Db → Type 0
Stored e db =
    (old : JournalEvent) × (find_event e.side e.sequence db.events ≡ some old)
    × (journal_event old ≡ ok e)

-- What is found is found later on.
abbrev Grows : Db → Db → Type 0
Grows a b =
    (side : Side) (n : ℕ) (x : JournalEvent)
    → find_event side n a.events ≡ some x
    → find_event side n b.events ≡ some x

find_event-append :
    (side : Side) (n : ℕ) (x : JournalEvent) (rows more : List EventRow)
    → find_event side n rows ≡ some x
    → find_event side n (rows ++ more) ≡ some x
unfolding find_event
find_event-append side n x [] more h = cc
find_event-append side n x (row ∷ rows) more h =
    ground (arith, find_event-append side n x rows more)

find_event-added :
    (row : EventRow) (rows : List EventRow)
    → find_event row.event.side row.event.sequence rows ≡ none
    → find_event row.event.side row.event.sequence (rows ++ (row ∷ [])) ≡ some row.event
unfolding find_event
find_event-added row [] h =
    rw (eq_refl {A = Side} row.event.side, eq_refl {A = ℕ} row.event.sequence) refl
find_event-added row (r ∷ rows) h = ground (arith, find_event-added row rows)

module _ (now : ℕ) where
  record_event-again :
      (e : JournalEvent) (d : Connection Db) → Stored e d.db → record_event now e d ≡ (ok tt, d)
  unfolding record_event
  record_event-again e d (old, h, k) = rw (h, k, eq_refl {A = JournalEvent} e) refl

  abbrev added : JournalEvent → Connection Db → Connection Db
  added e c = record c {
    db = record c.db { events = c.db.events ++ (record { event = e; created_at = now } ∷ []) };
  }

  record_event_absent :
      (e : JournalEvent) (c : Connection Db)
      → find_event e.side e.sequence c.db.events ≡ none
      → record_event now e c ≡ (ok tt, added e c)
  unfolding record_event insert_event
  record_event_absent e c h = rw (h, insert_event, h) refl

  record_event_there :
      (e old : JournalEvent) (c d : Connection Db)
      → find_event e.side e.sequence c.db.events ≡ some old
      → record_event now e c ≡ (ok tt, d)
      → (journal_event old ≡ ok e) × (c ≡ d)
  unfolding record_event
  record_event_there e old c d h k = elim (Result-cases (journal_event old)) [
    | inr (x, raised) ↦ absurd (ok_err (rw (h, raised) at k))
    | inl (stored, read) ↦ elim (Bool-cases (stored == e)) [
      | inr differs ↦ absurd (ok_err (rw (h, read, differs) at k))
      | inl same ↦ (
        subst (λ x. journal_event old ≡ ok x) (eq→path stored e same) read,
        ap (λ r. r.1) (rw (h, read, same) at k),
      )
    ]
  ]
    where
      ok_err : {x : Error} → ◌≡◌ {A = Result (Unit {0}) × Connection Db} (err x, c) (ok tt, d) → ⊥
      ok_err h = cc

  record_event-Stored :
      (e : JournalEvent) (c d : Connection Db)
      → journal_event e ≡ ok e
      → record_event now e c ≡ (ok tt, d)
      → Stored e d.db × Grows c.db d.db
  record_event-Stored e c d valid h =
      elim (Option-cases (find_event e.side e.sequence c.db.events)) [
        | inl absent ↦
            subst (λ x. Stored e x.db × Grows c.db x.db)
              (ap (λ r. r.1) (sym (record_event_absent e c absent) ∙ h))
              (
                (
                  e,
                  find_event-added (record { event = e; created_at = now }) c.db.events absent,
                  valid,
                ),
                (λ side n x found. find_event-append side n x c.db.events _ found),
              )
        | inr (old, there) ↦
            let (read, same) = record_event_there e old c d there h in
            subst (λ x. Stored e x.db × Grows c.db x.db) same
              ((old, there, read), (λ side n x found. found))
      ]

  abbrev AllStored : List JournalEvent → Db → Type 0
  AllStored events db = All (λ e. Stored e db) events

  loop_again :
      (events : List JournalEvent) (d : Connection Db)
      → AllStored events d.db
      → for_each events (record_event now) tt d ≡ (ok tt, d)
  loop_again [] d h = refl
  loop_again (e ∷ events) d (h, hs) = rw (record_event-again e d h) (loop_again events d hs)

  loop-Stored :
      (events : List JournalEvent) (c d : Connection Db)
      → All IsRecorded events
      → for_each events (record_event now) tt c ≡ (ok tt, d)
      → AllStored events d.db × Grows c.db d.db
  loop-Stored [] c d valid h = (
    tt,
    (λ side n x found. subst (λ z. find_event side n z.db.events ≡ some x) (ap (λ r. r.1) h) found),
  )
  loop-Stored (e ∷ events) c d (v, vs) h =
      go (λ c₁ k. loop-Stored events c₁ d vs k) (record_event now e c) refl h
    where
      go :
          ((c₁ : Connection Db)
            → for_each events (record_event now) tt c₁ ≡ (ok tt, d)
            → AllStored events d.db × Grows c₁.db d.db)
          → (r : Result (Unit {0}) × Connection Db) → record_event now e c ≡ r
          → continue r.0 (λ b. for_each events (record_event now) b) r.1 ≡ (ok tt, d)
          → AllStored (e ∷ events) d.db × Grows c.db d.db
      go rest_of (err x, c₁) k h = absurd (ok_err h)
        where
          ok_err : ◌≡◌ {A = Result (Unit {0}) × Connection Db} (err x, c₁) (ok tt, d) → ⊥
          ok_err h = cc
      go rest_of (ok u, c₁) k h =
          let ((old, there, read), grown) = record_event-Stored e c c₁ v k in
          let (rest, grown') = rest_of c₁ h in
          (
            ((old, grown' e.side e.sequence old there, read), rest),
            (λ side n x found. grown' side n x (grown side n x found)),
          )

released : (saved : List Db) (c : Connection Db) → (release saved c).db ≡ c.db
released [] c = refl
released (x ∷ saved) c = refl

-- Recording events again that have been recorded succeeds and changes nothing, whenever it happens,
-- where their constructor, given the fields of each of the events, gives the event back unchanged, so
-- that their paths are their own normal forms.
pub record_events-again :
    (now later : ℕ) (events : List JournalEvent) (c d : Connection Db)
    → All IsRecorded events
    → record_events now events c ≡ (ok tt, d)
    → record_events later events d ≡ (ok tt, d)
unfolding record_events transaction
record_events-again now later events c d valid h =
    rw
      (loop_again later events (record d { savepoints = d.db ∷ d.savepoints })
        (first (for_each events (record_event now) tt inside) refl h))
      refl
  where
    inside : Connection Db
    inside = record c { savepoints = c.db ∷ c.savepoints }

    first :
        (r : Result (Unit {0}) × Connection Db)
        → for_each events (record_event now) tt inside ≡ r
        → leave r.0 r.1 ≡ (ok tt, d)
        → All (λ e. Stored e d.db) events
    first (err x, c₁) k h = absurd (ok_err h)
      where
        ok_err :
            ◌≡◌ {A = Result (Unit {0}) × Connection Db}
              (err x, roll_back c₁.savepoints c₁)
              (ok tt, d)
            → ⊥
        ok_err h = cc
    first (ok u, c₁) k h =
        subst (λ db. All (λ e. Stored e db) events)
          (sym (released c₁.savepoints c₁) ∙ ap (λ r. r.1.db) h)
          ((loop-Stored now events inside c₁ valid k).0)
