-- ===== src/Journal/Total.antt =====
-- `coalesce_events` of src/remote_sandbox/journal.py on events that their constructor leaves as they
-- are.
use remote_sandbox_cli.Base.{
  ◌≡◌, refl, ◌≢◌, Bool, true, false, ◌&&◌, ◌||◌, Option, none, some, List, [], ◌∷◌, ◌++◌, arith,
  if◌then◌else◌, ◌==◌, Text, text_eq, option_text_eq, nat_eq, ltb, All, ||_eq_false, ne_of_eq_false,
  eq_refl, Bool-cases, inl, inr,
}
use remote_sandbox_cli.Base.Dict.{lookup, values}
use remote_sandbox_cli.Base.Result.{ok, value_error, require->>}
use remote_sandbox_cli.Base.Sort.{sort, All-sort}
use remote_sandbox_cli.Paths.{normalize_relative_path}
use remote_sandbox_cli.Journal.{
  JournalEvent, EventKind, create, modify, delete, move, rescan_required, event_kind_eq,
  EventKind-discrete, journal_event, normalize_event, coalesce_path_event, coalesce_loop,
  coalesce_events, event_le, is_structural, Coalesced, key_of, event_key_eq, no_events,
}

-- The constructor, given the fields of the event, gives it back unchanged. An event that it has built
-- may be no such event, because the normal form of './C:/x' is 'C:/x', which is rejected.
abbrev pub IsRecorded : JournalEvent → Type 0
IsRecorded e = journal_event e ≡ ok e

normalize_event-kind :
    (k : EventKind) (e e' : JournalEvent)
    → k ≢ move
    → normalize_event k e ≡ ok e'
    → (normalize_relative_path e.path ≡ ok e'.path)
      × (e.destination_path ≡ none)
      × (e' ≡ record e { path = e'.path })
normalize_event-kind move e e' n h = absurd (n refl)
normalize_event-kind create e e' n h = ground arith
normalize_event-kind _ e e' n h = ground arith

-- A recorded event of one path.
record IsPlain (e : JournalEvent) : Type 0 where
  positive : ltb 0 e.sequence ≡ true
  normal : normalize_relative_path e.path ≡ ok e.path
  alone : (e.destination_path == none) ≡ true

recorded-IsPlain : (e : JournalEvent) → is_structural e ≡ false → IsRecorded e → IsPlain e
unfolding journal_event
recorded-IsPlain e s h =
    let (positive, k) = require->> (ltb 0 e.sequence) value_error _ h in
    let (no_move, no_rescan) = ||_eq_false (e.kind == move) (e.kind == rescan_required) s in
    let (normal, alone, _) =
      normalize_event-kind e.kind e e (ne_of_eq_false e.kind move no_move) (rw no_rescan at k) in
    record {
      positive = positive;
      normal = normal;
      alone = rw alone (eq_refl {A = Option Text} none);
    }

plain-IsRecorded :
    (k : EventKind) (e : JournalEvent)
    → (k == move || k == rescan_required) ≡ false
    → IsPlain e
    → IsRecorded (record e { kind = k })
unfolding journal_event EventKind-discrete
plain-IsRecorded move e s p = cc
plain-IsRecorded rescan_required e s p = cc
plain-IsRecorded _ e s p = rw (p.positive, p.normal, p.alone)

coalesce_path_event-IsRecorded :
    (o : Option JournalEvent) (e : JournalEvent)
    → is_structural e ≡ false
    → IsRecorded e
    → (m : JournalEvent) × (coalesce_path_event o e ≡ ok m) × IsRecorded m
unfolding coalesce_path_event EventKind-discrete
coalesce_path_event-IsRecorded none e s h = (e, refl, h)
coalesce_path_event-IsRecorded (some p) e s h =
    go (p.kind == create && e.kind == modify) (p.kind == delete && e.kind == create)
  where
    created : IsRecorded (record e { kind = create })
    created = plain-IsRecorded create e refl (recorded-IsPlain e s h)

    modified : IsRecorded (record e { kind = modify })
    modified = plain-IsRecorded modify e refl (recorded-IsPlain e s h)

    go :
        (a b : Bool)
        → (m : JournalEvent) × ((if a
              then journal_event (record e { kind = create })
              else if b
              then journal_event (record e { kind = modify })
              else ok e)
            ≡ ok m)
          × IsRecorded m
    go true b = (record e { kind = create }, created, created)
    go false true = (record e { kind = modify }, modified, modified)
    go false false = (e, refl, h)

coalesce_loop_total :
    (events : List JournalEvent) (c : Coalesced)
    → All IsRecorded events
    → (c' : Coalesced) × (coalesce_loop events c ≡ ok c')
unfolding coalesce_loop
coalesce_loop_total [] c h = (c, refl)
coalesce_loop_total (e ∷ events) c (he, h) = elim (Bool-cases (is_structural e)) [
  | inl s ↦ rw s (coalesce_loop_total events _ h)
  | inr s ↦
      let (m, hm, _) = coalesce_path_event-IsRecorded (lookup (key_of e) c.path_events) e s he in
      rw (s, hm) (coalesce_loop_total events _ h)
]

-- Events that their constructor gives back unchanged when it is given their fields, so that their
-- paths are their own normal forms, are coalesced without an error.
pub coalesce_events_total :
    (events : List JournalEvent)
    → All IsRecorded events
    → (out : List JournalEvent) × (coalesce_events events ≡ ok out)
unfolding coalesce_events
coalesce_events_total events h =
    let (c, hc) =
      coalesce_loop_total (sort event_le events) no_events
        (All-sort event_le IsRecorded events h) in
    (sort event_le (c.structural_events ++ values c.path_events), rw hc)
