-- ===== src/Journal/Merged.antt =====
-- `coalesce_events` of src/remote_sandbox/journal.py: its result in terms of its argument.
use mathlib.Core.List.{Perm}
use remote_sandbox_cli.Base.{
  ◌≡◌, refl, sym, ◌∙◌, ap, subst, Bool, true, false, not, ◌&&◌, Option, none, some, List, [], ◌∷◌,
  ◌++◌, arith, if◌then◌else◌, ◌==◌, nat_eq, select, eq→path, Bool-cases, inl, inr, append_assoc,
  append-nil,
}
use remote_sandbox_cli.Base.Dict.{
  Dict, lookup, insert, values, NodupKeys, insert-NodupKeys, lookup-insert, lookup-nil,
}
use remote_sandbox_cli.Base.Result.{Result, ok, ◌>>=◌, >>=-eq-ok, ok_injective}
use remote_sandbox_cli.Base.Sort.{sort, sort-perm, IsSorted, sort-IsSorted}
use remote_sandbox_cli.Journal.{
  JournalEvent, coalesce_path_event, coalesce_loop, coalesce_events, event_le, is_structural,
  Coalesced, EventKey, key_of, event_key_eq, no_events,
}

-- The events of one key, merged one after the other.
abbrev pub merge_all : List JournalEvent → Option JournalEvent → Result (Option JournalEvent)
merge_all [] o = ok o
merge_all (e ∷ es) o = do m ← coalesce_path_event o e; merge_all es (some m)

abbrev pub of_key : EventKey → List JournalEvent → List JournalEvent
of_key k = select (λ e. not (is_structural e) && key_of e == k)

-- What the loop has made of `events`, from what it had before.
record Extends (events : List JournalEvent) (c c' : Coalesced) : Type 0 where
  merged :
      (k : EventKey)
      → merge_all (of_key k events) (lookup k c.path_events) ≡ ok (lookup k c'.path_events)
  structural : c'.structural_events ≡ c.structural_events ++ select is_structural events
  keys : NodupKeys c.path_events → NodupKeys c'.path_events

one_structural :
    (e : JournalEvent) (events : List JournalEvent) (c c' : Coalesced)
    → is_structural e ≡ true
    → Extends events (record c { structural_events = c.structural_events ++ (e ∷ []) }) c'
    → Extends (e ∷ events) c c'
one_structural e events c c' s h = record {
  merged = λ k. rw s (h.merged k);
  structural =
      rw s (h.structural ∙ append_assoc c.structural_events (e ∷ []) (select is_structural events));
  keys = h.keys;
}

one_key :
    (k : EventKey) (e m : JournalEvent) (rest : List JournalEvent) (d : Dict EventKey JournalEvent)
    (o : Option JournalEvent)
    → coalesce_path_event (lookup (key_of e) d) e ≡ ok m
    → merge_all rest (lookup k (insert (key_of e) m d)) ≡ ok o
    → (b : Bool) → (key_of e == k) ≡ b
    → merge_all (if b then e ∷ rest else rest) (lookup k d) ≡ ok o
one_key k e m rest d o hm h true hb =
    let same : lookup k d ≡ lookup (key_of e) d =
      ap (λ j. lookup j d) (sym (eq→path (key_of e) k hb)) in
    rw (same, hm) (rw (lookup-insert k (key_of e) m d, hb) at h)
one_key k e m rest d o hm h false hb = rw (lookup-insert k (key_of e) m d, hb) at h

one_path :
    (e m : JournalEvent) (events : List JournalEvent) (c c' : Coalesced)
    → is_structural e ≡ false
    → coalesce_path_event (lookup (key_of e) c.path_events) e ≡ ok m
    → Extends events (record c { path_events = insert (key_of e) m c.path_events }) c'
    → Extends (e ∷ events) c c'
one_path e m events c c' s hm h = record {
  merged = λ k. rw s (one_key k e m _ c.path_events _ hm (h.merged k) (key_of e == k) refl);
  structural = rw s h.structural;
  keys = λ u. h.keys (insert-NodupKeys (key_of e) m c.path_events u);
}

coalesce_loop-Extends :
    (events : List JournalEvent) (c c' : Coalesced)
    → coalesce_loop events c ≡ ok c'
    → Extends events c c'
unfolding coalesce_loop
coalesce_loop-Extends [] c c' h = subst (Extends [] c) (ok_injective c c' h) (record {
  merged = λ k. refl;
  structural = sym (append-nil c.structural_events);
  keys = λ u. u;
})
coalesce_loop-Extends (e ∷ events) c c' h = elim (Bool-cases (is_structural e)) [
  | inl s ↦ one_structural e events c c' s (coalesce_loop-Extends events _ c' (rw s at h))
  | inr s ↦
      let (c₁, h₁, k) = >>=-eq-ok _ _ (rw s at h) in
      let (m, hm, h₂) = >>=-eq-ok (coalesce_path_event (lookup (key_of e) c.path_events) e) _ h₁ in
      one_path e m events c c' s hm (
        coalesce_loop-Extends events _ c'
          (subst (λ x. coalesce_loop events x ≡ ok c') (sym (ok_injective _ c₁ h₂)) k))
]

event_le_total : (a b : JournalEvent) → event_le a b ≡ false → event_le b a ≡ true
unfolding event_le
event_le_total a b h = ground arith

event_le_trans :
    (a b c : JournalEvent) → event_le a b ≡ true → event_le b c ≡ true → event_le a c ≡ true
unfolding event_le
event_le_trans a b c h k = ground arith

-- What coalescing returns, in terms of the events in their order.
pub record CoalescesTo (events out : List JournalEvent) : Type 0 where
  pub ordered : List JournalEvent
  pub ordered_perm : Perm ordered events
  pub ordered_sorted : IsSorted event_le ordered
  pub table : Dict EventKey JournalEvent
  pub one_per_key : NodupKeys table
  pub merged : (k : EventKey) → merge_all (of_key k ordered) none ≡ ok (lookup k table)
  pub out_perm : Perm out (select is_structural ordered ++ values table)
  pub out_sorted : IsSorted event_le out

-- What `coalesce_events` returns is sorted by number and side, and holds each move and each rescan as
-- it was, and for each side and path with other events exactly one, their merge from the first to the
-- last in that order.
pub coalesce_events-CoalescesTo :
    (events out : List JournalEvent) → coalesce_events events ≡ ok out → CoalescesTo events out
unfolding coalesce_events
coalesce_events-CoalescesTo events out h =
    let ordered = sort event_le events in
    let (c, hc, k) = >>=-eq-ok (coalesce_loop ordered no_events) _ h in
    let ext = coalesce_loop-Extends ordered no_events c hc in
    let all = c.structural_events ++ values c.path_events in
    let same : sort event_le all ≡ out = ok_injective _ out k in
    record {
      ordered = ordered;
      ordered_perm = sort-perm event_le events;
      ordered_sorted = sort-IsSorted event_le event_le_total event_le_trans events;
      table = c.path_events;
      one_per_key = ext.keys tt;
      merged = λ key. rw (← ext.merged key) (rw (lookup-nil key) refl);
      out_perm =
          subst (λ x. Perm out (x ++ values c.path_events)) ext.structural
            (subst (λ x. Perm x all) same (sort-perm event_le all));
      out_sorted =
          subst (IsSorted event_le) same (sort-IsSorted event_le event_le_total event_le_trans all);
    }
