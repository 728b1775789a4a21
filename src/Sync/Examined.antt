-- ===== src/Sync/Examined.antt =====
-- What the loop over all paths in `record_drift` of src/remote_sandbox/_engine_audit.py finds.
use remote_sandbox_cli.Base.{
  ◌≡◌, refl, subst, sym, Bool, true, false, not, ◌&&◌, ◌||◌, Option, none, some, List, [], ◌∷◌,
  if◌then◌else◌, ◌==◌, Text, text_eq, contains, arith, Bool-cases, inl, inr, eq→path,
}
use remote_sandbox_cli.Base.Dict.{lookup}
use remote_sandbox_cli.Base.Result.{Result, ok, >>=-eq-ok, ok_injective}
use remote_sandbox_cli.Manifest.{EntryFingerprint, kind_eq, file}
use remote_sandbox_cli.Sync.Drift.{
  Readings, Drift, local_matches, remote_matches, option_signature_eq, dirty_if, update_local_if,
  compare_local_if, examine_plain, examine_file, examine_base, examine, examine_unless, examine_all,
}
use remote_sandbox_cli.Sync.Grown.{
  add-holds, More, chained, dirty_if-More, update_local_if-More, update_remote_if-More,
  compare_local_if-More, compare_remote_if-More, compare_local-holds, compare_remote-holds,
  file-holds, right,
}

module _ (r : Readings) where
  examine_plain-More :
      (path : Text) (lq rq : Bool) (d : Drift) → More d (examine_plain r path lq rq d)
  examine_plain-More path lq rq d =
      chained d (update_local_if lq path (lookup path r.local_signatures) d)
        (examine_plain r path lq rq d) (update_local_if-More lq path _ d)
        (update_remote_if-More rq path _ _)

  examine_file-More :
      (path : Text) (ph lq rq : Bool) (d : Drift) → More d (examine_file r path ph lq rq d)
  examine_file-More path true lq rq d =
      chained d (update_local_if lq path (lookup path r.local_signatures) d)
        (examine_file r path true lq rq d) (update_local_if-More lq path _ d)
        (compare_remote_if-More rq path _ _ _)
  examine_file-More path false lq rq d =
      chained d
        (compare_local_if lq path (lookup path r.stored_local) (lookup path r.local_signatures) d)
        (examine_file r path false lq rq d) (compare_local_if-More lq path _ _ d)
        (compare_remote_if-More rq path _ _ _)

  examine_base-More :
      (path : Text) (o : Option EntryFingerprint) (lq rq : Bool) (d : Drift)
      → More d (examine_base r path o lq rq d)
  examine_base-More path none lq rq d = examine_plain-More path lq rq d
  examine_base-More path (some b) lq rq d = elim (Bool-cases (b.kind == file)) [
    | inl k ↦ rw k (examine_file-More path b.is_placeholder lq rq d)
    | inr k ↦ rw k (examine_plain-More path lq rq d)
  ]

  examine_unless-More : (b : Bool) (path : Text) (d : Drift) → More d (examine_unless r b path d)
  examine_unless-More true path d p = ((λ h. h), (λ h. h), (λ h. h))
  examine_unless-More false path d p =
      chained d (dirty_if (not (local_matches r path) || not (remote_matches r path)) path d)
        (examine r path d) (dirty_if-More _ path d)
        (examine_base-More path (lookup path r.base) _ _ _) p

  -- Whether the local signature of a file has to be explained by its digest, and the remote one.
  abbrev pub local_changed : Text → Option EntryFingerprint → Bool
  local_changed path none = false
  local_changed path (some b) =
      b.kind == file
      && not b.is_placeholder
      && not (lookup path r.stored_local == lookup path r.local_signatures)

  abbrev pub remote_changed : Text → Option EntryFingerprint → Bool
  remote_changed path none = false
  remote_changed path (some b) =
      b.kind == file && not (lookup path r.stored_remote == lookup path r.remote_signatures)

  -- The path is dirty, or it matches as far as it has been looked at.
  abbrev pub held : Text → Option EntryFingerprint → Bool → Bool → Drift → Bool
  held path o lq rq d =
      contains d.dirty path
      || (lq
          && rq
          && (not (local_changed path o) || contains d.ambiguous_local path)
          && (not (remote_changed path o) || contains d.ambiguous_remote path))

  held-dirty :
      (path : Text) (o : Option EntryFingerprint) (lq rq : Bool) (d : Drift)
      → contains d.dirty path ≡ true
      → held path o lq rq d ≡ true
  held-dirty path o lq rq d h = rw h refl

  held-More :
      (path : Text) (o : Option EntryFingerprint) (lq rq : Bool) (a b : Drift)
      → More a b
      → held path o lq rq a ≡ true
      → held path o lq rq b ≡ true
  held-More path o lq rq a b more h = let (m₀, m₁, m₂) = more path in ground (arith, m₀, m₁, m₂)

  examine_plain-held :
      (path : Text) (o : Option EntryFingerprint) (d : Drift)
      → local_changed path o ≡ false
      → remote_changed path o ≡ false
      → held path o true true (examine_plain r path true true d) ≡ true
  examine_plain-held path o d h k = rw (h, k) (ground arith)

  examine_file-held :
      (path : Text) (b : EntryFingerprint) (placeholder : Bool) (d : Drift)
      → b.is_placeholder ≡ placeholder
      → held path (some b) true true (examine_file r path placeholder true true d) ≡ true
  examine_file-held path b true d h =
      let d₁ = update_local_if true path (lookup path r.local_signatures) d in
      file-holds _ _ _ (b.kind == file) b.is_placeholder _ _ (rw h refl) (
        compare_remote-holds path (lookup path r.stored_remote) (lookup path r.remote_signatures)
          d₁)
  examine_file-held path b false d h =
      let d₁ =
        compare_local_if true path (lookup path r.stored_local) (lookup path r.local_signatures)
          d in
      let d₂ = examine_file r path false true true d in
      file-holds (contains d₂.dirty path) (contains d₂.ambiguous_local path)
        (contains d₂.ambiguous_remote path) (b.kind == file) b.is_placeholder
        (lookup path r.stored_local == lookup path r.local_signatures)
        (lookup path r.stored_remote == lookup path r.remote_signatures)
        (rw h (
          kept (lookup path r.stored_local == lookup path r.local_signatures)
            (contains d₁.ambiguous_local path) (contains d₂.ambiguous_local path)
            (compare_local-holds path (lookup path r.stored_local) (lookup path r.local_signatures)
              d)
            (compare_remote_if-More true path (lookup path r.stored_remote)
              (lookup path r.remote_signatures) d₁ path).1))
        (compare_remote-holds path (lookup path r.stored_remote) (lookup path r.remote_signatures)
          d₁)
    where
      kept : (s a b : Bool) → (s || a) ≡ true → (a ≡ true → b ≡ true) → (s || b) ≡ true
      kept true a b h f = refl
      kept false a b h f = f h

  held-either :
      (path : Text) (o : Option EntryFingerprint) (b : Bool) (x y : Drift)
      → (b ≡ true → held path o true true x ≡ true)
      → (b ≡ false → held path o true true y ≡ true)
      → held path o true true (if b then x else y) ≡ true
  held-either path o true x y h k = h refl
  held-either path o false x y h k = k refl

  examine_base-held :
      (path : Text) (o : Option EntryFingerprint) (lq rq : Bool) (d : Drift)
      → ((lq && rq) ≡ false → contains d.dirty path ≡ true)
      → held path o lq rq (examine_base r path o lq rq d) ≡ true
  examine_base-held path o false rq d h =
      held-dirty path o false rq (examine_base r path o false rq d)
        ((examine_base-More path o false rq d path).0 (h refl))
  examine_base-held path o true false d h =
      held-dirty path o true false (examine_base r path o true false d)
        ((examine_base-More path o true false d path).0 (h refl))
  examine_base-held path none true true d h = examine_plain-held path none d refl refl
  examine_base-held path (some b) true true d h =
      held-either path (some b) (b.kind == file) (examine_file r path b.is_placeholder true true d)
        (examine_plain r path true true d) (λ k. examine_file-held path b b.is_placeholder d refl)
        (λ k. examine_plain-held path (some b) d (rw k refl) (rw k refl))

  examine_unless-held :
      (path : Text) (d : Drift)
      → held path
          (lookup path r.base)
          (local_matches r path)
          (remote_matches r path)
          (examine r path d)
        ≡ true
  examine_unless-held path d =
      examine_base-held path (lookup path r.base) (local_matches r path) (remote_matches r path) _
        (λ h.
          dirty (not (local_matches r path) || not (remote_matches r path))
            (negated (local_matches r path) (remote_matches r path) h))
    where
      negated : (a b : Bool) → (a && b) ≡ false → (not a || not b) ≡ true
      negated a b h = ground arith

      dirty : (b : Bool) → b ≡ true → contains (dirty_if b path d).dirty path ≡ true
      dirty true h = add-holds d.dirty path
      dirty false h = cc

  examine_all-More :
      (is_ignored : Text → Result Bool) (paths : List Text) (d d' : Drift)
      → examine_all r is_ignored paths d ≡ ok d'
      → More d d'
  unfolding examine_all
  examine_all-More is_ignored [] d d' h =
      subst (More d) (ok_injective d d' h) (λ p. ((λ h. h), (λ h. h), (λ h. h)))
  examine_all-More is_ignored (path ∷ paths) d d' h =
      let (ignored, _, rest) = >>=-eq-ok (is_ignored path) _ h in
      chained d (examine_unless r ignored path d) d' (examine_unless-More ignored path d)
        (examine_all-More is_ignored paths _ d' rest)

  pub examine_all-held :
      (is_ignored : Text → Result Bool) (paths : List Text) (d d' : Drift) (path : Text)
      → examine_all r is_ignored paths d ≡ ok d'
      → contains paths path ≡ true
      → is_ignored path ≡ ok false
      → held path (lookup path r.base) (local_matches r path) (remote_matches r path) d' ≡ true
  unfolding examine_all
  examine_all-held is_ignored [] d d' path h k kept = cc
  examine_all-held is_ignored (p ∷ paths) d d' path h k kept =
      let (ignored, at_p, rest) = >>=-eq-ok (is_ignored p) _ h in
      elim (Bool-cases (path == p)) [
        | inl same ↦
            elim ignored
                as (λ b.
                  is_ignored p ≡ ok b
                  → examine_all r is_ignored paths (examine_unless r b p d) ≡ ok d'
                  → held path (lookup path r.base) (local_matches r path) (remote_matches r path) d'
                    ≡ true) [
                      | true ↦ λ at_p rest. cc (eq→path path p same, at_p, kept)
                      | false ↦ λ at_p rest.
                          let rest : examine_all r is_ignored paths (examine r path d) ≡ ok d' =
                            subst (λ x. examine_all r is_ignored paths (examine r x d) ≡ ok d')
                              (sym (eq→path path p same)) rest in
                          held-More path (lookup path r.base) (local_matches r path)
                            (remote_matches r path) (examine r path d) d'
                            (examine_all-More is_ignored paths _ d' rest)
                            (examine_unless-held path d)
                    ]
              at_p rest
        | inr other ↦
            examine_all-held is_ignored paths (examine_unless r ignored p d) d' path rest
              (right (path == p) (contains paths path) k other) kept
      ]
