-- ===== src/Sync/Drifted.antt =====
-- What `record_drift` of src/remote_sandbox/_engine_audit.py requeues.
use remote_sandbox_cli.Base.{
  ◌≡◌, refl, subst, sym, ap, Bool, true, false, not, ◌&&◌, ◌||◌, Option, none, some, List, [], ◌∷◌,
  if◌then◌else◌, ◌==◌, Text, text_eq, contains, arith, Bool-cases, inl, inr, eq→path,
}
use remote_sandbox_cli.Base.Dict.{Dict, lookup}
use remote_sandbox_cli.Base.Result.{Result, ok, >>=-eq-ok, ok_injective}
use remote_sandbox_cli.Manifest.{EntryFingerprint, FingerprintState, kind_eq}
use remote_sandbox_cli.State.Tables.{AuditSignature}
use remote_sandbox_cli.Sync.Outside.{Observations}
use remote_sandbox_cli.Sync.Drift.{
  Readings, Drift, Signatures, no_drift, local_matches, remote_matches, option_signature_eq,
  examine_all, settle, settle_all, settle_drift, strong_matches_base, or_key_error,
}
use remote_sandbox_cli.Sync.Grown.{add-keeps, add-holds, right}
use remote_sandbox_cli.Sync.Examined.{local_changed, remote_changed, examine_all-held}

either : (a b c : Bool) → b ≡ c → (c ≡ false → a ≡ true) → (a || b) ≡ true
either a b true h f = rw h (ground arith)
either a b false h f = rw (h, f refl) refl

module _ (base : Dict Text EntryFingerprint) (o : Observations) where
  -- Whether the digest that was read agrees with the base.
  abbrev pub agrees_at : Text → Option FingerprintState → Bool
  agrees_at path none = false
  agrees_at path (some state) = strong_matches_base state (lookup path base)

  settle-keeps :
      (b : Bool) (p q : Text) (s : Option AuditSignature) (found : List Text × Signatures)
      → contains found.0 q ≡ true
      → contains (settle b p s found).0 q ≡ true
  settle-keeps true p q s found h = h
  settle-keeps false p q s found h = add-keeps found.0 p q h

  settle_all-keeps :
      (paths : List Text) (found result : List Text × Signatures) (q : Text)
      → settle_all base o paths found ≡ ok result
      → contains found.0 q ≡ true
      → contains result.0 q ≡ true
  unfolding settle_all
  settle_all-keeps [] found result q h k =
      subst (λ (x : List Text × Signatures). contains x.0 q ≡ true) (ok_injective found result h) k
  settle_all-keeps (p ∷ paths) found result q h k =
      let (state, _, h) = >>=-eq-ok (or_key_error (lookup p o.0)) _ h in
      let (signature, _, rest) =
        >>=-eq-ok
          (if strong_matches_base state (lookup p base)
            then or_key_error (lookup p o.1)
            else ok none)
          _ h in
      settle_all-keeps paths _ result q rest
        (settle-keeps (strong_matches_base state (lookup p base)) p q signature found k)

  agrees_at_lem :
      (p : Text) (found : Option FingerprintState) (state : FingerprintState)
      → or_key_error found ≡ ok state
      → agrees_at p found ≡ strong_matches_base state (lookup p base)
  agrees_at_lem p none state h = cc
  agrees_at_lem p (some s) state h =
      ap (λ x. strong_matches_base x (lookup p base)) (ok_injective s state h)

  settle-holds :
      (b : Bool) (p : Text) (s : Option AuditSignature) (found : List Text × Signatures)
      → b ≡ false
      → contains (settle b p s found).0 p ≡ true
  settle-holds true p s found h = cc
  settle-holds false p s found h = add-holds found.0 p

  settle_all-decides :
      (paths : List Text) (found result : List Text × Signatures) (q : Text)
      → settle_all base o paths found ≡ ok result
      → contains paths q ≡ true
      → (contains result.0 q || agrees_at q (lookup q o.0)) ≡ true
  unfolding settle_all
  settle_all-decides [] found result q h k = cc
  settle_all-decides (p ∷ paths) found result q h k =
      let (state, here, h) = >>=-eq-ok (or_key_error (lookup p o.0)) _ h in
      let agrees = strong_matches_base state (lookup p base) in
      let (signature, _, rest) =
        >>=-eq-ok (if agrees then or_key_error (lookup p o.1) else ok none) _ h in
      elim (Bool-cases (q == p)) [
        | inl same ↦
            subst (λ x. (contains result.0 x || agrees_at x (lookup x o.0)) ≡ true)
              (sym (eq→path q p same))
              (either (contains result.0 p) (agrees_at p (lookup p o.0)) agrees
                (agrees_at_lem p (lookup p o.0) state here)
                (λ no₀.
                  settle_all-keeps paths (settle agrees p signature found) result p rest
                    (settle-holds agrees p signature found no₀)))
        | inr other ↦
            settle_all-decides paths _ result q rest (right (q == p) (contains paths q) k other)
      ]

-- The findings of the whole audit: what was dirty or ambiguous first, then after the digests of the
-- local side, and after those of the remote side.
settled :
    (dirty dirty₁ dirty₂ l r lc rc al ar gl gr : Bool)
    → (dirty ≡ true → dirty₁ ≡ true)
    → (dirty₁ ≡ true → dirty₂ ≡ true)
    → (al ≡ true → (dirty₁ || gl) ≡ true)
    → (ar ≡ true → (dirty₂ || gr) ≡ true)
    → (dirty || (l && r && (not lc || al) && (not rc || ar))) ≡ true
    → (dirty₂ || (l && r && (not lc || gl) && (not rc || gr))) ≡ true
settled dirty dirty₁ dirty₂ l r lc rc al ar gl gr h₀ h₁ h₂ h₃ h = ground arith

module _ (r : Readings) (l o : Observations) where
  -- Both sides pass the quick test of their side against the base. Where the base has a file, also:
  -- if the local signature is not the stored one and the file is no placeholder, the local digest
  -- read is that of the base, and if the remote signature is not the stored one, so is the remote
  -- digest read.
  abbrev pub is_verified : Text → Bool
  is_verified path =
      local_matches r path
      && remote_matches r path
      && (not (local_changed r path (lookup path r.base))
          || agrees_at r.base l path (lookup path l.0))
      && (not (remote_changed r path (lookup path r.base))
          || agrees_at r.base o path (lookup path o.0))

  -- When an audit returns its findings, every path that was looked at and is not ignored either is
  -- among the paths to requeue, or both sides pass the quick test against the base at it. For a
  -- placeholder of the base this test is that the local entry is the one of the base, and that the
  -- remote side has some file. In the second case, where the base has a file, the remote digest read
  -- is that of the base if the remote signature is not the stored one, and so is the local digest
  -- read if the local signature is not the stored one and the file is no placeholder.
  pub settle_drift-verified :
      (is_ignored : Text → Result Bool) (paths : List Text) (d : Drift)
      (found : List Text × Signatures × Signatures) (path : Text)
      → examine_all r is_ignored paths no_drift ≡ ok d
      → settle_drift r.base l o d ≡ ok found
      → contains paths path ≡ true
      → is_ignored path ≡ ok false
      → (contains found.0 path || is_verified path) ≡ true
  unfolding settle_drift
  settle_drift-verified is_ignored paths d found path examined h k kept =
      let (first, at_first, h) =
        >>=-eq-ok (settle_all r.base l d.ambiguous_local (d.dirty, d.local_updates)) _ h in
      let (second, at_second, h) =
        >>=-eq-ok (settle_all r.base o d.ambiguous_remote (first.0, d.remote_updates)) _ h in
      subst
        (λ (x : List Text × Signatures × Signatures).
          (contains x.0 path || is_verified path) ≡ true)
        (ok_injective _ found h)
        (settled (contains d.dirty path) (contains first.0 path) (contains second.0 path)
          (local_matches r path) (remote_matches r path) (local_changed r path (lookup path r.base))
          (remote_changed r path (lookup path r.base)) (contains d.ambiguous_local path)
          (contains d.ambiguous_remote path) (agrees_at r.base l path (lookup path l.0))
          (agrees_at r.base o path (lookup path o.0))
          (settle_all-keeps r.base l d.ambiguous_local (d.dirty, d.local_updates) first path
            at_first)
          (settle_all-keeps r.base o d.ambiguous_remote (first.0, d.remote_updates) second path
            at_second)
          (settle_all-decides r.base l d.ambiguous_local (d.dirty, d.local_updates) first path
            at_first)
          (settle_all-decides r.base o d.ambiguous_remote (first.0, d.remote_updates) second path
            at_second)
          (examine_all-held r is_ignored paths no_drift d path examined k kept))
