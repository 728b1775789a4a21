-- ===== src/Sync/Grown.antt =====
-- The steps of `record_drift` in src/remote_sandbox/_engine_audit.py keep what has been found.
use remote_sandbox_cli.Base.{
  ◌≡◌, refl, Bool, true, false, not, ◌&&◌, ◌||◌, Option, List, [], ◌∷◌, ◌++◌, ◌==◌, Text, text_eq,
  contains, arith, eq_refl, Bool-cases, inl, inr,
}
use remote_sandbox_cli.Base.Sets.{add}
use remote_sandbox_cli.Manifest.{kind_eq}
use remote_sandbox_cli.State.Tables.{AuditSignature}
use remote_sandbox_cli.Sync.Drift.{
  Drift, option_signature_eq, dirty_if, update_local_if, update_remote_if, compare_local_if,
  compare_remote_if,
}

pub contains-append :
    (xs ys : List Text) (p : Text) → contains (xs ++ ys) p ≡ (contains xs p || contains ys p)
contains-append [] ys p = refl
contains-append (x ∷ xs) ys p = rw (contains-append xs ys p) (ground arith)

pub add-keeps : (s : List Text) (a p : Text) → contains s p ≡ true → contains (add a s) p ≡ true
add-keeps s a p h = elim (Bool-cases (contains s a)) [
  | inl k ↦ rw (k, h) refl
  | inr k ↦ rw (k, contains-append s (a ∷ []) p, h) refl
]

pub add-holds : (s : List Text) (a : Text) → contains (add a s) a ≡ true
add-holds s a = elim (Bool-cases (contains s a)) [
  | inl k ↦ rw (k, k) refl
  | inr k ↦ rw (k, contains-append s (a ∷ []) a, k, eq_refl {A = Text} a) refl
]

pub append-keeps :
    (s : List Text) (a p : Text) → contains s p ≡ true → contains (s ++ (a ∷ [])) p ≡ true
append-keeps s a p h = rw (contains-append s (a ∷ []) p, h) refl

pub append-holds : (s : List Text) (a : Text) → contains (s ++ (a ∷ [])) a ≡ true
append-holds s a = rw (contains-append s (a ∷ []) a, eq_refl {A = Text} a) (ground arith)

-- What one set of findings holds, the next one holds too.
abbrev pub More : Drift → Drift → Type 0
More d d' =
    (p : Text)
    → (contains d.dirty p ≡ true → contains d'.dirty p ≡ true)
      × (contains d.ambiguous_local p ≡ true → contains d'.ambiguous_local p ≡ true)
      × (contains d.ambiguous_remote p ≡ true → contains d'.ambiguous_remote p ≡ true)

pub chained : (a b c : Drift) → More a b → More b c → More a c
chained a b c f g p =
    let (f₀, f₁, f₂) = f p in
    let (g₀, g₁, g₂) = g p in ((λ h. g₀ (f₀ h)), (λ h. g₁ (f₁ h)), (λ h. g₂ (f₂ h)))

pub dirty_if-More : (b : Bool) (path : Text) (d : Drift) → More d (dirty_if b path d)
dirty_if-More false path d p = ((λ h. h), (λ h. h), (λ h. h))
dirty_if-More true path d p = ((λ h. add-keeps d.dirty path p h), (λ h. h), (λ h. h))

pub update_local_if-More :
    (b : Bool) (path : Text) (s : Option AuditSignature) (d : Drift)
    → More d (update_local_if b path s d)
update_local_if-More false path s d p = ((λ h. h), (λ h. h), (λ h. h))
update_local_if-More true path s d p = ((λ h. h), (λ h. h), (λ h. h))

pub update_remote_if-More :
    (b : Bool) (path : Text) (s : Option AuditSignature) (d : Drift)
    → More d (update_remote_if b path s d)
update_remote_if-More false path s d p = ((λ h. h), (λ h. h), (λ h. h))
update_remote_if-More true path s d p = ((λ h. h), (λ h. h), (λ h. h))

pub compare_local_if-More :
    (b : Bool) (path : Text) (s t : Option AuditSignature) (d : Drift)
    → More d (compare_local_if b path s t d)
compare_local_if-More false path s t d p = ((λ h. h), (λ h. h), (λ h. h))
compare_local_if-More true path s t d p = elim (Bool-cases (s == t)) [
  | inl k ↦ rw k ((λ h. h), (λ h. h), (λ h. h))
  | inr k ↦ rw k ((λ h. h), (λ h. append-keeps d.ambiguous_local path p h), (λ h. h))
]

pub compare_remote_if-More :
    (b : Bool) (path : Text) (s t : Option AuditSignature) (d : Drift)
    → More d (compare_remote_if b path s t d)
compare_remote_if-More false path s t d p = ((λ h. h), (λ h. h), (λ h. h))
compare_remote_if-More true path s t d p = elim (Bool-cases (s == t)) [
  | inl k ↦ rw k ((λ h. h), (λ h. h), (λ h. h))
  | inr k ↦ rw k ((λ h. h), (λ h. h), (λ h. append-keeps d.ambiguous_remote path p h))
]

pub compare_local-holds :
    (path : Text) (s t : Option AuditSignature) (d : Drift)
    → ((s == t) || contains (compare_local_if true path s t d).ambiguous_local path) ≡ true
compare_local-holds path s t d = elim (Bool-cases (s == t)) [
  | inl k ↦ rw k refl
  | inr k ↦ rw k (append-holds d.ambiguous_local path)
]

pub compare_remote-holds :
    (path : Text) (s t : Option AuditSignature) (d : Drift)
    → ((s == t) || contains (compare_remote_if true path s t d).ambiguous_remote path) ≡ true
compare_remote-holds path s t d = elim (Bool-cases (s == t)) [
  | inl k ↦ rw k refl
  | inr k ↦ rw k (append-holds d.ambiguous_remote path)
]

-- The findings on a file, as Booleans: `l` and `m` are the ambiguous paths, `s` and `t` the comparisons.
pub file-holds :
    (dirty l m k placeholder s t : Bool)
    → (placeholder || s || l) ≡ true
    → (t || m) ≡ true
    → (dirty || ((not (k && not placeholder && not s) || l) && (not (k && not t) || m))) ≡ true
file-holds dirty l m k placeholder s t h g = ground arith

pub right : (a b : Bool) → (a || b) ≡ true → a ≡ false → b ≡ true
right a b h k = ground arith
