-- ===== src/Reconcile/Found.antt =====
-- What `_fingerprint_at` finds at the paths of `_normalized_dirty_paths`.
use remote_sandbox_cli.Base.{
  ◌≡◌, sym, ◌∙◌, ap, subst, inl, inr, Bool, true, false, Option, none, some, List, [], ◌∷◌, arith,
  if◌then◌else◌, ◌==◌, Text, text_eq, Bool-cases, All,
}
use remote_sandbox_cli.Base.Dict.{lookup}
use remote_sandbox_cli.Base.Result.{ok, err, value_error, >>=-eq-ok, ok_injective}
use remote_sandbox_cli.Paths.{normalize_relative_path, nt_isabs}
use remote_sandbox_cli.Paths.Idempotent.{normalize_again}
use remote_sandbox_cli.Manifest.{FingerprintState, missing, missing_entry, state_path}
use remote_sandbox_cli.Reconcile.Plan.{
  Entries, found_at, fingerprint_at, text_lt, insert_sorted, normalized_dirty_paths,
}

-- The path is what normalisation makes of some text.
abbrev pub IsNormalForm : Text → Type 0
IsNormalForm path = (p : Text) × (normalize_relative_path p ≡ ok path)

normalize-stays :
    (path q : Text) → IsNormalForm path → normalize_relative_path path ≡ ok q → q ≡ path
normalize-stays path q (p, n) h = go (nt_isabs path) (sym h ∙ normalize_again p path n)
  where
    go : (b : Bool) → ok q ≡ (if b then err value_error else ok path) → q ≡ path
    go true e = cc
    go false e = ok_injective q path e

missing_entry-path :
    (path : Text) (s : FingerprintState)
    → IsNormalForm path
    → missing_entry (some path) ≡ ok s
    → state_path s ≡ some path
unfolding missing_entry
missing_entry-path path s normal h =
    let (q, n, k) = >>=-eq-ok (normalize_relative_path path) _ h in
    ap state_path (sym (ok_injective (missing (some q)) s k))
    ∙ ap some (normalize-stays path q normal n)

pub fingerprint_at-path :
    (entries : Entries) (path : Text) (s : FingerprintState)
    → IsNormalForm path
    → fingerprint_at entries path ≡ ok s
    → state_path s ≡ some path
unfolding fingerprint_at
fingerprint_at-path entries path s normal h = go (lookup path entries) h
  where
    go : (o : Option FingerprintState) → found_at path o ≡ ok s → state_path s ≡ some path
    go none h = missing_entry-path path s normal h
    go (some state) h = ground arith

insert_sorted-All {ℓ} :
    (P : Text → Type ℓ) (a : Text) (paths : List Text)
    → P a
    → All P paths
    → All P (insert_sorted a paths)
unfolding insert_sorted
insert_sorted-All P a [] h hs = (h, tt)
insert_sorted-All P a (x ∷ paths) h (hx, hs) = elim (Bool-cases (a == x)) [
  | inl same ↦ rw same (hx, hs)
  | inr other ↦ elim (Bool-cases (text_lt a x)) [
    | inl before ↦ rw (other, before) (h, (hx, hs))
    | inr behind ↦ rw (other, behind) (hx, insert_sorted-All P a paths h hs)
  ]
]

pub normalized_dirty_paths-IsNormalForm :
    (dirty paths : List Text) → normalized_dirty_paths dirty ≡ ok paths → All IsNormalForm paths
unfolding normalized_dirty_paths
normalized_dirty_paths-IsNormalForm [] paths h =
    subst (All IsNormalForm) (ok_injective [] paths h) tt
normalized_dirty_paths-IsNormalForm (p ∷ dirty) paths h =
    let (path, n, h) = >>=-eq-ok (normalize_relative_path p) _ h in
    let (rest, m, h) = >>=-eq-ok (normalized_dirty_paths dirty) _ h in
    subst (All IsNormalForm) (ok_injective (insert_sorted path rest) paths h) (
      insert_sorted-All IsNormalForm path rest (p, n)
        (normalized_dirty_paths-IsNormalForm dirty rest m))
