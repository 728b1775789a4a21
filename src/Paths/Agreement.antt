-- ===== src/Paths/Agreement.antt =====
-- The agent's `_validate_relative_path` beside the client's `normalize_relative_path`.
use remote_sandbox_cli.Base.{
  ◌≡◌, refl, sym, ◌∙◌, subst, ◌≢◌, ◌↔◌, true, false, ◌||◌, not, List, [], ◌∷◌, arith, if◌then◌else◌,
  ◌==◌, All, All-map, All-both, All-select, Text, text_eq, nat_eq, split, join, contains, select,
  starts_with, All-split, split-Lacks, none_of_four, none_of_two, ne_of_eq_false, eq_false, eq_refl,
  eq→path, Lacks,
}
use remote_sandbox_cli.Base.Result.{ok, err, value_error, require->>, ok_injective}
use remote_sandbox_cli.Paths.{
  slash, backslash, dot, dotdot, has_control_char, nt_isabs, or_dot, pure_parts, as_posix,
  normalize_relative_path, validate_relative_path,
}
use remote_sandbox_cli.Paths.Canonical.{PlainChar, IsComponent, IsCanonical}
use remote_sandbox_cli.Paths.Normal.{normalize-IsCanonical, or_dot-join}
use remote_sandbox_cli.Paths.Idempotent.{
  normalize-canonical, split-joined, joined_ne, joined_plain, joined_starts, map-to_slash_self,
  dot_pieces, nil_pieces,
}

contains-All : (xs : List Text) (a : Text) → contains xs a ≡ false → All (λ x. x ≢ a) xs
contains-All [] a h = tt
contains-All (x ∷ xs) a h = ground (arith, contains-All xs a)

safe_chars :
    (s : Text) → has_control_char s ≡ false → contains s backslash ≡ false → All PlainChar s
safe_chars [] h k = tt
safe_chars (x ∷ s) h k = ground (arith, safe_chars s)

validate_inversion :
    (v w : Text)
    → validate_relative_path v ≡ ok w
    → (v ≢ dot)
      × (has_control_char v ≡ false)
      × (contains v backslash ≡ false)
      × (contains (pure_parts v) dotdot ≡ false)
      × (as_posix v ≡ v)
      × (as_posix v ≡ w)
unfolding validate_relative_path
validate_inversion v w h =
    let (first, h₁) = require->> _ value_error _ h in
    let (second, h₂) = require->> _ value_error _ h₁ in
    let (third, h₃) = require->> _ value_error _ h₂ in
    let (_, nodot, control, back) =
      none_of_four (v == []) (v == dot) (has_control_char v) (contains v backslash) first in
    (
      ne_of_eq_false v dot nodot,
      control,
      back,
      (none_of_two (starts_with v (slash ∷ [])) (contains (pure_parts v) dotdot) second).1,
      eq→path (as_posix v) v third,
      ok_injective _ w h₃,
    )

parts-components :
    (v : Text)
    → has_control_char v ≡ false
    → contains v backslash ≡ false
    → contains (pure_parts v) dotdot ≡ false
    → All IsComponent (pure_parts v)
parts-components v control back up =
    All-map _ _ (λ c (((chars, lacks), kept), no_up). component c chars lacks kept no_up) parts
      (All-both _ _ parts
        (All-select _ (λ part. not (part == [] || part == dot)) pieces
          (All-both _ _ pieces (All-split _ slash v (safe_chars v control back))
            (split-Lacks slash v)))
        (contains-All parts dotdot up))
  where
    pieces : List Text
    pieces = split slash v

    parts : List Text
    parts = pure_parts v

    component :
        (c : Text)
        → All PlainChar c
        → Lacks slash c
        → not (c == [] || c == dot) ≡ true
        → c ≢ dotdot
        → IsComponent c
    component c chars lacks kept no_up =
        let (no_nil, no_dot) = none_of_two (c == []) (c == dot) kept in
        (
          (ne_of_eq_false c [] no_nil, ne_of_eq_false c dot no_dot, no_up),
          All-map _ _ (λ x ((b, n), s). (s, b, n)) c (All-both _ _ c chars lacks),
        )

or_dot-IsCanonical :
    (parts : List Text)
    → All IsComponent parts
    → or_dot (join slash parts) ≢ dot
    → IsCanonical (or_dot (join slash parts))
unfolding join
or_dot-IsCanonical [] h n = absurd (n refl)
or_dot-IsCanonical (c ∷ cs) h n = record {
  components = c ∷ cs;
  some_component = λ e. cc;
  all_normal = h;
  joined = or_dot-join c cs h.0.0.0;
}

-- A path that the agent admits is returned unchanged, and is canonical.
pub validate-IsCanonical : (v w : Text) → validate_relative_path v ≡ ok w → (w ≡ v) × IsCanonical v
validate-IsCanonical v w h =
    let (nodot, control, back, up, same, result) = validate_inversion v w h in
    (
      sym result ∙ same,
      subst IsCanonical same (
          or_dot-IsCanonical (pure_parts v) (parts-components v control back up)
            (λ e. nodot (sym same ∙ e))),
    )

lacks_backslash : (s : Text) → All PlainChar s → contains s backslash ≡ false
lacks_backslash [] h = refl
lacks_backslash (x ∷ s) ((b, n), h) = ground (arith, lacks_backslash s h)

keeps_normal :
    (cs : List Text)
    → All IsComponent cs
    → (select (λ part. not (part == [] || part == dot)) cs ≡ cs) × (contains cs dotdot ≡ false)
keeps_normal [] h = (refl, refl)
keeps_normal (c ∷ cs) ((n, _), h) = ground (arith, keeps_normal cs h)

validate-joined :
    (c : Text) (cs : List Text)
    → IsComponent c
    → All IsComponent cs
    → validate_relative_path (join slash (c ∷ cs)) ≡ ok (join slash (c ∷ cs))
unfolding validate_relative_path
validate-joined c cs h hs =
    let q = join slash (c ∷ cs) in
    let plain = joined_plain c cs h hs in
    let (kept, no_up) = keeps_normal (c ∷ cs) (h, hs) in
    rw (
      eq_false q [] (joined_ne c cs h hs [] nil_pieces h.0.0),
      eq_false q dot (joined_ne c cs h hs dot dot_pieces h.0.1),
      (map-to_slash_self q plain).1,
      lacks_backslash q plain,
      (joined_starts c cs h).0,
      split-joined c cs h hs,
      kept,
      no_up,
      or_dot-join c cs h.0.0,
      eq_refl q,
    )

-- The agent admits exactly the canonical paths, each unchanged.
pub validate_iff_IsCanonical : (v : Text) → (validate_relative_path v ≡ ok v) ↔ IsCanonical v
validate_iff_IsCanonical v = (
  λ h. (validate-IsCanonical v v h).1,
  λ k. go k.components k.some_component k.all_normal k.joined,
)
  where
    go :
        (comps : List Text)
        → comps ≢ []
        → All IsComponent comps
        → v ≡ join slash comps
        → validate_relative_path v ≡ ok v
    go [] n h e = absurd (n refl)
    go (c ∷ cs) n (h, hs) e = rw e (validate-joined c cs h hs)

-- The client keeps what the agent admits, unless it begins like an absolute Windows path: then the
-- client raises.
pub normalize-validate :
    (v w : Text)
    → validate_relative_path v ≡ ok w
    → (w ≡ v) × (normalize_relative_path w ≡ (if nt_isabs w then err value_error else ok w))
normalize-validate v w h =
    let (same, canonical) = validate-IsCanonical v w h in
    (same, normalize-canonical w (subst IsCanonical (sym same) canonical))

-- The agent admits whatever the client's normalisation returns.
pub validate-normalize :
    (p q : Text) → normalize_relative_path p ≡ ok q → validate_relative_path q ≡ ok q
validate-normalize p q h = (validate_iff_IsCanonical q).1 (normalize-IsCanonical p q h)
