-- ===== src/Paths/Normal.antt =====
-- The results of `normalize_relative_path`.
use remote_sandbox_cli.Base.{
  ◌≡◌, refl, sym, not_eq_true, none_of, ne_of_eq_false, subst, ||_eq_false, eq_refl, ◌∙◌, ap, ◌≢◌,
  inl, inr, true, false, List, [], ◌∷◌, ◌++◌, map, reverse, arith, ◌==◌, All, All-map, All-both,
  All-reverse, Text, text_eq, nat_eq, starts_with, split, join, ℕ_discrete, All-split, split-Lacks,
  Lacks,
}
use remote_sandbox_cli.Base.Result.{ok, value_error, require->>, ok_injective}
use remote_sandbox_cli.Paths.{
  slash, dot, dotdot, is_control, has_control_char, to_slash, collapse, initial_slashes, or_dot,
  normpath, escapes, normalize_relative_path,
}
use remote_sandbox_cli.Paths.Canonical.{PlainChar, PathChar, IsComponent, IsCanonical}
use remote_sandbox_cli.Paths.Collapse.{Stacked, collapse-Stacked, collapse-All, Stacked-cases}

-- Both guards, and the value that passes the second.
pub normalize_inversion :
    (p q : Text)
    → normalize_relative_path p ≡ ok q
    → (has_control_char p ≡ false)
      × (q ≡ normpath (map to_slash p))
      × (escapes q ≡ false)
      × (q ≢ dot)
unfolding normalize_relative_path
normalize_inversion p q h =
    let (first, h₁) = require->> _ value_error _ h in
    let (second, h₂) = require->> _ value_error _ h₁ in
    let (third, h₃) = require->> _ value_error _ h₂ in
    let n = normpath (map to_slash p) in
    let e : n ≡ q = ok_injective n q h₃ in
    let (_, nodot, out) = none_of (n == []) (n == dot) (escapes n) third in
    (
      (||_eq_false (p == []) (has_control_char p) (not_eq_true _ first)).1,
      sym e,
      subst (λ x. escapes x ≡ false) e out,
      λ d. ne_of_eq_false n dot nodot (e ∙ d),
    )

map-to_slash : (p : Text) → has_control_char p ≡ false → All PlainChar (map to_slash p)
map-to_slash [] h = tt
map-to_slash (c ∷ p) h = ground (arith, map-to_slash p (||_eq_false (is_control c) _ h).1)

initial_slashes-nil :
    (s w : Text)
    → escapes (or_dot (initial_slashes s ++ w)) ≡ false
    → (starts_with s (slash ∷ []) ≡ false) × (initial_slashes s ≡ [])
unfolding initial_slashes
initial_slashes-nil [] w h = ground arith
initial_slashes-nil (a ∷ []) w h = ground arith
initial_slashes-nil (a ∷ b ∷ []) w h = ground arith
initial_slashes-nil (a ∷ b ∷ c ∷ s) w h = ground arith

pub or_dot-join :
    (c : Text) (cs : List Text) → c ≢ [] → or_dot (join slash (c ∷ cs)) ≡ join slash (c ∷ cs)
unfolding join
or_dot-join [] cs h = absurd (h refl)
or_dot-join (x ∷ c) [] h = refl
or_dot-join (x ∷ c) (v ∷ cs) h = refl

escapes-dotdot : (cs : List Text) → escapes (or_dot (join slash (dotdot ∷ cs))) ≡ true
unfolding join ℕ_discrete
escapes-dotdot [] = rw (eq_refl {A = Text} dotdot)
escapes-dotdot (c ∷ cs) = refl

-- A relative path has no slash kept in front of its components.
normpath-relative :
    (s : Text)
    → escapes (normpath s) ≡ false
    → normpath s ≡ or_dot (join slash (reverse (collapse false [] (split slash s))))
unfolding normpath
normpath-relative s h =
    let (relative, none_kept) = initial_slashes-nil s _ h in rw (relative, none_kept)

component : (c : Text) → All PlainChar c × Lacks slash c → All PathChar c
component c (h, k) = All-map _ _ (λ x ((b, n), s). (s, b, n)) c (All-both _ _ c h k)

or_dot-nil : or_dot (join slash []) ≡ dot
unfolding join
or_dot-nil = refl

IsCanonical-of_stack :
    (st : List Text)
    → Stacked st
    → All (All PathChar) st
    → escapes (or_dot (join slash (reverse st))) ≡ false
    → or_dot (join slash (reverse st)) ≢ dot
    → IsCanonical (or_dot (join slash (reverse st)))
IsCanonical-of_stack st h chars safe nodot = elim (Stacked-cases st h) [
  | inl normal ↦ go (reverse st) (All-reverse _ st (All-both _ _ st normal chars)) nodot
  | inr (cs, e) ↦ cc (escapes-dotdot cs, ap (λ w. escapes (or_dot (join slash w))) e)
]
  where
    go :
        (comps : List Text)
        → All IsComponent comps
        → or_dot (join slash comps) ≢ dot
        → IsCanonical (or_dot (join slash comps))
    go [] h n = absurd (n or_dot-nil)
    go (c ∷ cs) h n = record {
      components = c ∷ cs;
      some_component = λ e. cc;
      all_normal = h;
      joined = or_dot-join c cs h.0.0.0;
    }

-- What `normalize_relative_path` returns is canonical: one or more components joined by single
-- slashes, none of them empty, `.` or `..`, and no backslash or control character in them.
pub normalize-IsCanonical : (p q : Text) → normalize_relative_path p ≡ ok q → IsCanonical q
normalize-IsCanonical p q h =
    let (control, value, safe, nodot) = normalize_inversion p q h in
    let s = map to_slash p in
    let st = collapse false [] (split slash s) in
    let e : q ≡ or_dot (join slash (reverse st)) =
      value ∙ normpath-relative s (subst (λ x. escapes x ≡ false) value safe) in
    let pieces = split slash s in
    let chars = All-map _ _ component pieces (
      All-both _ _ pieces (All-split PlainChar slash s (map-to_slash p control))
        (split-Lacks slash s)) in
    subst IsCanonical (sym e) (
      IsCanonical-of_stack st (collapse-Stacked [] pieces tt)
        (collapse-All (All PathChar) false [] pieces tt chars)
        (subst (λ x. escapes x ≡ false) e safe) (λ d. nodot (e ∙ d)))
