-- ===== src/Paths/Idempotent.antt =====
-- `normalize_relative_path` on its own results.
use mathlib.Core.List.{reverse_aux, reverse-reverse}
use remote_sandbox_cli.Base.{
  ℕ, ◌≡◌, refl, sym, ◌∙◌, ap, ◌≢◌, Bool, true, false, ◌||◌, not, List, [], ◌∷◌, map, arith,
  if◌then◌else◌, All, All-map, All-append, Text, text_eq, nat_eq, starts_with, split, join,
  split-join, Lacks, eq_false, ℕ_discrete,
}
use remote_sandbox_cli.Base.Result.{ok, err, value_error, ◌>>◌, require}
use remote_sandbox_cli.Paths.{
  slash, backslash, dot, dotdot, is_control, has_control_char, to_slash, nt_isabs, collapse,
  push_component, initial_slashes, normpath, escapes, normalize_relative_path,
}
use remote_sandbox_cli.Paths.Canonical.{PlainChar, IsNormal, IsComponent, IsCanonical}
use remote_sandbox_cli.Paths.Normal.{normalize-IsCanonical, or_dot-join}

push_normal : (stack : List Text) (c : Text) → IsNormal c → push_component false stack c ≡ c ∷ stack
unfolding push_component
push_normal [] c n = ground arith
push_normal (top ∷ stack) c n = ground arith

-- Of a canonical path the loop keeps every component.
collapse-components :
    (stack comps : List Text)
    → All IsComponent comps
    → collapse false stack comps ≡ reverse_aux comps stack
unfolding collapse
collapse-components stack [] h = refl
collapse-components stack (c ∷ cs) ((n, _), h) =
    rw (push_normal stack c n) (collapse-components (c ∷ stack) cs h)

component-Lacks-slash : (c : Text) → IsComponent c → Lacks slash c
component-Lacks-slash c h = All-map _ _ (λ x k. k.0) c h.1

module _ (c : Text) (cs : List Text) (h : IsComponent c) (hs : All IsComponent cs) where
  pub split-joined : split slash (join slash (c ∷ cs)) ≡ c ∷ cs
  split-joined =
      split-join slash c cs (component-Lacks-slash c h) (All-map _ _ component-Lacks-slash cs hs)

  pub joined_ne : (w : Text) → split slash w ≡ w ∷ [] → c ≢ w → join slash (c ∷ cs) ≢ w
  joined_ne w e n p = n (ground (arith, sym split-joined ∙ ap (split slash) p ∙ e))

All-join {κ} :
    (P : ℕ → Type κ)
    → P slash
    → (c : Text) (cs : List Text) → All P c
    → All (All P) cs
    → All P (join slash (c ∷ cs))
unfolding join
All-join P s c [] h hs = h
All-join P s c (v ∷ cs) h (hv, hs) = All-append P c _ h (s, All-join P s v cs hv hs)

pub joined_starts :
    (c : Text) (cs : List Text)
    → IsComponent c
    → (starts_with (join slash (c ∷ cs)) (slash ∷ []) ≡ false)
      × (starts_with (join slash (c ∷ cs)) (b'.' ∷ b'.' ∷ slash ∷ []) ≡ false)
unfolding join
joined_starts [] cs h = absurd (h.0.0 refl)
joined_starts (a ∷ []) [] h = ground arith
joined_starts (a ∷ []) (v ∷ cs) h = ground arith
joined_starts (a ∷ b ∷ []) [] h = ground arith
joined_starts (a ∷ b ∷ []) (v ∷ cs) h = ground arith
joined_starts (a ∷ b ∷ d ∷ c) [] h = ground arith
joined_starts (a ∷ b ∷ d ∷ c) (v ∷ cs) h = ground arith

pub map-to_slash_self :
    (s : Text) → All PlainChar s → (map to_slash s ≡ s) × (has_control_char s ≡ false)
map-to_slash_self [] h = (refl, refl)
map-to_slash_self (x ∷ s) (px, h) = ground (arith, map-to_slash_self s h)

dotdot_pieces : split slash dotdot ≡ dotdot ∷ []
unfolding split ℕ_discrete
dotdot_pieces = refl

pub dot_pieces : split slash dot ≡ dot ∷ []
unfolding split ℕ_discrete
dot_pieces = refl

pub nil_pieces : split slash [] ≡ [] ∷ []
unfolding split
nil_pieces = refl

slash_char : (slash ≢ backslash) × (is_control slash ≡ false)
unfolding ℕ_discrete
slash_char = (omega arith, refl)

no_initial : (s : Text) → starts_with s (slash ∷ []) ≡ false → initial_slashes s ≡ []
unfolding initial_slashes
no_initial [] h = refl
no_initial (a ∷ []) h = ground arith
no_initial (a ∷ b ∷ s) h = ground arith

normpath-joined :
    (c : Text) (cs : List Text)
    → IsComponent c
    → All IsComponent cs
    → normpath (join slash (c ∷ cs)) ≡ join slash (c ∷ cs)
unfolding normpath
normpath-joined c cs h hs =
    rw
      (
        (joined_starts c cs h).0,
        no_initial (join slash (c ∷ cs)) (joined_starts c cs h).0,
        split-joined c cs h hs,
        collapse-components [] (c ∷ cs) (h, hs),
        reverse-reverse (c ∷ cs),
      )
      (or_dot-join c cs h.0.0)

after_drive_test :
    (b : Bool) (q : Text)
    → (require (not (b || false)) value_error >> (require (not false) value_error >> ok q))
      ≡ (if b then err value_error else ok q)
after_drive_test true q = refl
after_drive_test false q = refl

module _ (c : Text) (cs : List Text) (h : IsComponent c) (hs : All IsComponent cs) where
  pub joined_plain : All PlainChar (join slash (c ∷ cs))
  joined_plain = All-join _ slash_char c cs (plain c h) (All-map _ _ plain cs hs)
    where
      plain : (w : Text) → IsComponent w → All PlainChar w
      plain w k = All-map _ _ (λ x p. (p.1, p.2)) w k.1

  joined-escapes : escapes (join slash (c ∷ cs)) ≡ false
  joined-escapes = rw (
    (joined_starts c cs h).0,
    (joined_starts c cs h).1,
    eq_false (join slash (c ∷ cs)) dotdot (joined_ne c cs h hs dotdot dotdot_pieces h.0.2),
  )

  normalize-joined :
      normalize_relative_path (join slash (c ∷ cs))
      ≡ (if nt_isabs (join slash (c ∷ cs)) then err value_error else ok (join slash (c ∷ cs)))
  unfolding normalize_relative_path
  normalize-joined =
      let q = join slash (c ∷ cs) in
      let (same, no_control) = map-to_slash_self q joined_plain in
      let not_nil = eq_false q [] (joined_ne c cs h hs [] nil_pieces h.0.0) in
      let not_dot = eq_false q dot (joined_ne c cs h hs dot dot_pieces h.0.1) in
      rw
        (
          not_nil,
          no_control,
          joined-escapes,
          same,
          normpath-joined c cs h hs,
          not_nil,
          not_dot,
          joined-escapes,
        )
        (after_drive_test (nt_isabs q) q)

-- The function on a canonical path.
pub normalize-canonical :
    (q : Text)
    → IsCanonical q
    → normalize_relative_path q ≡ (if nt_isabs q then err value_error else ok q)
normalize-canonical q k = go k.components k.some_component k.all_normal k.joined
  where
    go :
        (comps : List Text)
        → comps ≢ []
        → All IsComponent comps
        → q ≡ join slash comps
        → normalize_relative_path q ≡ (if nt_isabs q then err value_error else ok q)
    go [] n h e = absurd (n refl)
    go (c ∷ cs) n (h, hs) e = rw e (normalize-joined c cs h hs)

-- Normalising the result of a normalisation returns it unchanged, unless it begins like an
-- absolute Windows path, in which case the second call raises.
pub normalize_again :
    (p q : Text)
    → normalize_relative_path p ≡ ok q
    → normalize_relative_path q ≡ (if nt_isabs q then err value_error else ok q)
normalize_again p q h = normalize-canonical q (normalize-IsCanonical p q h)
