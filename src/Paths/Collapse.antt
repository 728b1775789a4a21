-- ===== src/Paths/Collapse.antt =====
-- The loop of `posixpath.normpath` on a relative path, as a stack of names over a stack of `..`.
use mathlib.Core.List.{reverse-cons}
use remote_sandbox_cli.Base.{
  ◌≡◌, ◌⊎◌, inl, inr, Bool, false, List, [], ◌∷◌, ◌++◌, reverse, arith, All, Text, text_eq,
}
use remote_sandbox_cli.Paths.{dotdot, push_component, collapse}
use remote_sandbox_cli.Paths.Canonical.{IsNormal}

abbrev IsDotdot : Text → Type 0
IsDotdot c = c ≡ dotdot

abbrev pub Stacked : List Text → Type 0
Stacked [] = Unit
Stacked (c ∷ s) = (IsNormal c × Stacked s) ⊎ ((c ≡ dotdot) × All IsDotdot s)

push_component-Stacked : (s : List Text) (c : Text) → Stacked s → Stacked (push_component false s c)
unfolding push_component
push_component-Stacked [] c h = ground arith
push_component-Stacked (top ∷ s) c h = ground arith

pub collapse-Stacked : (s comps : List Text) → Stacked s → Stacked (collapse false s comps)
unfolding collapse
collapse-Stacked s [] h = h
collapse-Stacked s (c ∷ comps) h =
    collapse-Stacked (push_component false s c) comps (push_component-Stacked s c h)

push_component-All {ℓ} :
    (P : Text → Type ℓ) (b : Bool) (s : List Text) (c : Text)
    → All P s
    → P c
    → All P (push_component b s c)
unfolding push_component
push_component-All P b [] c h p = ground arith
push_component-All P b (top ∷ s) c h p = ground arith

pub collapse-All {ℓ} :
    (P : Text → Type ℓ) (b : Bool) (s comps : List Text)
    → All P s
    → All P comps
    → All P (collapse b s comps)
unfolding collapse
collapse-All P b s [] h k = h
collapse-All P b s (c ∷ comps) h (p, k) =
    collapse-All P b (push_component b s c) comps (push_component-All P b s c h p) k

-- Either no component is `..`, or the first one is.
pub Stacked-cases :
    (s : List Text) → Stacked s → All IsNormal s ⊎ ((cs : List Text) × (reverse s ≡ dotdot ∷ cs))
Stacked-cases [] h = inl tt
Stacked-cases (c ∷ s) (inl (n, h)) = elim (Stacked-cases s h) [
  | inl k ↦ inl (n, k)
  | inr (cs, e) ↦ inr (cs ++ (c ∷ []), rw (reverse-cons, e))
]
Stacked-cases (c ∷ []) (inr (e, h)) = inr ([], rw e)
Stacked-cases (c ∷ d ∷ s) (inr (e, (k, h))) = elim (Stacked-cases (d ∷ s) (inr (k, h))) [
  | inl n ↦ absurd (n.0.2 k)
  | inr (cs, r) ↦ inr (cs ++ (c ∷ []), rw (reverse-cons, r))
]
