-- ===== src/Base/Sort.antt =====
-- Python's `sorted` with a key: a stable sort, by insertion.
use mathlib.Core.Path.{◌≡◌}
use mathlib.Core.Bool.{Bool, true, false}
use mathlib.Core.Logic.{inl, inr}
use mathlib.Core.List.{List, [], ◌∷◌, Perm}
use mathlib.Core.List.Perm
use native.Mathlib.Omega.{arith}
use remote_sandbox_cli.Base.Tests.{if◌then◌else◌, Bool-cases}
use remote_sandbox_cli.Base.Lists.{All, All-map}

module _ {ℓ} {A : Type ℓ} (le : A → A → Bool) where
  unfoldable pub insort : A → List A → List A
  insort a [] = a ∷ []
  insort a (x ∷ xs) = if le a x then a ∷ x ∷ xs else x ∷ insort a xs

  unfoldable pub sort : List A → List A
  sort [] = []
  sort (x ∷ xs) = insort x (sort xs)

  -- Each element is at most each later one.
  abbrev pub IsSorted : List A → Type 0
  IsSorted [] = Unit
  IsSorted (x ∷ xs) = All (λ y. le x y ≡ true) xs × IsSorted xs

  insort-perm : (a : A) (xs : List A) → Perm (insort a xs) (a ∷ xs)
  unfolding insort
  insort-perm a [] = Perm.refl (a ∷ [])
  insort-perm a (x ∷ xs) = elim (Bool-cases (le a x)) [
    | inl h ↦ rw h (Perm.refl (a ∷ x ∷ xs))
    | inr h ↦ rw h (Perm.trans (Perm.cons x (insort-perm a xs)) (Perm.swap a x xs))
  ]

  pub sort-perm : (xs : List A) → Perm (sort xs) xs
  unfolding sort
  sort-perm [] = Perm.refl []
  sort-perm (x ∷ xs) = Perm.trans (insort-perm x (sort xs)) (Perm.cons x (sort-perm xs))

  All-insort : (P : A → Type 0) (a : A) (xs : List A) → P a → All P xs → All P (insort a xs)
  unfolding insort
  All-insort P a [] p h = (p, tt)
  All-insort P a (x ∷ xs) p h = ground (arith, All-insort P a xs p h.1)

  pub All-sort : (P : A → Type 0) (xs : List A) → All P xs → All P (sort xs)
  unfolding sort
  All-sort P [] h = tt
  All-sort P (x ∷ xs) (p, h) = All-insort P x (sort xs) p (All-sort P xs h)

  module _ (total : (a b : A) → le a b ≡ false → le b a ≡ true)
      (trans : (a b c : A) → le a b ≡ true → le b c ≡ true → le a c ≡ true) where
    insort-IsSorted : (a : A) (xs : List A) → IsSorted xs → IsSorted (insort a xs)
    unfolding insort
    insort-IsSorted a [] h = (tt, tt)
    insort-IsSorted a (x ∷ xs) (hx, h) = elim (Bool-cases (le a x)) [
      | inl k ↦ rw k ((k, All-map _ _ (λ y r. trans a x y k r) xs hx), (hx, h))
      | inr k ↦ rw k (All-insort (λ y. le x y ≡ true) a xs (total a x k) hx, insort-IsSorted a xs h)
    ]

    pub sort-IsSorted : (xs : List A) → IsSorted (sort xs)
    unfolding sort
    sort-IsSorted [] = tt
    sort-IsSorted (x ∷ xs) = insort-IsSorted x (sort xs) (sort-IsSorted xs)
