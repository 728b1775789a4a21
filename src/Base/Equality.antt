-- ===== src/Base/Equality.antt =====
-- Python's `==` and `in`, for every type whose equality can be decided.
use Prim.Native.Nat.{ℕ}
use mathlib.Core.Path.{◌≡◌}
use mathlib.Core.Logic.{◌≢◌, ite}
use mathlib.Core.Bool.{Bool, true, false, ◌||◌}
use mathlib.Core.Option.{Option}
use mathlib.Core.List.{List, [], ◌∷◌}
use native.Mathlib.Decide.{ℕ_discrete}
use native.Mathlib.Omega.{arith}

pub record Eq {ℓ} (A : Type ℓ) : Type ℓ where
  pub dec : Discrete A

module _ {ℓ} {A : Type ℓ} ⦃e : Eq A⦄ where
  infix 50 ◌==◌
  abbrev pub ◌==◌ : A → A → Bool
  a == b = ite (e.dec a b) true false

  abbrev pub contains : List A → A → Bool
  contains [] a = false
  contains (x ∷ xs) a = a == x || contains xs a

  pub eq→path : (a b : A) → (a == b) ≡ true → a ≡ b
  eq→path a b h = ground arith

  pub eq_refl : (a : A) → (a == a) ≡ true
  eq_refl a = ground arith

  pub eq_false : (a b : A) → a ≢ b → (a == b) ≡ false
  eq_false a b h = ground arith

module _ {ℓ} {A : Type ℓ} ⦃e : Eq A⦄ where
  pub ne_of_eq_false : (a b : A) → (a == b) ≡ false → a ≢ b
  ne_of_eq_false a b h p = ground arith

  pub eq_comm : (a b : A) → (a == b) ≡ (b == a)
  eq_comm a b = ground arith

-- A text is the list of its code points.
abbrev pub Text : Type 0
Text = List ℕ

unfoldable pub Text-discrete : Discrete Text
unfolding ℕ_discrete
Text-discrete = hlevel ℕ_discrete

instance abbrev pub text_eq : Eq Text
text_eq = record { dec = Text-discrete }

instance abbrev pub nat_eq : Eq ℕ
nat_eq = record { dec = ℕ_discrete }

unfoldable pub option_text_discrete : Discrete (Option Text)
option_text_discrete = hlevel Text-discrete

instance abbrev pub option_text_eq : Eq (Option Text)
option_text_eq = record { dec = option_text_discrete }

unfoldable pub option_nat_discrete : Discrete (Option ℕ)
option_nat_discrete = hlevel ℕ_discrete

instance abbrev pub option_nat_eq : Eq (Option ℕ)
option_nat_eq = record { dec = option_nat_discrete }
