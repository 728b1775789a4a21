-- ===== src/Base/Sets.antt =====
-- Python's sets as lists without repetition, in the order in which their elements were added.
use mathlib.Core.Bool.{Bool, true, false, not}
use mathlib.Core.List.{List, [], ◌∷◌, ◌++◌}
use remote_sandbox_cli.Base.Tests.{if◌then◌else◌}
use remote_sandbox_cli.Base.Equality.{Eq, contains}
use remote_sandbox_cli.Base.Lists.{select}

module _ {ℓ} {A : Type ℓ} ⦃e : Eq A⦄ where
  -- `s.add(a)`
  abbrev pub add : A → List A → List A
  add a s = if contains s a then s else s ++ (a ∷ [])

  -- `s | set(more)`, `s.update(more)`
  abbrev pub union : List A → List A → List A
  union s [] = s
  union s (a ∷ more) = union (add a s) more

  -- `s - t`
  abbrev pub minus : List A → List A → List A
  minus s t = select (λ a. not (contains t a)) s

-- `not s`
abbrev pub is_empty {ℓ} : {A : Type ℓ} → List A → Bool
is_empty [] = true
is_empty (a ∷ s) = false
