-- ===== src/Paths/Canonical.antt =====
-- What a normalised path looks like: components joined by single slashes.
use remote_sandbox_cli.Base.{ℕ, ◌≡◌, ◌≢◌, false, List, [], All, Text, join}
use remote_sandbox_cli.Paths.{slash, backslash, dot, dotdot, is_control}

-- A character that passes the guards of a whole path.
abbrev pub PlainChar : ℕ → Type 0
PlainChar x = (x ≢ backslash) × (is_control x ≡ false)

-- A character that may stand in a component.
abbrev pub PathChar : ℕ → Type 0
PathChar x = (x ≢ slash) × (x ≢ backslash) × (is_control x ≡ false)

abbrev pub IsNormal : Text → Type 0
IsNormal c = (c ≢ []) × (c ≢ dot) × (c ≢ dotdot)

abbrev pub IsComponent : Text → Type 0
IsComponent c = IsNormal c × All PathChar c

pub record IsCanonical (q : Text) : Type 0 where
  pub components : List Text
  pub some_component : components ≢ []
  pub all_normal : All IsComponent components
  pub joined : q ≡ join slash components
