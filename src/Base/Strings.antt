-- ===== src/Base/Strings.antt =====
-- Texts: literals, prefixes, `str.split` at one character and `str.join`.
use Prim.Native.Nat.{ℕ}
use Prim.Native.Char.{code}
use Prim.Native.String.{String}
use mathlib.Core.Path.{◌≡◌, refl}
use mathlib.Core.Logic.{◌≢◌, ite}
use mathlib.Core.Bool.{Bool, true, false, ◌&&◌}
use mathlib.Core.List.{List, [], ◌∷◌, ◌++◌}
use native.Mathlib.Omega.{arith}
use remote_sandbox_cli.Base.Tests.{if◌then◌else◌}
use remote_sandbox_cli.Base.Equality.{◌==◌, Text, nat_eq}
use remote_sandbox_cli.Base.Lists.{All}

-- A literal.
abbrev pub codes : String → Text
codes String.[] = []
codes (String.◌∷◌ c s) = code c ∷ codes s

-- `s.startswith(prefix)`
abbrev pub starts_with : Text → Text → Bool
starts_with s [] = true
starts_with [] (c ∷ cs) = false
starts_with (x ∷ xs) (c ∷ cs) = x == c && starts_with xs cs

abbrev pub onto_first : ℕ → List Text → List Text
onto_first x [] = (x ∷ []) ∷ []
onto_first x (w ∷ ws) = (x ∷ w) ∷ ws

-- `s.split(c)`
unfoldable pub split : ℕ → Text → List Text
split c [] = [] ∷ []
split c (x ∷ xs) = let rest = split c xs in if x == c then [] ∷ rest else onto_first x rest

-- `c.join(words)`
unfoldable pub join : ℕ → List Text → Text
join c [] = []
join c (w ∷ []) = w
join c (w ∷ v ∷ ws) = w ++ (c ∷ join c (v ∷ ws))

abbrev pub Lacks : ℕ → Text → Type 0
Lacks c = All (λ x. x ≢ c)

split-Lacks' : (c : ℕ) (w : Text) → Lacks c w → split c w ≡ w ∷ []
unfolding split
split-Lacks' c [] h = refl
split-Lacks' c (x ∷ w) (hx, h) = ground (arith, split-Lacks' c w h)

split-append : (c : ℕ) (w rest : Text) → Lacks c w → split c (w ++ (c ∷ rest)) ≡ w ∷ split c rest
unfolding split
split-append c [] rest h = ground arith
split-append c (x ∷ w) rest (hx, h) = ground (arith, split-append c w rest h)

-- Splitting undoes joining, for words that lack the separator.
pub split-join :
    (c : ℕ) (w : Text) (ws : List Text)
    → Lacks c w
    → All (Lacks c) ws
    → split c (join c (w ∷ ws)) ≡ w ∷ ws
unfolding join
split-join c w [] h hs = split-Lacks' c w h
split-join c w (v ∷ ws) h (hv, hs) =
    ground (arith, split-append c w (join c (v ∷ ws)) h, split-join c v ws hv hs)

-- A property of characters that the text has, its pieces have.
pub All-split {κ} : (P : ℕ → Type κ) (c : ℕ) (s : Text) → All P s → All (All P) (split c s)
unfolding split
All-split P c [] h = (tt, tt)
All-split P c (x ∷ s) (px, h) = go (x == c) (split c s) (All-split P c s h)
  where
    go :
        (b : Bool) (rest : List Text)
        → All (All P) rest
        → All (All P) (if b then [] ∷ rest else onto_first x rest)
    go true rest k = (tt, k)
    go false [] k = ((px, tt), tt)
    go false (w ∷ ws) (kw, k) = ((px, kw), k)

pub split-Lacks : (c : ℕ) (s : Text) → All (Lacks c) (split c s)
unfolding split
split-Lacks c [] = (tt, tt)
split-Lacks c (x ∷ s) = go (nat_eq.dec x c) (split c s) (split-Lacks c s)
  where
    go :
        (d : Dec (x ≡ c)) (rest : List Text)
        → All (Lacks c) rest
        → All (Lacks c) (if ite d true false then [] ∷ rest else onto_first x rest)
    go (yes p) rest k = (tt, k)
    go (no n) [] k = ((n, tt), tt)
    go (no n) (w ∷ ws) (kw, k) = ((n, kw), k)
