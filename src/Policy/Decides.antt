-- ===== src/Policy/Decides.antt =====
-- The matcher of src/remote_sandbox/policy.py against what its patterns stand for.
use remote_sandbox_cli.Base.{
  ◌≡◌, refl, sym, ◌∙◌, subst, Bool, true, false, ◌||◌, List, [], ◌∷◌, Text, arith, inl, inr, ◌⊎◌,
  &&_eq_true, codes, ◌++◌, if◌then◌else◌, reverse, contains, any, map, ◌==◌, text_eq, nat_eq,
  eq_refl, eq→path,
}
use remote_sandbox_cli.Paths.{slash, backslash}
use remote_sandbox_cli.Policy.{
  matches_normalized, matches_pattern, matches_within, ends_with, strip_slashes, drop_three, strip,
}
use remote_sandbox_cli.Policy.Pattern.{
  Token, star, one, accepts, tokens, some_suffix, matches_tokens, fnmatchcase, Matches, done,
  accepted, here, later,
}

or_cases : (a b : Bool) → (a || b) ≡ true → (a ≡ true) ⊎ (b ≡ true)
or_cases true b h = inl refl
or_cases false b h = inr h

or_right : (a b : Bool) → b ≡ true → (a || b) ≡ true
or_right a b h = ground arith

some_suffix-Matches :
    (ts : List Token) (name : Text)
    → ((rest : Text) → matches_tokens ts rest ≡ true → Matches ts rest)
    → some_suffix (λ rest. matches_tokens ts rest) name ≡ true
    → Matches (star ∷ ts) name
some_suffix-Matches ts [] sound h = here ts [] (sound [] h)
some_suffix-Matches ts (c ∷ name) sound h =
    elim (or_cases (matches_tokens ts (c ∷ name))
      (some_suffix (λ rest. matches_tokens ts rest) name) h) [
        | inl k ↦ here ts (c ∷ name) (sound (c ∷ name) k)
        | inr k ↦ later c ts name (some_suffix-Matches ts name sound k)
      ]

matches_tokens-Matches :
    (ts : List Token) (name : Text) → matches_tokens ts name ≡ true → Matches ts name
unfolding matches_tokens
matches_tokens-Matches [] [] h = done
matches_tokens-Matches [] (c ∷ name) h = cc
matches_tokens-Matches (star ∷ ts) name h =
    some_suffix-Matches ts name (matches_tokens-Matches ts) h
matches_tokens-Matches (one set ∷ ts) [] h = cc
matches_tokens-Matches (one set ∷ ts) (c ∷ name) h =
    let (first, rest) = &&_eq_true (accepts set c) (matches_tokens ts name) h in
    accepted set c ts name first (matches_tokens-Matches ts name rest)

some_suffix-all :
    (test : Text → Bool) (name : Text) → test name ≡ true → some_suffix test name ≡ true
some_suffix-all test [] h = h
some_suffix-all test (c ∷ name) h = rw h refl

Matches-matches_tokens :
    (ts : List Token) (name : Text) → Matches ts name → matches_tokens ts name ≡ true
unfolding matches_tokens
Matches-matches_tokens _ _ done = refl
Matches-matches_tokens _ _ (accepted set c ts name first rest) =
    rw (first, Matches-matches_tokens ts name rest) refl
Matches-matches_tokens _ _ (here ts name rest) =
    some_suffix-all (λ rest. matches_tokens ts rest) name (Matches-matches_tokens ts name rest)
Matches-matches_tokens _ _ (later c ts name rest) =
    or_right (matches_tokens ts (c ∷ name)) (some_suffix (λ rest. matches_tokens ts rest) name)
      (Matches-matches_tokens (star ∷ ts) name rest)

fnmatchcase-Matches :
    (pattern name : Text) → fnmatchcase name pattern ≡ true → Matches (tokens 0 pattern) name
unfolding fnmatchcase
fnmatchcase-Matches pattern name h = matches_tokens-Matches (tokens 0 pattern) name h

Matches-fnmatchcase :
    (pattern name : Text) → Matches (tokens 0 pattern) name → fnmatchcase name pattern ≡ true
unfolding fnmatchcase
Matches-fnmatchcase pattern name m = Matches-matches_tokens (tokens 0 pattern) name m

abbrev within : Text → List Text
within directory = directory ∷ (directory ++ codes "/*") ∷ []

-- The glob patterns that the pattern of a rule stands for: one that ends in `/` or in `/**` is a
-- directory and all that is in it.
abbrev pub globs : Text → List Text
globs pattern =
    if ends_with pattern (codes "/")
    then within (strip_slashes pattern)
    else if ends_with pattern (codes "/**")
    then within (strip_slashes (reverse (drop_three (reverse pattern))))
    else pattern ∷ []

-- One of the glob patterns stands for the path.
abbrev pub SomeMatches : List Text → Text → Type 0
SomeMatches patterns path = (p : Text) × (contains patterns p ≡ true) × Matches (tokens 0 p) path

any-SomeMatches :
    (path : Text) (ps : List Text) → any (λ p. fnmatchcase path p) ps ≡ true → SomeMatches ps path
any-SomeMatches path [] h = cc
any-SomeMatches path (p ∷ ps) h =
    elim (or_cases (fnmatchcase path p) (any (λ p. fnmatchcase path p) ps) h) [
      | inl k ↦ (p, rw (eq_refl {A = Text} p) refl, fnmatchcase-Matches p path k)
      | inr k ↦
          let (q, holds, m) = any-SomeMatches path ps k in
          (q, or_right (q == p) (contains ps q) holds, m)
    ]

SomeMatches-any :
    (path : Text) (ps : List Text) → SomeMatches ps path → any (λ p. fnmatchcase path p) ps ≡ true
SomeMatches-any path [] (q, holds, m) = cc
SomeMatches-any path (p ∷ ps) (q, holds, m) = elim (or_cases (q == p) (contains ps q) holds) [
  | inl same ↦
      rw (Matches-fnmatchcase p path (subst (λ x. Matches (tokens 0 x) path) (eq→path q p same) m))
        refl
  | inr k ↦ or_right (fnmatchcase path p) _ (SomeMatches-any path ps (q, k, m))
]

matches_pattern-any :
    (pattern path : Text)
    → matches_pattern pattern path ≡ any (λ p. fnmatchcase path p) (globs pattern)
matches_pattern-any pattern path =
    go (ends_with pattern (codes "/")) (ends_with pattern (codes "/**"))
  where
    or_false : (a b : Bool) → (a || b) ≡ (a || (b || false))
    or_false a b = ground arith

    go :
        (a b : Bool)
        → (if a
            then matches_within (strip_slashes pattern) path
            else if b
            then matches_within (strip_slashes (reverse (drop_three (reverse pattern)))) path
            else fnmatchcase path pattern)
          ≡ any
              (λ p. fnmatchcase path p)
              (if a
                then within (strip_slashes pattern)
                else if b
                then within (strip_slashes (reverse (drop_three (reverse pattern))))
                else pattern ∷ [])
    go true b = or_false _ _
    go false true = or_false _ _
    go false false = ground arith

-- The pattern as it is matched: stripped, with slashes for backslashes.
abbrev pub normalized_pattern : Text → Text
normalized_pattern pattern = map (λ c. if c == backslash then slash else c) (strip pattern)

-- A path matches the pattern of a rule exactly when one of the glob patterns that it stands for can be
-- laid along the path so that a star covers any text, and any other token one character that it
-- accepts.
pub matches_normalized_iff_SomeMatches :
    (pattern path : Text)
    → (matches_normalized pattern path ≡ true
        → SomeMatches (globs (normalized_pattern pattern)) path)
      × (SomeMatches (globs (normalized_pattern pattern)) path
          → matches_normalized pattern path ≡ true)
unfolding matches_normalized
matches_normalized_iff_SomeMatches pattern path = (
  (λ h.
      any-SomeMatches path (globs (normalized_pattern pattern))
        (sym (matches_pattern-any (normalized_pattern pattern) path) ∙ h)),
  (λ m.
      matches_pattern-any (normalized_pattern pattern) path
      ∙ SomeMatches-any path (globs (normalized_pattern pattern)) m),
)
