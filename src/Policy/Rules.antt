-- ===== src/Policy/Rules.antt =====
-- Which rule of a `StaticPolicyEngine` (src/remote_sandbox/policy.py) decides on a path.
use remote_sandbox_cli.Base.{
  ◌≡◌, refl, ◌∙◌, ap, Bool, true, false, ◌||◌, Option, none, some, List, [], ◌∷◌, if◌then◌else◌,
  Text, split, any,
}
use remote_sandbox_cli.Base.Result.{ok}
use remote_sandbox_cli.Paths.{slash, normalize_relative_path, path_parts_are_hard_ignored}
use remote_sandbox_cli.Policy.{
  sync, ignore, PolicyRule, StaticPolicyEngine, Decided, matches_normalized, matches, any_matches,
  apply_rules, unless_hard, unless_named, or_else, hard_ignore_patterns, decision_for_path,
}

-- The last rule that matches, if any does.
abbrev pub last_match : List PolicyRule → Text → Option PolicyRule
last_match [] path = none
last_match (rule ∷ rules) path = elim (last_match rules path) [
  | some found ↦ some found
  | none ↦ if matches_normalized rule.pattern path then some rule else none
]

abbrev pub decided_by : Option PolicyRule → Decided → Decided
decided_by none decided = decided
decided_by (some rule) decided = (rule.decision, rule.explicit)

-- The paths that no rule can bring back.
abbrev pub is_hard_ignored : Text → Bool
is_hard_ignored path =
    path_parts_are_hard_ignored (split slash path)
    || any (λ pattern. matches_normalized pattern path) hard_ignore_patterns

module _ (path : Text) (normal : normalize_relative_path path ≡ ok path) where
  matches_lem : (pattern : Text) → matches pattern path ≡ ok (matches_normalized pattern path)
  unfolding matches
  matches_lem pattern = rw normal refl

  any_matches_lem :
      (patterns : List Text)
      → any_matches patterns path ≡ ok (any (λ pattern. matches_normalized pattern path) patterns)
  any_matches_lem [] = refl
  any_matches_lem (pattern ∷ patterns) =
      rw (matches_lem pattern) (go (matches_normalized pattern path) (any_matches_lem patterns))
    where
      go :
          (b : Bool)
          → any_matches patterns path
            ≡ ok (any (λ pattern. matches_normalized pattern path) patterns)
          → or_else b (any_matches patterns path)
            ≡ ok (b || any (λ pattern. matches_normalized pattern path) patterns)
      go true rest = refl
      go false rest = rest

  apply_rules_lem :
      (rules : List PolicyRule) (decided : Decided)
      → apply_rules rules path decided ≡ ok (decided_by (last_match rules path) decided)
  apply_rules_lem [] decided = refl
  apply_rules_lem (rule ∷ rules) decided = rw (matches_lem rule.pattern) (
      apply_rules_lem rules _
      ∙ ap ok (go (matches_normalized rule.pattern path) (last_match rules path)))
    where
      go :
          (b : Bool) (o : Option PolicyRule)
          → decided_by o (if b then (rule.decision, rule.explicit) else decided)
            ≡ decided_by
                (elim o [ some found ↦ some found | none ↦ if b then some rule else none ])
                decided
      go true none = refl
      go false none = refl
      go b (some found) = refl

  -- The decision on a normalised path: a path that is hard-ignored is ignored, whatever the rules;
  -- otherwise the last rule that matches decides, and a path that no rule matches is synchronised.
  pub decision_for_path_lem :
      (engine : StaticPolicyEngine)
      → decision_for_path engine path
        ≡ ok (
            if is_hard_ignored path
            then (ignore, true)
            else decided_by (last_match engine.rules path) (sync, false))
  unfolding decision_for_path
  decision_for_path_lem engine = named (path_parts_are_hard_ignored (split slash path))
    where
      hard :
          (b : Bool)
          → unless_hard b engine path
            ≡ ok (
                if b
                then (ignore, true)
                else decided_by (last_match engine.rules path) (sync, false))
      hard true = refl
      hard false = apply_rules_lem engine.rules (sync, false)

      named :
          (b : Bool)
          → unless_named b engine path
            ≡ ok (
                if b || any (λ pattern. matches_normalized pattern path) hard_ignore_patterns
                then (ignore, true)
                else decided_by (last_match engine.rules path) (sync, false))
      named true = refl
      named false = rw (any_matches_lem hard_ignore_patterns) (hard _)
