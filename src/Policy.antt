-- ===== src/Policy.antt =====
-- src/remote_sandbox/policy.py: which paths are synchronised, shown as placeholders or ignored. The
-- threshold for large files is a natural number.
pub mod Pattern
pub mod Decides
pub mod Rules
pub mod Plans
pub mod Lines
use remote_sandbox_cli.Base.{
  ℕ, Bool, true, false, not, ◌&&◌, ◌||◌, Option, none, some, List, [], ◌∷◌, ◌++◌, map,
  if◌then◌else◌, Eq, ◌==◌, Text, text_eq, nat_eq, codes, starts_with, split, any, ltb, leb, reverse,
}
use remote_sandbox_cli.Base.Result.{Result, ok, ◌>>=◌}
use remote_sandbox_cli.Paths.{
  slash, backslash, normalize_relative_path, path_parts_are_hard_ignored,
}
use remote_sandbox_cli.Manifest.{EntryFingerprint, EntryKind, kind_eq, file, dir, ℤ, pos, negsuc}
use remote_sandbox_cli.Replica.{Side, side_eq, remote}
use remote_sandbox_cli.Policy.Pattern.{fnmatchcase}

pub data PolicyDecision : Type 0 where
  sync placeholder ignore : PolicyDecision

unfoldable pub PolicyDecision-discrete : Discrete PolicyDecision
PolicyDecision-discrete = hlevel

instance abbrev pub decision_eq : Eq PolicyDecision
decision_eq = record { dec = PolicyDecision-discrete }

pub record PolicyRule : Type 0 where
  pub decision : PolicyDecision
  pub pattern : Text
  pub explicit : Bool

pub record StaticPolicyEngine : Type 0 where
  pub rules : List PolicyRule
  pub large_file_threshold : Option ℕ

-- `_PORTABILITY_IGNORE_PATTERNS`
abbrev pub portability_ignore_patterns : List Text
portability_ignore_patterns = map codes (
    ".venv/**" ∷ "*/.venv/**" ∷ "venv/**" ∷ "*/venv/**" ∷ "__pycache__/**" ∷ "*/__pycache__/**"
    ∷ ".pytest_cache/**" ∷ "*/.pytest_cache/**" ∷ ".mypy_cache/**" ∷ "*/.mypy_cache/**"
    ∷ ".ruff_cache/**" ∷ "*/.ruff_cache/**" ∷ ".tox/**" ∷ "*/.tox/**" ∷ ".nox/**" ∷ "*/.nox/**"
    ∷ "node_modules/**" ∷ "*/node_modules/**" ∷ ".DS_Store" ∷ "*/.DS_Store" ∷ "._*" ∷ "*/._*"
    ∷ ".Spotlight-V100" ∷ ".Trashes" ∷ ".fseventsd" ∷ "Thumbs.db" ∷ "*/Thumbs.db" ∷ "*.swp"
    ∷ "*.swo" ∷ "*~" ∷ ".#*" ∷ [])

-- `_HARD_IGNORE_PATTERNS`
abbrev pub hard_ignore_patterns : List Text
hard_ignore_patterns =
    map codes (".git/" ∷ "*/.git/" ∷ ".remote-sandbox/" ∷ "*/.remote-sandbox/" ∷ [])

abbrev rules_of : PolicyDecision → Bool → List Text → List PolicyRule
rules_of decision explicit =
    map (λ pattern. record { decision = decision; pattern = pattern; explicit = explicit })

-- `StaticPolicyEngine(…)`
unfoldable pub static_policy_engine :
    List Text → List Text → List Text → Option ℕ → StaticPolicyEngine
static_policy_engine ignore_patterns placeholder_patterns sync_patterns threshold = record {
  rules =
      rules_of ignore false portability_ignore_patterns
      ++ (rules_of ignore true ignore_patterns
          ++ (rules_of placeholder true placeholder_patterns ++ rules_of sync true sync_patterns));
  large_file_threshold = threshold;
}

-- The characters that `str.strip` takes away: `str.isspace`.
abbrev pub is_space : ℕ → Bool
is_space c =
    (leb 9 c && leb c 13)
    || (leb 28 c && leb c 32)
    || c == 133
    || c == 160
    || c == 5760
    || (leb 8192 c && leb c 8202)
    || c == 8232
    || c == 8233
    || c == 8239
    || c == 8287
    || c == 12288

abbrev pub drop_while : (ℕ → Bool) → Text → Text
drop_while test [] = []
drop_while test (c ∷ rest) = let more = drop_while test rest in if test c then more else c ∷ rest

abbrev pub drop_while_end : (ℕ → Bool) → Text → Text
drop_while_end test s = reverse (drop_while test (reverse s))

abbrev pub strip : Text → Text
strip s = drop_while_end is_space (drop_while is_space s)

-- `s.rstrip("/")`
abbrev pub strip_slashes : Text → Text
strip_slashes = drop_while_end (λ c. c == slash)

abbrev pub ends_with : Text → Text → Bool
ends_with s suffix = starts_with (reverse s) (reverse suffix)

abbrev pub drop_three : Text → Text
drop_three (a ∷ b ∷ c ∷ rest) = rest
drop_three s = []

-- The tests of `_matches` on a directory and what is in it.
abbrev pub matches_within : Text → Text → Bool
matches_within directory path =
    fnmatchcase path directory || fnmatchcase path (directory ++ codes "/*")

abbrev pub matches_pattern : Text → Text → Bool
matches_pattern pattern path =
    if ends_with pattern (codes "/")
    then matches_within (strip_slashes pattern) path
    else if ends_with pattern (codes "/**")
    then matches_within (strip_slashes (reverse (drop_three (reverse pattern)))) path
    else fnmatchcase path pattern

-- `_matches`, of a normalised path.
unfoldable pub matches_normalized : Text → Text → Bool
matches_normalized pattern path =
    matches_pattern (map (λ c. if c == backslash then slash else c) (strip pattern)) path

-- `_matches`
unfoldable pub matches : Text → Text → Result Bool
matches pattern path = do
  normalized ← normalize_relative_path path
  ok (matches_normalized pattern normalized)

abbrev pub or_else : Bool → Result Bool → Result Bool
or_else true rest = ok true
or_else false rest = rest

abbrev pub any_matches : List Text → Text → Result Bool
any_matches [] path = ok false
any_matches (pattern ∷ patterns) path = do
  matched ← matches pattern path
  or_else matched (any_matches patterns path)

abbrev pub Decided : Type 0
Decided = PolicyDecision × Bool

-- The loop over the rules.
abbrev pub apply_rules : List PolicyRule → Text → Decided → Result Decided
apply_rules [] path decided = ok decided
apply_rules (rule ∷ rules) path decided = do
  matched ← matches rule.pattern path
  apply_rules rules path (if matched then (rule.decision, rule.explicit) else decided)

abbrev pub unless_hard : Bool → StaticPolicyEngine → Text → Result Decided
unless_hard true engine path = ok (ignore, true)
unless_hard false engine path = apply_rules engine.rules path (sync, false)

abbrev pub unless_named : Bool → StaticPolicyEngine → Text → Result Decided
unless_named true engine path = ok (ignore, true)
unless_named false engine path = do
  hard ← any_matches hard_ignore_patterns path
  unless_hard hard engine path

-- `_decision_for_path`
unfoldable pub decision_for_path : StaticPolicyEngine → Text → Result Decided
decision_for_path engine path =
    unless_named (path_parts_are_hard_ignored (split slash path)) engine path

-- `is_ignored`
unfoldable pub is_ignored : StaticPolicyEngine → Text → Result Bool
is_ignored engine path = do
  normalized ← normalize_relative_path path
  decided ← decision_for_path engine normalized
  ok (decided.0 == ignore)

abbrev pub exceeds : Option ℤ → Option ℕ → Bool
exceeds (some (pos size)) (some threshold) = ltb threshold size
exceeds size threshold = false

-- What `classify` makes of a decision.
abbrev pub refine : StaticPolicyEngine → EntryFingerprint → Side → Decided → PolicyDecision
refine engine e side (decision, explicit) =
    if decision == ignore
    then ignore
    else if e.kind == dir && decision == placeholder
    then sync
    else if explicit
    then decision
    else if side == remote && e.kind == file && exceeds e.size engine.large_file_threshold
    then placeholder
    else decision

-- `classify`
unfoldable pub classify : StaticPolicyEngine → EntryFingerprint → Side → Result PolicyDecision
classify engine e side = do
  decided ← decision_for_path engine e.path
  ok (refine engine e side decided)
