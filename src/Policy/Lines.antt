-- ===== src/Policy/Lines.antt =====
-- The rule file of src/remote_sandbox/policy.py (`StaticPolicyEngine.from_lines`).
use remote_sandbox_cli.Base.{
  ℕ, Bool, true, ◌&&◌, ◌||◌, Option, none, some, List, [], ◌∷◌, ◌++◌, if◌then◌else◌, ◌==◌, Text,
  text_eq, nat_eq, codes, starts_with, contains,
}
use remote_sandbox_cli.Base.Sets.{is_empty}
use remote_sandbox_cli.Base.Result.{Result, ok, err, value_error, ◌>>=◌}
use remote_sandbox_cli.Policy.{
  PolicyDecision, sync, placeholder, ignore, PolicyRule, StaticPolicyEngine, static_policy_engine,
  is_space, strip, ends_with, drop_while,
}

-- `PolicyDecision(value)`
abbrev pub policy_decision : Text → Option PolicyDecision
policy_decision value =
    if value == codes "sync"
    then some sync
    else if value == codes "placeholder"
    then some placeholder
    else if value == codes "ignore"
    then some ignore
    else none

abbrev drop_last : Text → Text
drop_last [] = []
drop_last (c ∷ []) = []
drop_last (c ∷ d ∷ rest) = c ∷ drop_last (d ∷ rest)

abbrev drop_first : Text → Text
drop_first [] = []
drop_first (c ∷ rest) = rest

abbrev or_value_error : Option PolicyDecision → Result PolicyDecision
or_value_error none = err value_error
or_value_error (some decision) = ok decision

-- `_parse_section`
unfoldable pub parse_section : Text → Result PolicyDecision
parse_section value = or_value_error (policy_decision (strip (drop_last (drop_first value))))

-- The text up to the first space, and what follows.
abbrev cut_word : Text → Text × Text
cut_word [] = ([], [])
cut_word (c ∷ rest) =
    let (word, more) = cut_word rest in if is_space c then ([], c ∷ rest) else (c ∷ word, more)

-- `value.split(maxsplit=1)` of a text that begins with no space: the first part, and the second one
-- where there is one.
abbrev pub split_once : Text → Text × Option Text
split_once value =
    let (word, more) = cut_word value in
    let second = drop_while is_space more in (word, if is_empty second then none else some second)

abbrev pub rule_of : Option PolicyDecision → Text → PolicyDecision → Text → PolicyDecision × Text
rule_of none value section second = (section, value)
rule_of (some decision) value section second = (decision, second)

abbrev pub rule_of_parts : Text × Option Text → Text → PolicyDecision → PolicyDecision × Text
rule_of_parts (word, none) value section = (section, word)
rule_of_parts (word, some second) value section =
    rule_of (policy_decision word) value section second

-- `_parse_rule`, of a stripped line that is not empty, so there is a first part.
unfoldable pub parse_rule : Text → PolicyDecision → PolicyDecision × Text
parse_rule value section = rule_of_parts (split_once value) value section

abbrev colon : ℕ
colon = 58

abbrev before_colon : Text → Text
before_colon [] = []
before_colon (c ∷ rest) = let more = before_colon rest in if c == colon then [] else c ∷ more

-- `_is_placeholder_size_directive`
unfoldable pub is_placeholder_size_directive : Text → Bool
is_placeholder_size_directive value =
    strip (before_colon value) == codes "placeholder-size" && contains value colon

-- What one line does to the section and the rules.
abbrev pub read_rule :
    Text → PolicyDecision → List PolicyRule → Result (PolicyDecision × List PolicyRule)
read_rule line section rules =
    let (decision, pattern) = parse_rule line section in
    ok (section, rules ++ (record { decision = decision; pattern = pattern; explicit = true } ∷ []))

abbrev pub read_section : Text → List PolicyRule → Result (PolicyDecision × List PolicyRule)
read_section line rules = do section ← parse_section line; ok (section, rules)

abbrev pub read_line :
    Text → PolicyDecision → List PolicyRule → Result (PolicyDecision × List PolicyRule)
read_line line section rules =
    if is_empty line || starts_with line (codes "#")
    then ok (section, rules)
    else if starts_with line (codes "[") && ends_with line (codes "]")
    then read_section line rules
    else if is_placeholder_size_directive line
    then err value_error
    else read_rule line section rules

abbrev pub read_lines : List Text → PolicyDecision → List PolicyRule → Result (List PolicyRule)
read_lines [] section rules = ok rules
read_lines (line ∷ lines) section rules = do
  (section', rules') ← read_line (strip line) section rules
  read_lines lines section' rules'

-- `StaticPolicyEngine.from_lines`
unfoldable pub from_lines : List Text → Option ℕ → Result StaticPolicyEngine
from_lines lines threshold = do
  let engine = static_policy_engine [] [] [] threshold
  rules ← read_lines lines ignore engine.rules
  ok (record engine { rules = rules })
