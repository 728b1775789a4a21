-- ===== src/Policy/Pattern.antt =====
-- `fnmatch.fnmatchcase` of Python's standard library, by which src/remote_sandbox/policy.py matches its rules.
use remote_sandbox_cli.Base.{
  ◌≡◌, ℕ, zero, suc, ◌+◌, Bool, true, false, not, ◌&&◌, ◌||◌, Option, none, some, List, [], ◌∷◌,
  if◌then◌else◌, ◌==◌, Text, nat_eq, any, select, length, leb,
}

abbrev asterisk : ℕ
asterisk = 42

abbrev question_mark : ℕ
question_mark = 63

abbrev opening : ℕ
opening = 91

abbrev closing : ℕ
closing = 93

abbrev bang : ℕ
bang = 33

abbrev hyphen : ℕ
hyphen = 45

-- What stands between brackets: a character, or a range of them.
pub data Item : Type 0 where
  single : ℕ → Item
  range : ℕ → ℕ → Item

pub record CharSet : Type 0 where
  pub is_negated : Bool
  pub items : List Item

pub data Token : Type 0 where
  star : Token
  one : CharSet → Token

abbrev pub item_has : ℕ → Item → Bool
item_has c (single x) = c == x
item_has c (range x y) = leb x c && leb c y

abbrev pub accepts : CharSet → ℕ → Bool
accepts set c =
    if set.is_negated then not (any (item_has c) set.items) else any (item_has c) set.items

abbrev pub literal : ℕ → Token
literal c = one (record { is_negated = false; items = single c ∷ [] })

-- `?`
abbrev pub any_char : Token
any_char = one (record { is_negated = true; items = [] })

-- A hyphen makes a range of the characters around it.
abbrev pub items_of : Text → List Item
items_of [] = []
items_of (x ∷ []) = single x ∷ []
items_of (x ∷ y ∷ []) = single x ∷ single y ∷ []
items_of (x ∷ y ∷ z ∷ rest) =
    if y == hyphen then range x z ∷ items_of rest else single x ∷ items_of (y ∷ z ∷ rest)

-- A range that ends before it begins is taken out.
abbrev pub is_live : Item → Bool
is_live (single x) = true
is_live (range x y) = leb x y

-- The set is negated by a `!` that has come to its front only when ranges were taken out, too.
abbrev pub set_of_items : List Item → CharSet
set_of_items [] = record { is_negated = false; items = [] }
set_of_items (single x ∷ rest) =
    if x == bang
    then record { is_negated = true; items = rest }
    else record { is_negated = false; items = single x ∷ rest }
set_of_items (range x y ∷ rest) =
    if x == bang
    then record { is_negated = true; items = single hyphen ∷ single y ∷ rest }
    else record { is_negated = false; items = range x y ∷ rest }

abbrev pub char_set : Text → CharSet
char_set [] = set_of_items []
char_set (x ∷ rest) =
    if x == bang
    then record { is_negated = true; items = select is_live (items_of rest) }
    else set_of_items (select is_live (items_of (x ∷ rest)))

abbrev pub onto : ℕ → Option Text → Option Text
onto c none = none
onto c (some body) = some (c ∷ body)

abbrev pub until_closing : Text → Option Text
until_closing [] = none
until_closing (c ∷ rest) =
    let more = until_closing rest in if c == closing then some [] else onto c more

-- A closing bracket at the front belongs to the set.
abbrev pub set_body : Text → Option Text
set_body [] = none
set_body (c ∷ rest) = if c == closing then onto c (until_closing rest) else until_closing (c ∷ rest)

-- The text between an opening bracket and its closing one.
abbrev pub bracket_body : Text → Option Text
bracket_body [] = none
bracket_body (c ∷ rest) = if c == bang then onto c (set_body rest) else set_body (c ∷ rest)

abbrev pub bracket_token : Option Text → Token
bracket_token none = literal opening
bracket_token (some body) = one (char_set body)

abbrev pub bracket_length : Option Text → ℕ
bracket_length none = 0
bracket_length (some body) = length body + 1

-- The tokens of a pattern, of which the first characters are skipped.
unfoldable pub tokens : ℕ → Text → List Token
tokens n [] = []
tokens (suc n) (c ∷ rest) = tokens n rest
tokens zero (c ∷ rest) =
    if c == asterisk
    then star ∷ tokens 0 rest
    else if c == question_mark
    then any_char ∷ tokens 0 rest
    else if c == opening
    then bracket_token (bracket_body rest) ∷ tokens (bracket_length (bracket_body rest)) rest
    else literal c ∷ tokens 0 rest

abbrev pub some_suffix : (Text → Bool) → Text → Bool
some_suffix test [] = test []
some_suffix test (c ∷ rest) = test (c ∷ rest) || some_suffix test rest

unfoldable pub matches_tokens : List Token → Text → Bool
matches_tokens [] [] = true
matches_tokens [] (c ∷ rest) = false
matches_tokens (star ∷ ts) name = some_suffix (λ rest. matches_tokens ts rest) name
matches_tokens (one set ∷ ts) [] = false
matches_tokens (one set ∷ ts) (c ∷ rest) = accepts set c && matches_tokens ts rest

-- `fnmatch.fnmatchcase(name, pattern)`
unfoldable pub fnmatchcase : Text → Text → Bool
fnmatchcase name pattern = matches_tokens (tokens 0 pattern) name

-- What the tokens stand for.
pub data Matches : List Token → Text → Type 0 where
  done : Matches [] []
  accepted :
      (set : CharSet) (c : ℕ) (ts : List Token) (rest : Text)
      → accepts set c ≡ true
      → Matches ts rest
      → Matches (one set ∷ ts) (c ∷ rest)
  here : (ts : List Token) (name : Text) → Matches ts name → Matches (star ∷ ts) name
  later :
      (c : ℕ) (ts : List Token) (rest : Text)
      → Matches (star ∷ ts) rest
      → Matches (star ∷ ts) (c ∷ rest)
