-- ===== src/Paths.antt =====
-- Workspace paths: `normalize_relative_path` and `_has_control_char` of
-- src/remote_sandbox/manifest.py, the names that never travel of
-- src/remote_sandbox/remote_agent/paths.py, and the event paths that the agent's store admits,
-- `_validate_relative_path` of src/remote_sandbox/remote_agent/store.py.
-- A path is the list of its code points.
pub mod Canonical
mod Collapse
pub mod Normal
pub mod Idempotent
pub mod Agreement
use remote_sandbox_cli.Base.{
  ℕ, Bool, false, not, ◌&&◌, ◌||◌, List, [], ◌∷◌, ◌++◌, map, reverse, ltb, if◌then◌else◌, ◌==◌,
  Text, text_eq, nat_eq, contains, any, select, codes, starts_with, split, join,
}
use remote_sandbox_cli.Base.Result.{Result, ok, value_error, ◌>>◌, require}

abbrev pub slash : ℕ
slash = b'/'

abbrev pub backslash : ℕ
backslash = 92

abbrev pub dot : Text
dot = b'.' ∷ []

abbrev pub dotdot : Text
dotdot = b'.' ∷ b'.' ∷ []

abbrev pub is_control : ℕ → Bool
is_control c = ltb c 32 || c == 127

abbrev pub has_control_char : Text → Bool
has_control_char = any is_control

-- `path.replace("\\", "/")`
abbrev pub to_slash : ℕ → ℕ
to_slash c = if c == backslash then slash else c

-- `ntpath.isabs`: a leading separator of either kind, or one behind a drive letter and a colon.
unfoldable pub nt_isabs : Text → Bool
nt_isabs [] = false
nt_isabs (a ∷ []) = to_slash a == slash
nt_isabs (a ∷ b ∷ []) = to_slash a == slash
nt_isabs (a ∷ b ∷ c ∷ rest) = to_slash a == slash || (b == b':' && to_slash c == slash)

-- One round of the loop of `posixpath.normpath`. The last component is first in the list.
unfoldable pub push_component : Bool → List Text → Text → List Text
push_component rooted [] comp =
    if comp == [] || comp == dot then [] else if comp == dotdot && rooted then [] else comp ∷ []
push_component rooted (top ∷ stack) comp =
    if comp == [] || comp == dot
    then top ∷ stack
    else if not (comp == dotdot) || top == dotdot
    then comp ∷ top ∷ stack
    else stack

unfoldable pub collapse : Bool → List Text → List Text → List Text
collapse rooted stack [] = stack
collapse rooted stack (comp ∷ comps) = collapse rooted (push_component rooted stack comp) comps

-- The slashes that POSIX keeps in front: none, one, or exactly two.
unfoldable pub initial_slashes : Text → Text
initial_slashes path =
    if starts_with path (slash ∷ slash ∷ []) && not (starts_with path (slash ∷ slash ∷ slash ∷ []))
    then slash ∷ slash ∷ []
    else if starts_with path (slash ∷ [])
    then slash ∷ []
    else []

abbrev or_dot : Text → Text
or_dot [] = dot
or_dot (c ∷ cs) = c ∷ cs

-- `posixpath.normpath`
unfoldable pub normpath : Text → Text
normpath path = or_dot (
    initial_slashes path
    ++ join slash (reverse (collapse (starts_with path (slash ∷ [])) [] (split slash path))))

-- What both guards of the function reject.
abbrev pub escapes : Text → Bool
escapes path =
    starts_with path (slash ∷ []) || starts_with path (b'.' ∷ b'.' ∷ slash ∷ []) || path == dotdot

unfoldable pub normalize_relative_path : Text → Result Text
normalize_relative_path path = do
  require (not (path == [] || has_control_char path)) value_error
  require (not (nt_isabs path || escapes path)) value_error
  let normalized = normpath (map to_slash path)
  require (not (normalized == [] || normalized == dot || escapes normalized)) value_error
  ok normalized

-- Names that are never synchronised.
abbrev pub hard_ignored_names : List Text
hard_ignored_names = codes ".git" ∷ codes ".remote-sandbox" ∷ []

abbrev pub internal_prefixes : List Text
internal_prefixes =
    codes ".remote-sandbox-new-"
    ∷ codes ".remote-sandbox-old-"
    ∷ codes ".remote-sandbox-delete-"
    ∷ codes ".remote-sandbox-recovered-"
    ∷ []

unfoldable pub name_is_hard_ignored : Text → Bool
name_is_hard_ignored name =
    contains hard_ignored_names name || any (starts_with name) internal_prefixes

unfoldable pub path_parts_are_hard_ignored : List Text → Bool
unfolding name_is_hard_ignored
path_parts_are_hard_ignored parts = any name_is_hard_ignored parts

-- `PurePosixPath(value).parts` of a path that is not absolute.
abbrev pub pure_parts : Text → List Text
pure_parts value = select (λ part. not (part == [] || part == dot)) (split slash value)

-- `PurePosixPath(value).as_posix()` of a path that is not absolute.
abbrev pub as_posix : Text → Text
as_posix value = or_dot (join slash (pure_parts value))

unfoldable pub validate_relative_path : Text → Result Text
validate_relative_path value = do
  require (not (value == [] || value == dot || has_control_char value || contains value backslash))
      value_error
  require (not (starts_with value (slash ∷ []) || contains (pure_parts value) dotdot)) value_error
  require (as_posix value == value) value_error
  ok (as_posix value)
