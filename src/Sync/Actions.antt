-- ===== src/Sync/Actions.antt =====
-- The helpers of `SyncEngine` that look at a plan: intents, and deletes that wait for a conflict.
use remote_sandbox_cli.Base.{
  ℕ, Bool, true, false, not, ◌&&◌, ◌||◌, Option, none, some, List, [], ◌∷◌, ◌++◌, map,
  if◌then◌else◌, ◌==◌, Text, text_eq, nat_eq, any, select, contains, starts_with, length, leb,
}
use remote_sandbox_cli.Base.Dict.{Dict, insert}
use remote_sandbox_cli.Base.Sets.{add}
use remote_sandbox_cli.Base.Sort.{sort}
use remote_sandbox_cli.Paths.{slash}
use remote_sandbox_cli.Replica.{Side, local, remote, side_eq}
use remote_sandbox_cli.Manifest.{
  EntryFingerprint, FingerprintState, entry, missing, dir, file, kind_eq,
}
use remote_sandbox_cli.Journal.{EventKey, event_key_eq}
use remote_sandbox_cli.Reconcile.{
  ActionType, SyncAction, SyncPlan, push, pull, delete_local, delete_remote, update_base,
  ConflictDecision,
}
use remote_sandbox_cli.Reconcile.Plan.{text_lt}
use remote_sandbox_cli.State.Tables.{ConflictRecord}
use remote_sandbox_cli.Sync.Transfer.{action_type_eq}

-- The side that an action of this type writes to.
abbrev pub written_side : ActionType → Option Side
written_side push = some remote
written_side delete_remote = some remote
written_side pull = some local
written_side delete_local = some local
written_side update_base = none

abbrev pub Intents : Type 0
Intents = Dict EventKey FingerprintState

abbrev pub add_intent : Option Side → SyncAction → Intents → Intents
add_intent none a intents = intents
add_intent (some side) a intents = insert (side, a.path) a.base_after intents

abbrev pub intents_from : List SyncAction → Intents → Intents
intents_from [] intents = intents
intents_from (a ∷ actions) intents =
    intents_from actions (add_intent (written_side a.type) a intents)

-- `_expected_echo_intents`
unfoldable pub expected_echo_intents : SyncPlan → Intents
expected_echo_intents plan = intents_from plan.actions []

-- `sorted(intents.items())`: the keys differ, so the states are never compared.
abbrev pub key_le : EventKey × FingerprintState → EventKey × FingerprintState → Bool
key_le ((local, p), _) ((remote, q), _) = true
key_le ((remote, p), _) ((local, q), _) = false
key_le ((local, p), _) ((local, q), _) = not (text_lt q p)
key_le ((remote, p), _) ((remote, q), _) = not (text_lt q p)

-- `_path_is_within`
unfoldable pub path_is_within : Text → Text → Bool
path_is_within path directory = path == directory || starts_with path (directory ++ (slash ∷ []))

abbrev pub is_directory : FingerprintState → Bool
is_directory (entry e) = e.kind == dir
is_directory (missing p) = false

-- Whether the action deletes a directory.
abbrev pub deletes_directory : SyncAction → Bool
deletes_directory a = elim a.type [
  | delete_local ↦ is_directory a.expected_local
  | delete_remote ↦ is_directory a.expected_remote
  | push ↦ false
  | pull ↦ false
  | update_base ↦ false
]

abbrev pub deferred_from : List Text → List SyncAction → List Text
deferred_from conflict_paths [] = []
deferred_from conflict_paths (a ∷ actions) =
    let rest = deferred_from conflict_paths actions in
    if deletes_directory a && any (λ path. path_is_within path a.path) conflict_paths
    then add a.path rest
    else rest

abbrev pub conflict_paths_of : SyncPlan → List ConflictRecord → List Text
conflict_paths_of plan unresolved =
    map (λ (c : ConflictDecision). c.path) plan.conflicts
    ++ map (λ (r : ConflictRecord). r.path) unresolved

-- `_conflicting_directory_deletes`, with the unresolved conflicts of the store.
unfoldable pub conflicting_directory_deletes : SyncPlan → List ConflictRecord → List Text
conflicting_directory_deletes plan unresolved =
    deferred_from (conflict_paths_of plan unresolved) plan.actions

-- The plan without the deferred deletes.
abbrev pub without_actions : List Text → SyncPlan → SyncPlan
without_actions deferred plan = record plan {
  actions = select (λ (a : SyncAction). not (contains deferred a.path)) plan.actions;
}

abbrev pub of_type : ActionType → List SyncAction → List SyncAction
of_type type = select (λ (a : SyncAction). a.type == type)

-- `sorted(…, key=lambda action: action.path)`
abbrev pub by_path : List SyncAction → List SyncAction
by_path = sort (λ (a b : SyncAction). not (text_lt b.path a.path))

abbrev pub depth : Text → ℕ
depth path = length (select (λ c. c == slash) path)

-- `sorted(…, key=lambda action: action.path.count("/"), reverse=True)`
abbrev pub deepest_first : List SyncAction → List SyncAction
deepest_first = sort (λ (a b : SyncAction). leb (depth b.path) (depth a.path))

-- `_regular_file`
abbrev pub regular_file : FingerprintState → Bool
regular_file (entry e) = e.kind == file
regular_file (missing p) = false

-- `_entry_or_none`
abbrev pub entry_or_none : FingerprintState → Option EntryFingerprint
entry_or_none (entry e) = some e
entry_or_none (missing p) = none
