-- ===== src/State/Requeued.antt =====
-- The requeued paths of src/remote_sandbox/state.py, after they have been requeued and cleared.
use remote_sandbox_cli.Base.{
  ℕ, ◌≡◌, Bool, true, false, Option, none, some, List, [], ◌∷◌, Text, text_eq, contains,
}
use remote_sandbox_cli.Base.Dict.{Dict, insert, erase}
use remote_sandbox_cli.Base.Result.{ok}
use remote_sandbox_cli.Sqlite.{Connection}
use remote_sandbox_cli.State.Tables.{Db}
use remote_sandbox_cli.State.Requeue.{list_requeued_paths}

abbrev Rows : Type 0
Rows = Dict Text (Text × ℕ)

abbrev is_held : Option (Text × ℕ) → Bool
is_held none = false
is_held (some row) = true

-- The rows once paths have been requeued, and once they have been cleared.
abbrev requeued : ℕ → Text → List Text → Rows → Rows
requeued now reason [] rows = rows
requeued now reason (p ∷ paths) rows = requeued now reason paths (insert p (reason, now) rows)

abbrev cleared : List Text → Rows → Rows
cleared [] rows = rows
cleared (p ∷ paths) rows = cleared paths (erase p rows)

abbrev with_requeued : Connection Db → Rows → Connection Db
with_requeued c rows = record c { db = record c.db { requeued_paths = rows } }

-- What the list of requeued paths says of a path, before and after a call.
abbrev pub Listed : Connection Db → Connection Db → Text → (Bool → Bool) → Type 0
Listed c c' path f =
    (before : List Text) × (after : List Text) × ((list_requeued_paths c).0 ≡ ok before)
    × ((list_requeued_paths c').0 ≡ ok after)
    × (contains after path ≡ f (contains before path))
