-- ===== src/Replica.antt =====
-- The two sides of a workspace: `ReplicaSide` of src/remote_sandbox/policy.py, and the side names of
-- hash requests, journal events and tables.
use remote_sandbox_cli.Base.{Eq, Bool, true, false}

pub data Side : Type 0 where
  local remote : Side

unfoldable pub Side-discrete : Discrete Side
Side-discrete = hlevel

instance abbrev pub side_eq : Eq Side
side_eq = record { dec = Side-discrete }

-- The order of the names, "local" before "remote".
abbrev pub side_le : Side → Side → Bool
side_le local s = true
side_le remote local = false
side_le remote remote = true
