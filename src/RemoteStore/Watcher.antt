-- ===== src/RemoteStore/Watcher.antt =====
-- The watcher row of the agent's store, and its generations.
use remote_sandbox_cli.Base.{
  ℕ, Bool, true, false, not, ◌&&◌, ◌||◌, Option, none, some, [], if◌then◌else◌, ◌==◌, ltb, Text,
  text_eq, option_text_eq, codes,
}
use remote_sandbox_cli.Base.Result.{value_error, runtime_error, require}
use remote_sandbox_cli.Paths.{has_control_char}
use remote_sandbox_cli.Sqlite.{lift, query, execute, ◌>>=◌, ◌>>◌}
use remote_sandbox_cli.RemoteStore.{RemoteStore, WatcherState}

unfoldable pub watcher_state : RemoteStore WatcherState
watcher_state = query (λ db. db.watcher)

abbrev pub starting : Text
starting = codes "starting"

abbrev pub running : Text
running = codes "running"

abbrev pub is_none : Option ℕ → Bool
is_none none = true
is_none (some _) = false

-- The started time that both recording methods compute.
unfoldable pub started_at : ℕ → Text → Option ℕ → Option ℕ
started_at now status previous =
    if status == starting || (status == running && is_none previous) then some now else previous

abbrev pub is_text : Text → Bool
is_text t = not (t == [] || has_control_char t)

abbrev pub valid_pid : Option ℕ → Bool
valid_pid none = true
valid_pid (some n) = ltb 0 n

abbrev pub valid_token : Option Text → Bool
valid_token none = true
valid_token (some t) = is_text t

-- The watcher row exists from the schema on, so the upsert updates it.
unfoldable pub record_watcher :
    ℕ → Option ℕ → Text → Option Text → Option Text → Option Text → RemoteStore WatcherState
unfolding watcher_state
record_watcher now pid status backend error token = do
  lift (require (valid_pid pid) value_error)
  lift (require (is_text status) value_error)
  lift (require (valid_token token) value_error)
  execute (λ db. record db {
    watcher = record {
      pid = pid;
      status = status;
      backend = backend;
      started_at = started_at now status db.watcher.started_at;
      heartbeat_at = some now;
      error = error;
      token = token;
    };
  })
  watcher_state

-- `UPDATE watcher … WHERE singleton = 1 AND token = ?`, whose row count has to be one.
abbrev update_generation :
    ℕ → Option ℕ → Text → Option Text → Option Text → Option ℕ → Text → RemoteStore (Unit {0})
unfolding watcher_state
update_generation now pid status backend error started token = do
  found ← watcher_state
  lift (require (found.token == some token) runtime_error)
  execute (λ db. record db {
    watcher = record {
      pid = pid;
      status = status;
      backend = backend;
      started_at = started;
      heartbeat_at = some now;
      error = error;
      token = db.watcher.token;
    };
  })

-- The connection is in autocommit mode, so `with self._connection` opens no transaction.
unfoldable pub record_watcher_for_generation :
    ℕ → Option ℕ → Text → Option Text → Option Text → Text → RemoteStore WatcherState
unfolding watcher_state
record_watcher_for_generation now pid status backend error token = do
  lift (require (is_text token) value_error)
  current ← watcher_state
  lift (require (current.token == some token) runtime_error)
  update_generation now pid status backend error (started_at now status current.started_at) token
  watcher_state

unfoldable pub heartbeat : ℕ → RemoteStore (Unit {0})
heartbeat now =
    execute (λ db. record db { watcher = record db.watcher { heartbeat_at = some now } })
