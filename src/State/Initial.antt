-- ===== src/State/Initial.antt =====
-- The status row and the bookkeeping of the initial synchronisation.
use remote_sandbox_cli.Base.{ℕ, ◌+◌, Bool, true, false, Option, none, some, ◌==◌}
use remote_sandbox_cli.Base.Result.{Result, ok, err, value_error, runtime_error, require}
use remote_sandbox_cli.Status.{WorkspaceStatus, initial_syncing, ready, phase_eq}
use remote_sandbox_cli.Sqlite.{pure, lift, query, execute, transaction, ◌>>=◌, ◌>>◌}
use remote_sandbox_cli.State.Tables.{Db, Store}

abbrev write_status : WorkspaceStatus → Store (Unit {0})
write_status status = execute (λ db. record db { workspace_status = some status })

-- `set_status`
unfoldable pub set_status : WorkspaceStatus → Store (Unit {0})
set_status status = transaction (write_status status)

abbrev or_runtime_error : Option WorkspaceStatus → Result WorkspaceStatus
or_runtime_error none = err runtime_error
or_runtime_error (some status) = ok status

unfoldable pub get_status : Store WorkspaceStatus
get_status = do row ← query (λ db. db.workspace_status); lift (or_runtime_error row)

unfoldable pub get_initial_sync_watermarks : Store (Option (ℕ × ℕ))
get_initial_sync_watermarks = query (λ db. db.initial_sync_checkpoint)

-- `INSERT … ON CONFLICT DO NOTHING`
abbrev keep_first {ℓ} : {A : Type ℓ} → Option A → A → Option A
keep_first none a = some a
keep_first (some old) a = some old

unfoldable pub set_initial_sync_watermarks : ℕ → ℕ → Store (Unit {0})
set_initial_sync_watermarks local_start remote_start = transaction (
    execute (λ db. record db {
      initial_sync_checkpoint = keep_first db.initial_sync_checkpoint (local_start, remote_start);
    }))

unfoldable pub clear_initial_sync_watermarks : Store (Unit {0})
clear_initial_sync_watermarks =
    transaction (execute (λ db. record db { initial_sync_checkpoint = none }))

abbrev or_false : Option Bool → Bool
or_false none = false
or_false (some b) = b

unfoldable pub initial_sync_completed : Store Bool
initial_sync_completed = query (λ db. or_false db.initial_sync_completed)

abbrev pub generation_of : Db → ℕ
generation_of db = elim db.initial_sync_started_generation [ none ↦ 0 | some n ↦ n ]

unfoldable pub initial_sync_started_generation : Store ℕ
initial_sync_started_generation = query generation_of

unfoldable pub publish_initial_sync_started : WorkspaceStatus → Store ℕ
unfolding initial_sync_started_generation
publish_initial_sync_started status = do
  lift (require (status.phase == initial_syncing) value_error)
  transaction (do
    previous ← initial_sync_started_generation
    write_status status
    execute (λ (db : Db). record db { initial_sync_started_generation = some (previous + 1) })
    pure (previous + 1))

abbrev write_completed : Store (Unit {0})
write_completed = execute (λ db. record db { initial_sync_completed = some true })

unfoldable pub mark_initial_sync_completed : Store (Unit {0})
mark_initial_sync_completed = transaction write_completed

-- `set_status` opens a transaction inside this one.
unfoldable pub complete_initial_sync : WorkspaceStatus → Store (Unit {0})
unfolding set_status
complete_initial_sync status = do
  lift (require (status.phase == ready) value_error)
  transaction (do
    set_status status
    write_completed
    execute (λ db. record db { initial_sync_checkpoint = none }))
