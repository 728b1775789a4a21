-- ===== src/State/Completed.antt =====
-- The initial synchronisation from its publication to its completion, as the readers see it.
use remote_sandbox_cli.Base.{
  ℕ, ◌+◌, ◌≡◌, Bool, true, Option, none, if◌then◌else◌, ◌==◌, Bool-cases, inl, inr,
}
use remote_sandbox_cli.Base.Result.{Result, ok, err, value_error}
use remote_sandbox_cli.Status.{WorkspaceStatus, initial_syncing, ready, phase_eq}
use remote_sandbox_cli.Sqlite.{Connection, transaction}
use remote_sandbox_cli.State.Tables.{Db}
use remote_sandbox_cli.State.Initial.{
  set_status, get_status, get_initial_sync_watermarks, initial_sync_completed,
  initial_sync_started_generation, publish_initial_sync_started, complete_initial_sync,
  generation_of,
}

abbrev pub View : Type 0
View = Result WorkspaceStatus × Result (Option (ℕ × ℕ)) × Result Bool × Result ℕ

-- What a client reads about the initial synchronisation.
abbrev pub view : Connection Db → View
view c = (
  (get_status c).0,
  (get_initial_sync_watermarks c).0,
  (initial_sync_completed c).0,
  (initial_sync_started_generation c).0,
)

-- The outcome of a call, and what is read after it.
abbrev pub seen : {A : Type 0} → Result A × Connection Db → Result A × View
seen (outcome, after) = (outcome, view after)

-- `complete_initial_sync` with a ready status publishes that status, the completion and the end of
-- the checkpoint together, and keeps the generation; with any other phase it raises and what is read
-- stays the same.
pub complete_initial_sync-view :
    (status : WorkspaceStatus) (c : Connection Db)
    → seen (complete_initial_sync status c) ≡ (
        if status.phase == ready
        then (ok tt, (ok status, ok none, ok true, ok (generation_of c.db)))
        else (err value_error, view c))
unfolding complete_initial_sync set_status transaction get_status get_initial_sync_watermarks
    initial_sync_completed initial_sync_started_generation
complete_initial_sync-view status c = elim (Bool-cases (status.phase == ready)) [
  | inl h ↦ rw (h)
  | inr h ↦ rw (h)
]

-- `publish_initial_sync_started` with a syncing status returns a generation one above the last, which
-- is read from then on, together with the status, and keeps the checkpoint and the completion; with
-- any other phase it raises and what is read stays the same.
pub publish_initial_sync_started-view :
    (status : WorkspaceStatus) (c : Connection Db)
    → seen (publish_initial_sync_started status c) ≡ (
        if status.phase == initial_syncing
        then (
          ok (generation_of c.db + 1),
          (
            ok status,
            (get_initial_sync_watermarks c).0,
            (initial_sync_completed c).0,
            ok (generation_of c.db + 1),
          ),
        )
        else (err value_error, view c))
unfolding publish_initial_sync_started transaction get_status get_initial_sync_watermarks
    initial_sync_completed initial_sync_started_generation
publish_initial_sync_started-view status c = elim (Bool-cases (status.phase == initial_syncing)) [
  | inl h ↦ rw (h)
  | inr h ↦ rw (h)
]
