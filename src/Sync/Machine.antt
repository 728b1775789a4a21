-- ===== src/Sync/Machine.antt =====
-- What one cycle of the engine works on, and the calls that it makes.
use remote_sandbox_cli.Base.{ℕ, Option, List, [], ◌∷◌, Text}
use remote_sandbox_cli.Base.Dict.{Dict}
use remote_sandbox_cli.Base.Result.{Error, Result, ok, err}
use remote_sandbox_cli.Manifest.{FingerprintState}
use remote_sandbox_cli.Journal.{EventKey}
use remote_sandbox_cli.Reconcile.{ConflictDecision}
use remote_sandbox_cli.Status.{WorkspacePhase}
use remote_sandbox_cli.Sqlite.{Connection, roll_back, release}
use remote_sandbox_cli.State.Tables.{Db, Store}

-- The local variables of `_execute_and_commit`.
pub record Locals : Type 0 where
  pub transferred : List Text
  pub completed : List Text
  pub changed : List Text
  pub base_after : Dict Text FingerprintState
  pub expected_echoes : Dict EventKey FingerprintState
  pub successful_mutations : List EventKey
  pub attempted_mutations : List EventKey
  pub known_unused : List EventKey
  pub current_attempt : List EventKey
  pub conflict_payloads : List (ConflictDecision × Option (List ℕ) × Option (List ℕ))

abbrev pub no_locals : Locals
no_locals = record {
  transferred = [];
  completed = [];
  changed = [];
  base_after = [];
  expected_echoes = [];
  successful_mutations = [];
  attempted_mutations = [];
  known_unused = [];
  current_attempt = [];
  conflict_payloads = [];
}

-- The store, all that is outside of it, and the engine's own state. `W` is the type of what is
-- outside: the two disks, the remote host, the clock.
pub record Machine (W : Type 0) : Type 0 where
  pub store : Connection Db
  pub world : W
  pub status_override : Option (WorkspacePhase × Text)
  pub locals : Locals

-- A call that may raise; what it did before stays done.
abbrev pub Call : Type 0 → Type 0 → Type 0
Call W A = Machine W → Result A × Machine W

module _ {W A : Type 0} where
  unfoldable pub pure : A → Call W A
  pure a m = (ok a, m)

  unfoldable pub lift : Result A → Call W A
  lift r m = (r, m)

  unfoldable pub gets : (Machine W → A) → Call W A
  gets f m = (ok (f m), m)

  abbrev pub with_store : Machine W → Result A × Connection Db → Result A × Machine W
  with_store m (r, c) = (r, record m { store = c })

  -- A method of the store.
  unfoldable pub on_store : Store A → Call W A
  on_store f m = with_store m (f m.store)

  abbrev pub with_world : Machine W → Result A × W → Result A × Machine W
  with_world m (r, w) = (r, record m { world = w })

  -- A call that leaves the process.
  unfoldable pub on_world : (W → Result A × W) → Call W A
  on_world f m = with_world m (f m.world)

  -- The end of the `with` block of a transaction.
  abbrev pub close : Result A → Machine W → Result A × Machine W
  close (ok a) m = (ok a, record m { store = release m.store.savepoints m.store })
  close (err e) m = (err e, record m { store = roll_back m.store.savepoints m.store })

  -- `with self.store.transaction(): body`. Only the store is rolled back.
  unfoldable pub transaction : Call W A → Call W A
  transaction body m =
      let (r, m') =
        body
          (record m { store = record m.store { savepoints = m.store.db ∷ m.store.savepoints } }) in
      close r m'

  abbrev pub handled : Error → Result (Unit {0}) × Machine W → Result A × Machine W
  handled e (ok u, m) = (err e, m)
  handled e (err e', m) = (err e', m)

  abbrev pub attempted : Result A → Machine W → (Error → Call W (Unit {0})) → Result A × Machine W
  attempted (ok a) m handler = (ok a, m)
  attempted (err e) m handler = handled e (handler e m)

  -- `try: body`, and `except BaseException as exc: handler; raise`
  unfoldable pub try_except : Call W A → (Error → Call W (Unit {0})) → Call W A
  try_except body handler m = let (r, m') = body m in attempted r m' handler

module _ {W : Type 0} where
  unfoldable pub set_locals : (Locals → Locals) → Call W (Unit {0})
  set_locals f m = (ok tt, record m { locals = f m.locals })

module _ {W A B : Type 0} where
  abbrev pub continue : Result A → (A → Call W B) → Call W B
  continue (ok a) f m = f a m
  continue (err e) f m = (err e, m)

  infixl 5 ◌>>=◌ ◌>>◌
  unfoldable pub ◌>>=◌ : Call W A → (A → Call W B) → Call W B
  ◌>>=◌ c f m = let (r, m') = c m in continue r f m'

  abbrev pub ◌>>◌ : Call W A → Call W B → Call W B
  c >> d = c >>= λ _. d

module _ {W A : Type 0} where
  -- A `for` loop.
  unfoldable pub for_each : List A → (A → Call W (Unit {0})) → Call W (Unit {0})
  for_each [] f = pure tt
  for_each (a ∷ rest) f = f a >> for_each rest f
