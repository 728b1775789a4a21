-- ===== src/Sqlite.antt =====
-- What src/remote_sandbox/state.py uses of a SQLite connection: statements on a database, and
-- transactions that nest by savepoints (`WorkspaceStore.transaction`). The length of the list of
-- savepoints is `_transaction_depth`. `BEGIN` and `SAVEPOINT` are the same snapshot of the database; that
-- one of them or `COMMIT` fails is left out. The lock is left out: every call holds it, so calls do not
-- interleave.
pub mod Keeps
use remote_sandbox_cli.Base.{◌≡◌, List, [], ◌∷◌}
use remote_sandbox_cli.Base.Result.{Error, Result, ok, err}

pub record Connection {ℓ} (D : Type ℓ) : Type ℓ where
  pub db : D
  pub savepoints : List D

-- A call that may raise; what it wrote before stays written.
abbrev pub Exec {ℓ} : Type ℓ → Type ℓ → Type ℓ
Exec D A = Connection D → Result A × Connection D

module _ {ℓ} {D : Type ℓ} where
  -- A statement that writes.
  abbrev pub execute : (D → D) → Exec D (Unit {ℓ})
  execute f c = (ok tt, record c { db = f c.db })

  -- `ROLLBACK`, and `ROLLBACK TO SAVEPOINT` with `RELEASE`.
  abbrev pub roll_back : List D → Connection D → Connection D
  roll_back [] c = c
  roll_back (d ∷ ds) c = record { db = d; savepoints = ds }

  -- `COMMIT`, and `RELEASE SAVEPOINT`.
  abbrev pub release : List D → Connection D → Connection D
  release [] c = c
  release (d ∷ ds) c = record { db = c.db; savepoints = ds }

module _ {ℓ} {D A : Type ℓ} where
  abbrev pub pure : A → Exec D A
  pure a c = (ok a, c)

  abbrev pub lift : Result A → Exec D A
  lift r c = (r, c)

  -- A `SELECT`.
  abbrev pub query : (D → A) → Exec D A
  query f c = (ok (f c.db), c)

  -- The end of the `with` block.
  abbrev pub leave : Result A → Connection D → Result A × Connection D
  leave (ok a) c = (ok a, release c.savepoints c)
  leave (err e) c = (err e, roll_back c.savepoints c)

  -- `with self.transaction(): body`
  unfoldable pub transaction : Exec D A → Exec D A
  transaction body c =
      let (r, c') = body (record c { savepoints = c.db ∷ c.savepoints }) in leave r c'

module _ {ℓ} {D A B : Type ℓ} where
  abbrev pub continue : Result A → (A → Exec D B) → Exec D B
  continue (ok a) f c = f a c
  continue (err e) f c = (err e, c)

  infixl 5 ◌>>=◌ ◌>>◌
  abbrev pub ◌>>=◌ : Exec D A → (A → Exec D B) → Exec D B
  ◌>>=◌ m f c = let (r, c') = m c in continue r f c'

  abbrev pub ◌>>◌ : Exec D A → Exec D B → Exec D B
  m >> n = m >>= λ _. n

module _ {ℓ} {D A B : Type ℓ} where
  -- `executemany`, and a `for` loop of statements.
  abbrev pub for_each : List A → (A → Exec D B) → B → Exec D B
  for_each [] f last = λ c. (ok last, c)
  for_each (a ∷ rest) f last = f a >>= λ b. for_each rest f b
