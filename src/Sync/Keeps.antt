-- ===== src/Sync/Keeps.antt =====
-- Calls of the engine that leave a view of the store as it was, whether they raise or not.
use remote_sandbox_cli.Base.{◌≡◌, refl, ◌∙◌, List, [], ◌∷◌}
use remote_sandbox_cli.Base.Result.{Error, Result, ok, err}
use remote_sandbox_cli.Sqlite.Keeps as StoreKeeps
use remote_sandbox_cli.State.Tables.{Db, Store}
use remote_sandbox_cli.Sync.Machine.{
  Locals, Machine, Call, pure, lift, gets, on_store, on_world, set_locals, transaction, try_except,
  for_each, attempted, handled, close, continue, ◌>>=◌,
}

module _ {W X : Type 0} (view : Db → X) where
  -- The view and the open transactions are the same in both states.
  abbrev pub Same : Machine W → Machine W → Type 0
  Same s t = (view t.store.db ≡ view s.store.db) × (t.store.savepoints ≡ s.store.savepoints)

  abbrev pub Keeps : {A : Type 0} → Call W A → Type 0
  Keeps m = (s : Machine W) → Same s (m s).1

  -- When the call raises, the view and the open transactions are as before it.
  abbrev pub Restores : {A : Type 0} → Call W A → Type 0
  Restores m = (s : Machine W) (e : Error) → (m s).0 ≡ err e → Same s (m s).1

module _ {W X : Type 0} (A : Type 0) (view : Db → X) where
  handled-Same :
      (e : Error) (s : Machine W) (r : Result (Unit {0}) × Machine W)
      → Same view s r.1
      → Same view s (handled {A = A} e r).1
  handled-Same e s (ok u, t) same = same
  handled-Same e s (err e', t) same = same

module _ {W X A : Type 0} (view : Db → X) where
  pub Keeps-pure : (a : A) → Keeps {W = W} view (pure a)
  unfolding pure
  Keeps-pure a s = (refl, refl)

  pub Keeps-lift : (r : Result A) → Keeps {W = W} view (lift r)
  unfolding lift
  Keeps-lift r s = (refl, refl)

  pub Keeps-gets : (f : Machine W → A) → Keeps view (gets f)
  unfolding gets
  Keeps-gets f s = (refl, refl)

  pub Keeps-on_world : (f : W → Result A × W) → Keeps view (on_world f)
  unfolding on_world
  Keeps-on_world f s = (refl, refl)

  pub Keeps-on_store : (m : Store A) → StoreKeeps.Keeps view m → Keeps {W = W} view (on_store m)
  unfolding on_store
  Keeps-on_store m keeps s = keeps s.store

  pub Keeps-transaction : (m : Call W A) → Keeps view m → Keeps view (transaction m)
  unfolding transaction
  Keeps-transaction m keeps s =
      let inside = record s {
        store = record s.store { savepoints = s.store.db ∷ s.store.savepoints };
      } in
      let (same, depth) = keeps inside in go (m inside) same depth
    where
      go :
          (r : Result A × Machine W)
          → view r.1.store.db ≡ view s.store.db
          → r.1.store.savepoints ≡ s.store.db ∷ s.store.savepoints
          → Same view s (close r.0 r.1).1
      go (ok a, t) same depth = rw depth (same, refl)
      go (err e, t) same depth = rw depth (refl, refl)

  -- A transaction that raises is rolled back, when its body leaves the depth as it was.
  pub Restores-transaction : (m : Call W A) → Keeps (λ d. tt) m → Restores view (transaction m)
  unfolding transaction
  Restores-transaction m keeps s e raised =
      let inside = record s {
        store = record s.store { savepoints = s.store.db ∷ s.store.savepoints };
      } in
      go (m inside) (keeps inside).1 raised
    where
      go :
          (r : Result A × Machine W)
          → r.1.store.savepoints ≡ s.store.db ∷ s.store.savepoints
          → (close r.0 r.1).0 ≡ err e
          → Same view s (close r.0 r.1).1
      go (ok a, t) depth raised = cc
      go (err e, t) depth raised = rw depth (refl, refl)

  attempted-Same :
      (s : Machine W) (r : Result A × Machine W) (handler : Error → Call W (Unit {0}))
      → ((e : Error) → Keeps view (handler e))
      → Same view s r.1
      → Same view s (attempted r.0 r.1 handler).1
  attempted-Same s (ok a, t) handler keeps same = same
  attempted-Same s (err e, t) handler keeps (same, depth) =
      handled-Same A view e s (handler e t)
        (let (same', depth') = keeps e t in (same' ∙ same, depth' ∙ depth))

  pub Keeps-try_except :
      (m : Call W A) (handler : Error → Call W (Unit {0}))
      → Keeps view m
      → ((e : Error) → Keeps view (handler e))
      → Keeps view (try_except m handler)
  unfolding try_except
  Keeps-try_except m handler keeps keeps' s = attempted-Same s (m s) handler keeps' (keeps s)

  pub Restores-try_except :
      (m : Call W A) (handler : Error → Call W (Unit {0}))
      → Restores view m
      → ((e : Error) → Keeps view (handler e))
      → Restores view (try_except m handler)
  unfolding try_except
  Restores-try_except m handler restores keeps s e raised = go (m s) (restores s) raised
    where
      go :
          (r : Result A × Machine W)
          → ((e : Error) → r.0 ≡ err e → Same view s r.1)
          → (attempted r.0 r.1 handler).0 ≡ err e
          → Same view s (attempted r.0 r.1 handler).1
      go (ok a, t) same raised = cc
      go (err e', t) same raised = attempted-Same s (err e', t) handler keeps (same e' refl)

module _ {W X : Type 0} (view : Db → X) where
  pub Keeps-set_locals : (f : Locals → Locals) → Keeps {W = W} view (set_locals f)
  unfolding set_locals
  Keeps-set_locals f s = (refl, refl)

module _ {W X A B : Type 0} (view : Db → X) where
  pub Keeps-bind :
      (m : Call W A) (f : A → Call W B)
      → Keeps view m
      → ((a : A) → Keeps view (f a))
      → Keeps view (m >>= f)
  unfolding ◌>>=◌
  Keeps-bind m f first next s = go (m s) (first s)
    where
      go : (r : Result A × Machine W) → Same view s r.1 → Same view s (continue r.0 f r.1).1
      go (ok a, t) (same, depth) = let (same', depth') = next a t in (same' ∙ same, depth' ∙ depth)
      go (err e, t) same = same

  pub Restores-bind :
      (m : Call W A) (f : A → Call W B)
      → Keeps view m
      → ((a : A) → Restores view (f a))
      → Restores view (m >>= f)
  unfolding ◌>>=◌
  Restores-bind m f first next s e raised = go (m s) (first s) raised
    where
      go :
          (r : Result A × Machine W)
          → Same view s r.1
          → (continue r.0 f r.1).0 ≡ err e
          → Same view s (continue r.0 f r.1).1
      go (ok a, t) (same, depth) raised =
          let (same', depth') = next a t e raised in (same' ∙ same, depth' ∙ depth)
      go (err e', t) same raised = same

  pub Restores-map :
      (m : Call W A) (f : A → B) → Restores view m → Restores view (m >>= λ a. pure (f a))
  unfolding ◌>>=◌ pure
  Restores-map m f restores s e raised = go (m s) (restores s) raised
    where
      go :
          (r : Result A × Machine W)
          → ((e : Error) → r.0 ≡ err e → Same view s r.1)
          → (continue r.0 (λ a. pure (f a)) r.1).0 ≡ err e
          → Same view s (continue r.0 (λ a. pure (f a)) r.1).1
      go (ok a, t) same raised = cc
      go (err e', t) same raised = same e' refl

module _ {W X A : Type 0} (view : Db → X) where
  pub Keeps-for_each :
      (xs : List A) (f : A → Call W (Unit {0}))
      → ((a : A) → Keeps view (f a))
      → Keeps view (for_each xs f)
  unfolding for_each
  Keeps-for_each [] f keeps = Keeps-pure view tt
  Keeps-for_each (a ∷ xs) f keeps =
      Keeps-bind view (f a) (λ _. for_each xs f) (keeps a) (λ _. Keeps-for_each xs f keeps)
