-- ===== src/Sync/Turns.antt =====
-- Calls of the engine by what they do to a view of the store when they return.
use remote_sandbox_cli.Base.{◌≡◌, refl, ◌∙◌, ap, List, [], ◌∷◌}
use remote_sandbox_cli.Base.Result.{Result, ok, err}
use remote_sandbox_cli.Sqlite.{Connection, release}
use remote_sandbox_cli.State.Tables.{Db}
use remote_sandbox_cli.Sync.Machine.{Machine, Call, transaction, close, continue, ◌>>=◌}
use remote_sandbox_cli.Sync.Keeps.{Keeps}

released : (ds : List Db) (c : Connection Db) → (release ds c).db ≡ c.db
released [] c = refl
released (d ∷ ds) c = refl

module _ {W X : Type 0} (view : Db → X) where
  -- When the call returns, the view is `g` of the view before it.
  abbrev pub Turns : {A : Type 0} → (X → X) → Call W A → Type 0
  Turns {A} g m =
      (s : Machine W) (a : A) → (m s).0 ≡ ok a → view (m s).1.store.db ≡ g (view s.store.db)

module _ {W X A : Type 0} (view : Db → X) where
  pub Turns-Keeps : (m : Call W A) → Keeps view m → Turns view (λ x. x) m
  Turns-Keeps m keeps s a h = (keeps s).0

  pub Turns-transaction : (g : X → X) (m : Call W A) → Turns view g m → Turns view g (transaction m)
  unfolding transaction
  Turns-transaction g m turns s a h =
      let inside = record s {
        store = record s.store { savepoints = s.store.db ∷ s.store.savepoints };
      } in
      go (m inside) (turns inside) h
    where
      go :
          (r : Result A × Machine W)
          → ((a : A) → r.0 ≡ ok a → view r.1.store.db ≡ g (view s.store.db))
          → (close r.0 r.1).0 ≡ ok a
          → view (close r.0 r.1).1.store.db ≡ g (view s.store.db)
      go (ok b, t) turns h = ap view (released t.store.savepoints t.store) ∙ turns b refl
      go (err e, t) turns h = cc

module _ {W X A B : Type 0} (view : Db → X) where
  pub Turns-bind :
      (g h : X → X) (m : Call W A) (f : A → Call W B)
      → Turns view g m
      → ((a : A) → Turns view h (f a))
      → Turns view (λ x. h (g x)) (m >>= f)
  unfolding ◌>>=◌
  Turns-bind g h m f first next s b returned = go (m s) (first s) returned
    where
      go :
          (r : Result A × Machine W)
          → ((a : A) → r.0 ≡ ok a → view r.1.store.db ≡ g (view s.store.db))
          → (continue r.0 f r.1).0 ≡ ok b
          → view (continue r.0 f r.1).1.store.db ≡ h (g (view s.store.db))
      go (ok a, t) turns returned = next a t b returned ∙ ap h (turns a refl)
      go (err e, t) turns returned = cc
