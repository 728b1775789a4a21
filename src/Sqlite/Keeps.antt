-- ===== src/Sqlite/Keeps.antt =====
-- Calls that leave a view of the database as it was, whether they raise or not.
use remote_sandbox_cli.Base.{◌≡◌, refl, ◌∙◌, List, [], ◌∷◌}
use remote_sandbox_cli.Base.Result.{Result, ok, err}
use remote_sandbox_cli.Sqlite.{
  Connection, Exec, execute, lift, query, pure, leave, continue, transaction, for_each, ◌>>=◌,
}

module _ {D X : Type 0} (view : D → X) where
  -- The view and the open transactions stay.
  abbrev pub Keeps : {A : Type 0} → Exec D A → Type 0
  Keeps m = (c : Connection D) → (view (m c).1.db ≡ view c.db) × ((m c).1.savepoints ≡ c.savepoints)

  pub Keeps-execute : (f : D → D) → ((d : D) → view (f d) ≡ view d) → Keeps (execute f)
  Keeps-execute f h c = (h c.db, refl)

module _ {D X A : Type 0} (view : D → X) where
  pub Keeps-pure : (a : A) → Keeps view {A = A} (pure a)
  Keeps-pure a c = (refl, refl)

  pub Keeps-lift : (r : Result A) → Keeps view {A = A} (lift r)
  Keeps-lift r c = (refl, refl)

  pub Keeps-query : (f : D → A) → Keeps view {A = A} (query f)
  Keeps-query f c = (refl, refl)

  pub Keeps-transaction : (m : Exec D A) → Keeps view m → Keeps view (transaction m)
  unfolding transaction
  Keeps-transaction m keeps c =
      let inside : Connection D = record c { savepoints = c.db ∷ c.savepoints } in
      let (same, depth) = keeps inside in go (m inside) same depth
    where
      go :
          (r : Result A × Connection D)
          → view r.1.db ≡ view c.db
          → r.1.savepoints ≡ c.db ∷ c.savepoints
          → (view (leave r.0 r.1).1.db ≡ view c.db) × ((leave r.0 r.1).1.savepoints ≡ c.savepoints)
      go (ok a, c') same depth = rw depth (same, refl)
      go (err e, c') same depth = rw depth (refl, refl)

module _ {D X A B : Type 0} (view : D → X) where
  pub Keeps-after :
      (r : Result A) (f : A → Exec D B)
      → ((a : A) → Keeps view (f a))
      → Keeps view (λ c. continue r f c)
  Keeps-after (ok a) f next c = next a c
  Keeps-after (err e) f next c = (refl, refl)

  pub Keeps-bind :
      (m : Exec D A) (f : A → Exec D B)
      → Keeps view m
      → ((a : A) → Keeps view (f a))
      → Keeps view (m >>= f)
  Keeps-bind m f first next c = let (same, depth) = first c in go (m c) same depth
    where
      go :
          (r : Result A × Connection D)
          → view r.1.db ≡ view c.db
          → r.1.savepoints ≡ c.savepoints
          → (view (continue r.0 f r.1).1.db ≡ view c.db)
            × ((continue r.0 f r.1).1.savepoints ≡ c.savepoints)
      go (ok a, c') same depth = let (same', depth') = next a c' in (same' ∙ same, depth' ∙ depth)
      go (err e, c') same depth = (same, depth)

module _ {D X A B : Type 0} (view : D → X) where
  pub Keeps-for_each :
      (xs : List A) (f : A → Exec D B) (last : B)
      → ((a : A) → Keeps view (f a))
      → Keeps view (for_each xs f last)
  Keeps-for_each [] f last keeps = λ c. (refl, refl)
  Keeps-for_each (a ∷ xs) f last keeps =
      Keeps-bind view (f a) (λ b. for_each xs f b) (keeps a) (λ b. Keeps-for_each xs f b keeps)
