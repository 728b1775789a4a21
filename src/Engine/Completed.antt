-- ===== src/Engine/Completed.antt =====
-- The digests that `strengthen_deletion_targets` of src/remote_sandbox/_engine_planning.py reads before
-- a file is deleted.
use remote_sandbox_cli.Base.{
  ◌≡◌, ◌≢◌, refl, sym, ◌∙◌, ap, ◌⊎◌, inl, inr, Bool, true, false, Option, some, List, [], ◌∷◌, All,
  All-map, arith, if◌then◌else◌, ◌==◌, Text, text_eq, contains, eq_refl,
}
use remote_sandbox_cli.Base.Dict.{lookup, lookup-insert, insert}
use remote_sandbox_cli.Base.Result.{Result, ok, >>=-eq-ok, ok_injective}
use remote_sandbox_cli.Manifest.{FingerprintState}
use remote_sandbox_cli.Reconcile.{SyncAction, ActionType, delete_local, delete_remote}
use remote_sandbox_cli.Reconcile.Plan.{Entries}
use remote_sandbox_cli.Engine.{
  update, rehash, paths_where, deletes_local, deletes_remote, regular_file_without_hash,
}

-- What an answer says of a path, or else what was there before; a later row replaces an earlier one.
abbrev pub answer_at : Text → Entries → Option FingerprintState → Option FingerprintState
answer_at path [] old = old
answer_at path ((p, state) ∷ fresh) old =
    answer_at path fresh (if p == path then some state else old)

lookup-update :
    (path : Text) (entries fresh : Entries)
    → lookup path (update entries fresh) ≡ answer_at path fresh (lookup path entries)
lookup-update path entries [] = refl
lookup-update path entries ((p, state) ∷ fresh) =
    lookup-update path (insert p state entries) fresh
    ∙ ap (answer_at path fresh) (lookup-insert path p state entries)

-- The hasher has been asked for the path among others, and what it answered is held at the path.
abbrev pub IsRead : (List Text → Result Entries) → Entries → Entries → Text → Type 0
IsRead hasher before after path =
    (paths : List Text) × (fresh : Entries) × (contains paths path ≡ true)
    × (hasher paths ≡ ok fresh)
    × (lookup path after ≡ answer_at path fresh (lookup path before))

rehash-IsRead :
    (hasher : List Text → Result Entries) (paths : List Text) (before after : Entries) (path : Text)
    → rehash hasher paths before ≡ ok after
    → contains paths path ≡ true
    → IsRead hasher before after path
rehash-IsRead hasher [] before after path h k = cc
rehash-IsRead hasher (p ∷ paths) before after path h k =
    let (fresh, answered, h) = >>=-eq-ok (hasher (p ∷ paths)) _ h in
    (
      p ∷ paths,
      fresh,
      k,
      answered,
      ap (lookup path) (sym (ok_injective (update before fresh) after h))
          ∙ lookup-update path before fresh,
    )

-- A path is among those selected, or its action fails the test.
abbrev Selected : (SyncAction → Bool) → List Text → SyncAction → Type 0
Selected test paths a = (test a ≡ false) ⊎ (contains paths a.path ≡ true)

module _ (test : SyncAction → Bool) where
  Selected-more :
      (b : Bool) (p : Text) (paths : List Text) (a : SyncAction)
      → Selected test paths a
      → Selected test (if b then p ∷ paths else paths) a
  Selected-more b p paths a (inl h) = inl h
  Selected-more true p paths a (inr h) = inr (ground (arith, h))
  Selected-more false p paths a (inr h) = inr h

  selects :
      (b : Bool) (paths : List Text) (a : SyncAction)
      → test a ≡ b
      → Selected test (if b then a.path ∷ paths else paths) a
  selects false paths a h = inl h
  selects true paths a h = inr (rw (eq_refl {A = Text} a.path) refl)

  paths_where-Selected :
      (actions : List SyncAction) → All (Selected test (paths_where test actions)) actions
  paths_where-Selected [] = tt
  paths_where-Selected (a ∷ actions) = (
    selects (test a) (paths_where test actions) a refl,
    All-map _ _ (Selected-more (test a) a.path (paths_where test actions)) actions
        (paths_where-Selected actions),
  )

-- The action does not delete on the side, or what it deletes is no file without a digest.
abbrev pub NeedsNone : ActionType → SyncAction → FingerprintState → Type 0
NeedsNone type a expected = (a.type ≢ type) ⊎ (regular_file_without_hash expected ≡ false)

spares_local :
    (a : SyncAction) → deletes_local a ≡ false → NeedsNone delete_local a a.expected_local
spares_local a = go a.type refl
  where
    go :
        (t : ActionType)
        → a.type ≡ t
        → deletes_local a ≡ false
        → NeedsNone delete_local a a.expected_local
    go delete_local e h = inr (rw e at h)
    go _ e h = inl (λ k. cc (e, k))

spares_remote :
    (a : SyncAction) → deletes_remote a ≡ false → NeedsNone delete_remote a a.expected_remote
spares_remote a = go a.type refl
  where
    go :
        (t : ActionType)
        → a.type ≡ t
        → deletes_remote a ≡ false
        → NeedsNone delete_remote a a.expected_remote
    go delete_remote e h = inr (rw e at h)
    go _ e h = inl (λ k. cc (e, k))

-- Each local file that the action deletes without a digest has been read again.
abbrev pub LocalRead : (List Text → Result Entries) → Entries → Entries → SyncAction → Type 0
LocalRead hasher before after a =
    NeedsNone delete_local a a.expected_local ⊎ IsRead hasher before after a.path

abbrev pub RemoteRead : (List Text → Result Entries) → Entries → Entries → SyncAction → Type 0
RemoteRead hasher before after a =
    NeedsNone delete_remote a a.expected_remote ⊎ IsRead hasher before after a.path

module _ (hasher : List Text → Result Entries) (actions : List SyncAction)
    (before after : Entries) where
  pub rehash-LocalRead :
      rehash hasher (paths_where deletes_local actions) before ≡ ok after
      → All (LocalRead hasher before after) actions
  rehash-LocalRead h =
      All-map (Selected deletes_local (paths_where deletes_local actions)) _ (λ a s. go a s) actions
        (paths_where-Selected deletes_local actions)
    where
      go :
          (a : SyncAction)
          → Selected deletes_local (paths_where deletes_local actions) a
          → LocalRead hasher before after a
      go a (inl e) = inl (spares_local a e)
      go a (inr k) = inr (rehash-IsRead hasher _ before after a.path h k)

  pub rehash-RemoteRead :
      rehash hasher (paths_where deletes_remote actions) before ≡ ok after
      → All (RemoteRead hasher before after) actions
  rehash-RemoteRead h =
      All-map (Selected deletes_remote (paths_where deletes_remote actions)) _ (λ a s. go a s)
        actions (paths_where-Selected deletes_remote actions)
    where
      go :
          (a : SyncAction)
          → Selected deletes_remote (paths_where deletes_remote actions) a
          → RemoteRead hasher before after a
      go a (inl e) = inl (spares_remote a e)
      go a (inr k) = inr (rehash-IsRead hasher _ before after a.path h k)
