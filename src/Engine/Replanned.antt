-- ===== src/Engine/Replanned.antt =====
-- `satisfy_hash_requests` and `strengthen_deletion_targets` beside the planner.
use remote_sandbox_cli.Base.{
  ◌≡◌, refl, sym, ◌∙◌, subst, Bool, true, false, not, ◌&&◌, List, [], ◌∷◌, All, Text,
}
use remote_sandbox_cli.Base.Result.{Result, ok, runtime_error, >>=-eq-ok, require->>, ok_injective}
use remote_sandbox_cli.Replica.{local, remote}
use remote_sandbox_cli.Reconcile.{SyncPlan, HashRequest}
use remote_sandbox_cli.Reconcile.Plan.{Entries, build_incremental_plan}
use remote_sandbox_cli.Reconcile.Whole.{JustifiedAction, build_incremental_plan-AllJustified}
use remote_sandbox_cli.Engine.Completed.{LocalRead, RemoteRead, rehash-LocalRead, rehash-RemoteRead}
use remote_sandbox_cli.Engine.{
  rehash, requested, is_empty, plan_again, satisfy_hash_requests, strengthen_deletion_targets,
  paths_where, deletes_local, deletes_remote,
}

is_empty-nil {ℓ} : {A : Type ℓ} (xs : List A) → is_empty xs ≡ true → xs ≡ []
is_empty-nil [] h = refl
is_empty-nil (x ∷ xs) h = cc

rehash_nothing :
    (hasher : List Text → Result Entries) (paths : List Text) (entries entries' : Entries)
    → rehash hasher paths entries ≡ ok entries'
    → paths ≡ []
    → entries' ≡ entries
rehash_nothing hasher [] entries entries' h e = sym (ok_injective entries entries' h)
rehash_nothing hasher (p ∷ paths) entries entries' h e = cc

module _ (is_ignored : Text → Result Bool) (local_hasher : Entries → List Text → Result Entries)
    (remote_hasher : List Text → Result Entries) where
  -- A plan that is made again, or of entries that have stayed the same.
  plan_again_fits :
      (again : Bool) (plan plan' : SyncPlan) (base l l' r r' : Entries) (dirty : List Text)
      → build_incremental_plan is_ignored base l r dirty ≡ ok plan
      → (again ≡ false → (l' ≡ l) × (r' ≡ r))
      → plan_again is_ignored local_hasher remote_hasher again plan base l' r' dirty ≡ ok plan'
      → build_incremental_plan is_ignored base l' r' dirty ≡ ok plan'
  plan_again_fits true plan plan' base l l' r r' dirty built same h = h
  plan_again_fits false plan plan' base l l' r r' dirty built same h =
      let (el, er) = same refl in rw (el, er) (built ∙ h)

  -- The outcome of either function: a plan of the entries beside it.
  abbrev pub Fits : Entries → List Text → SyncPlan × Entries × Entries → Type 0
  Fits base dirty out =
      (build_incremental_plan is_ignored base out.1 out.2 dirty ≡ ok out.0)
      × All (JustifiedAction is_ignored base out.1 out.2) out.0.actions

  fits :
      (base l r : Entries) (dirty : List Text) (plan : SyncPlan)
      → build_incremental_plan is_ignored base l r dirty ≡ ok plan
      → Fits base dirty (plan, l, r)
  fits base l r dirty plan h =
      (h, build_incremental_plan-AllJustified is_ignored base l r dirty plan h)

  -- Satisfying the hash requests of a plan, where it succeeds, returns a plan that asks for no
  -- digests, that the planner makes of the entries returned beside it, and whose actions these
  -- entries justify.
  pub satisfy_hash_requests-Fits :
      (plan : SyncPlan) (base l r : Entries) (dirty : List Text)
      (out : SyncPlan × Entries × Entries)
      → build_incremental_plan is_ignored base l r dirty ≡ ok plan
      → satisfy_hash_requests is_ignored local_hasher remote_hasher plan base l r dirty ≡ ok out
      → (out.0.hash_requests ≡ []) × Fits base dirty out
  unfolding satisfy_hash_requests
  satisfy_hash_requests-Fits plan base l r dirty (p, le, re) built h =
      let (l', hl, h₁) =
        >>=-eq-ok (rehash (local_hasher base) (requested local plan.hash_requests) l) _ h in
      let (r', hr, h₂) =
        >>=-eq-ok (rehash remote_hasher (requested remote plan.hash_requests) r) _ h₁ in
      let again = not (is_empty plan.hash_requests) in
      let (plan', hp, h₃) =
        >>=-eq-ok (plan_again is_ignored local_hasher remote_hasher again plan base l' r' dirty) _
          h₂ in
      let (none_left, h₄) = require->> (is_empty plan'.hash_requests) runtime_error _ h₃ in
      let made =
        plan_again_fits again plan plan' base l l' r r' dirty built
          (λ e. unasked plan.hash_requests l' r' e hl hr) hp in
      subst (λ o. (o.0.hash_requests ≡ []) × Fits base dirty o)
        (ok_injective (plan', l', r') (p, le, re) h₄)
        (is_empty-nil plan'.hash_requests none_left, fits base l' r' dirty plan' made)
    where
      unasked :
          (requests : List HashRequest) (l' r' : Entries)
          → not (is_empty requests) ≡ false
          → rehash (local_hasher base) (requested local requests) l ≡ ok l'
          → rehash remote_hasher (requested remote requests) r ≡ ok r'
          → (l' ≡ l) × (r' ≡ r)
      unasked [] l' r' e hl hr = (sym (ok_injective l l' hl), sym (ok_injective r r' hr))
      unasked (x ∷ xs) l' r' e hl hr = cc

  -- Completing the digests of files that a plan deletes, where it succeeds, returns a plan that the
  -- planner makes of the entries returned beside it, and whose actions these entries justify. For
  -- every action of the given plan that deletes a regular file without a digest, the hasher of that
  -- side has been asked for its path, and the entries returned hold there what it answered for the
  -- path, or what they held before where it answered nothing for it.
  pub strengthen_deletion_targets-Fits :
      (plan : SyncPlan) (base l r : Entries) (dirty : List Text)
      (out : SyncPlan × Entries × Entries)
      → build_incremental_plan is_ignored base l r dirty ≡ ok plan
      → strengthen_deletion_targets is_ignored local_hasher remote_hasher plan base l r dirty
        ≡ ok out
      → Fits base dirty out
        × All (LocalRead (local_hasher base) l out.1) plan.actions
        × All (RemoteRead remote_hasher r out.2) plan.actions
  unfolding strengthen_deletion_targets
  strengthen_deletion_targets-Fits plan base l r dirty (p, le, re) built h =
      let local_paths = paths_where deletes_local plan.actions in
      let remote_paths = paths_where deletes_remote plan.actions in
      let (l', hl, h₁) = >>=-eq-ok (rehash (local_hasher base) local_paths l) _ h in
      let (r', hr, h₂) = >>=-eq-ok (rehash remote_hasher remote_paths r) _ h₁ in
      let again = not (is_empty local_paths && is_empty remote_paths) in
      let (plan', hp, h₃) =
        >>=-eq-ok (plan_again is_ignored local_hasher remote_hasher again plan base l' r' dirty) _
          h₂ in
      let made =
        plan_again_fits again plan plan' base l l' r r' dirty built
          (λ e. untouched local_paths remote_paths l' r' e hl hr) hp in
      subst
        (λ o.
          Fits base dirty o
          × All (LocalRead (local_hasher base) l o.1) plan.actions
          × All (RemoteRead remote_hasher r o.2) plan.actions)
        (ok_injective (plan', l', r') (p, le, re) h₃)
        (
          fits base l' r' dirty plan' made,
          rehash-LocalRead (local_hasher base) plan.actions l l' hl,
          rehash-RemoteRead remote_hasher plan.actions r r' hr,
        )
    where
      untouched :
          (ls rs : List Text) (l' r' : Entries)
          → not (is_empty ls && is_empty rs) ≡ false
          → rehash (local_hasher base) ls l ≡ ok l'
          → rehash remote_hasher rs r ≡ ok r'
          → (l' ≡ l) × (r' ≡ r)
      untouched [] [] l' r' e hl hr = (sym (ok_injective l l' hl), sym (ok_injective r r' hr))
      untouched [] (x ∷ xs) l' r' e hl hr = cc
      untouched (x ∷ xs) rs l' r' e hl hr = cc
