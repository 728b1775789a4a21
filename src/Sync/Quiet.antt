-- ===== src/Sync/Quiet.antt =====
-- The `try` block of `_execute_and_commit` (src/remote_sandbox/engine.py) only reads the store.
use remote_sandbox_cli.Base.{Bool-cases, inl, inr, ◌==◌, not, ◌||◌, List, [], ◌∷◌, Text}
use remote_sandbox_cli.Replica.{Side, local, remote}
use remote_sandbox_cli.Reconcile.{SyncAction, SyncPlan, update_base, ConflictDecision}
use remote_sandbox_cli.Reconcile.Plan.{Entries}
use remote_sandbox_cli.State.Tables.{Db}
use remote_sandbox_cli.State.Untouched.{list_base-Keeps}
use remote_sandbox_cli.Sync.Outside.{Outside}
use remote_sandbox_cli.Sync.Transfer.{
  TransferDirection, push_direction, pull_direction, action_type_eq,
}
use remote_sandbox_cli.Sync.Keeps.{
  Keeps, Keeps-pure, Keeps-lift, Keeps-on_world, Keeps-on_store, Keeps-set_locals, Keeps-bind,
  Keeps-for_each,
}
use remote_sandbox_cli.Sync.Mutate.{
  destination_side, destination_hashes, verify_transfer, transfer_actions, delete_on, observe_on,
  delete_actions, update_base_of, prepare_conflict, mutate, capture_matches, blob_matches,
}

module _ {W X : Type 0} (out : Outside W) (view : Db → X) where
  destination_hashes-Keeps :
      (direction : TransferDirection) (paths : List Text)
      → Keeps view (destination_hashes out direction paths)
  unfolding destination_hashes
  destination_hashes-Keeps direction [] = Keeps-pure view _
  destination_hashes-Keeps push_direction (path ∷ paths) = Keeps-on_world view _
  destination_hashes-Keeps pull_direction (path ∷ paths) =
      Keeps-bind view _ _ (Keeps-on_store view _ (list_base-Keeps view))
        (λ base. Keeps-on_world view _)

  verify_transfer-Keeps :
      (side : Side) (final : Entries) (path : Text)
      → Keeps view (verify_transfer out side final path)
  verify_transfer-Keeps side final path =
      Keeps-bind view _ _ (Keeps-lift view _)
        (λ state. Keeps-bind view _ _ (Keeps-lift view _) (λ u. Keeps-set_locals view _))

  transfer_actions-Keeps :
      (direction : TransferDirection) (actions : List SyncAction)
      → Keeps view (transfer_actions out direction actions)
  transfer_actions-Keeps direction [] = Keeps-pure view tt
  transfer_actions-Keeps direction (a ∷ actions) =
      Keeps-bind view _ _ (Keeps-set_locals view _) (λ u.
        Keeps-bind view _ _ (Keeps-lift view _) (λ batch.
          Keeps-bind view _ _ (Keeps-on_world view _) (λ outcome.
            Keeps-bind view _ _
              (Keeps-bind view _ _ (Keeps-set_locals view _) (λ u. Keeps-lift view _))
              (λ result. Keeps-bind view _ _ (Keeps-set_locals view _) (λ u.
                Keeps-bind view _ _ (destination_hashes-Keeps direction result.completed) (λ final.
                  Keeps-for_each view result.completed _
                    (verify_transfer-Keeps (destination_side direction) final)))))))

  delete_on-Keeps : (side : Side) (d : Entries) → Keeps view (delete_on out side d)
  delete_on-Keeps local d = Keeps-on_world view _
  delete_on-Keeps remote d = Keeps-on_world view _

  observe_on-Keeps : (side : Side) (paths : List Text) → Keeps view (observe_on out side paths)
  observe_on-Keeps local paths =
      Keeps-bind view _ _ (Keeps-on_store view _ (list_base-Keeps view))
        (λ base. Keeps-on_world view _)
  observe_on-Keeps remote paths = Keeps-on_world view _

  delete_actions-Keeps :
      (side : Side) (actions : List SyncAction) → Keeps view (delete_actions out side actions)
  delete_actions-Keeps side [] = Keeps-pure view tt
  delete_actions-Keeps side (a ∷ actions) = Keeps-bind view _ _ (Keeps-set_locals view _) (λ u.
      Keeps-bind view _ _ (delete_on-Keeps side _) (λ result.
        Keeps-bind view _ _ (Keeps-set_locals view _) (λ u.
          Keeps-bind view _ _ (observe_on-Keeps side result.completed) (λ observed.
            Keeps-for_each view result.completed _ (λ path.
              Keeps-bind view _ _ (Keeps-lift view _) (λ state.
                Keeps-bind view _ _ (Keeps-lift view _) (λ u. Keeps-set_locals view _)))))))

  update_base_of-Keeps : (a : SyncAction) → Keeps view (update_base_of out a)
  update_base_of-Keeps a s = elim (Bool-cases (a.type == update_base)) [
    | inl h ↦ rw h (Keeps-set_locals view _ s)
    | inr h ↦ rw h (Keeps-pure view tt s)
  ]

  prepare_conflict-Keeps : (c : ConflictDecision) → Keeps view (prepare_conflict out c)
  unfolding prepare_conflict
  prepare_conflict-Keeps c =
      Keeps-bind view _ _ (Keeps-on_world view _) (λ (local_observed, local_blob).
        Keeps-bind view _ _ (Keeps-on_world view _) (λ remote_blob.
          Keeps-bind view _ _ (Keeps-on_world view _) (λ hashes.
            Keeps-bind view _ _ (Keeps-lift view _) (λ remote_observed s.
              elim (Bool-cases (
                not (capture_matches c.local_state local_observed)
                || not (capture_matches c.remote_state remote_observed)
                || not (blob_matches out local_observed local_blob)
                || not (blob_matches out remote_observed remote_blob))) [
                  | inl h ↦ rw h (Keeps-pure view _ s)
                  | inr h ↦
                      rw h
                        (Keeps-bind view _ _ (Keeps-lift view _) (λ captured. Keeps-pure view _) s)
                ]))))

  pub mutate-Keeps : (plan : SyncPlan) → Keeps view (mutate out plan)
  unfolding mutate
  mutate-Keeps plan = Keeps-bind view _ _ (transfer_actions-Keeps push_direction _) (λ u.
      Keeps-bind view _ _ (transfer_actions-Keeps pull_direction _) (λ u.
        Keeps-bind view _ _ (delete_actions-Keeps local _) (λ u.
          Keeps-bind view _ _ (delete_actions-Keeps remote _) (λ u.
            Keeps-bind view _ _ (Keeps-for_each view plan.actions _ update_base_of-Keeps) (λ u.
              Keeps-for_each view plan.conflicts _ (λ c.
                Keeps-bind view _ _ (prepare_conflict-Keeps c)
                  (λ payload. Keeps-set_locals view _)))))))
