-- ===== src/Instances/Create/Outcome.antt =====
-- What a create leaves behind on each of its ways out.
use obs_instance_manager.Prelude.{
  ℕ, ◌<◌, String, ◌≡◌, ◌↔◌, false, Option, some, List, [], ◌∷◌, arith,
}
use obs_instance_manager.Effects.{
  Error, provision_failed, ok, err, Effect, remove_container, insert_row, delete_row, is_error,
  NewRow, World,
}
use obs_instance_manager.Instances.Services.{
  Node, PlanLimits, Services, insert_instance, update_instance, delete_instance,
}
use obs_instance_manager.Instances.Start.{require_stream_key, set_error}
use obs_instance_manager.Instances.Start.Signals.{signals, IsOk}
use obs_instance_manager.Instances.Start.Failures.{Has}
use obs_instance_manager.Instances.Create.{
  CreateInput, new_row, at_cap, require_limits, require_capacity, admit, key_or_delete, fail_create,
  create_admitted, create_instance,
}

-- With the answers of rest-api given (the live node row, the plan's limits and the number of active
-- instances), a create goes on exactly when the number is below both caps of the node, and until
-- then nothing is changed or told.
admit_capacity :
    {E : Type 0} (svc : Services E) (input : CreateInput) (w : World E) (node : Node)
    (limits : PlanLimits) (active : ℕ)
    → let env1 = (svc.refresh_node w.env).1 in
      let env2 = (svc.subscription_limits input.subscription_id env1).1 in
      (svc.refresh_node w.env).0 ≡ ok node
      → (svc.subscription_limits input.subscription_id env1).0 ≡ ok (some limits)
      → (svc.count_active env2).0 ≡ ok active
      → (((admit svc input w).0 ≡ ok (node, limits))
          ↔ ((active < node.max_instances) × (at_cap node.max_encoder_sessions active ≡ false)))
        × ((admit svc input w).1.trace ≡ w.trace)
unfolding admit require_limits require_capacity
admit_capacity svc input w node limits active p q r = rw (p, q, r) (ground arith)

-- A create that is refused before the row exists throws the reason and changes nothing.
pub refused_create :
    {E : Type 0} (svc : Services E) (instance_id user_id : String) (input : CreateInput)
    (w : World E) (e : Error)
    → (admit svc input w).0 ≡ err e
    → ((create_instance svc instance_id user_id input w).0 ≡ err e)
      × ((create_instance svc instance_id user_id input w).1.trace ≡ w.trace)
unfolding create_instance admit require_limits require_capacity
refused_create svc instance_id user_id input w e h = ground arith

key_or_delete-refused :
    {E : Type 0} (svc : Services E) (instance_id user_id : String) (w : World E) (e : Error)
    → (require_stream_key svc user_id w).0 ≡ err e
    → ((key_or_delete svc instance_id user_id w).0 ≡ err e)
      × ((key_or_delete svc instance_id user_id w).1.trace ≡ delete_row instance_id ∷ w.trace)
unfolding key_or_delete delete_instance require_stream_key
key_or_delete-refused svc instance_id user_id w e h = ground arith

insert_instance-trace :
    {E : Type 0} (svc : Services E) (row : NewRow) (token : Option String) (w : World E)
    → (insert_instance svc row token w).1.trace ≡ insert_row row token ∷ w.trace
unfolding insert_instance
insert_instance-trace svc row token w = ground arith

-- If the stream key is refused or its lookup fails after the row was inserted, the row is deleted
-- again, nothing is told and no container is touched; the caller gets the reason.
refused_key_deletes_row :
    {E : Type 0} (svc : Services E) (instance_id user_id : String) (input : CreateInput)
    (node : Node) (limits : PlanLimits) (w : World E) (e : Error)
    → IsOk
        (insert_instance svc (new_row instance_id user_id input node limits) input.node_token w).0
    → (require_stream_key svc user_id
        (insert_instance svc
          (new_row instance_id user_id input node limits)
          input.node_token
          w).1).0
      ≡ err e
    → let (r, w') = create_admitted svc instance_id user_id input (node, limits) w in
      (r ≡ err e)
      × (w'.trace
          ≡ delete_row instance_id
            ∷ insert_row (new_row instance_id user_id input node limits) input.node_token
            ∷ w.trace)
unfolding create_admitted
refused_key_deletes_row svc instance_id user_id input node limits w e inserted h =
    let row = new_row instance_id user_id input node limits in
    ground (
      arith,
      insert_instance-trace svc row input.node_token w,
      key_or_delete-refused svc instance_id user_id (insert_instance svc row input.node_token w).1 e
          h,
    )

-- The removals of containers in a trace.
abbrev pub removals : List Effect → List Effect
removals [] = []
removals (remove_container id ∷ es) = remove_container id ∷ removals es
removals (e ∷ es) = removals es

-- A create that fails once its container is created asks for the removal of that container, if
-- rest-api takes the change of the row, and tells the error, over what was told before.
failed_create_cleans_up :
    {E : Type 0} (svc : Services E) (instance_id container_id : String) (w : World E) (e : Error)
    → IsOk (svc.patch instance_id set_error w.env).0
    → let (r, w') = fail_create svc instance_id (some container_id) e w in
      (r ≡ err (provision_failed e))
      × Has (remove_container container_id) w'.trace
      × (signals w'.trace ≡ (instance_id, is_error) ∷ signals w.trace)
unfolding fail_create update_instance
failed_create_cleans_up svc instance_id container_id w e h = ground arith
