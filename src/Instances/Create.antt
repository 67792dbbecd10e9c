-- ===== src/Instances/Create.antt =====
-- src/services/instances/create-instance.ts: capacity checks, the row, the stream key, the config,
-- and the container. The new UUID is an argument.
pub mod Outcome
use obs_instance_manager.Prelude.{
  ℕ, String, Bool, true, false, Option, none, some, leb, if◌then◌else◌,
}
use Prim.Native.String
use obs_instance_manager.Effects.{
  Error, refused, provision_failed, Result, ok, err, NewRow, ContainerOptions, creating, World, M,
  is_starting, is_started, is_error, create_container, start_container, remove_container,
  pull_config, sync_plugins, inject_ws_password, inject_stream_key, pure, throw, try_catch,
  or_catch, attempt, query, perform, tell, and_then, ◌>>=◌, ◌>>◌,
}
use obs_instance_manager.Instances.Services.{
  Instance, InstanceSecrets, PlanLimits, Node, Services, insert_instance, update_instance,
  delete_instance,
}
use obs_instance_manager.Instances.Start.{usable, set_running, set_error, require_stream_key}

pub record CreateInput : Type 0 where
  pub subscription_id : String
  pub template : Option String
  pub obs_ws_password : String
  pub node_token : Option String

-- `a ?? b`
abbrev pub or_option : Option String → Option String → Option String
or_option (some a) b = some a
or_option none b = b

-- `cap !== null && n >= cap`
abbrev pub at_cap : Option ℕ → ℕ → Bool
at_cap none n = false
at_cap (some cap) n = leb cap n

pub new_row : String → String → CreateInput → Node → PlanLimits → NewRow
new_row instance_id user_id input node limits = record {
  id = instance_id;
  user_id = user_id;
  node_id = node.id;
  container_id = none;
  container_name = String.◌++◌ "obs-instance-" instance_id;
  resolution = limits.resolution;
  status = creating;
  vram_allocated_mb = limits.vram_mb;
  memory_mb = limits.memory_mb;
  cpu_quota = limits.cpu_quota;
  shm_size = limits.shm_size;
  config_template = limits.config_template;
  subscription_id = input.subscription_id;
  obs_ws_password = input.obs_ws_password;
}

module _ {E : Type 0} (svc : Services E) where
  unfoldable pub require_limits : Option PlanLimits → M E PlanLimits
  require_limits none = throw (refused "Subscription not found or inactive" 400)
  require_limits (some limits) = pure limits

  -- The refusals for a node that is full.
  unfoldable pub require_capacity : Node → ℕ → M E (Unit {0})
  require_capacity node active =
      if leb node.max_instances active
      then throw (refused "Node has reached max_instances capacity" 409)
      else if at_cap node.max_encoder_sessions active
      then throw (refused "Node has reached max_encoder_sessions capacity" 409)
      else pure tt

  unfoldable pub admit : CreateInput → M E (Node × PlanLimits)
  admit input = do
    node ← query svc.refresh_node
    found ← query (svc.subscription_limits input.subscription_id)
    limits ← require_limits found
    active ← query svc.count_active
    require_capacity node active
    pure (node, limits)

  -- A refused or failed key lookup takes the row away again.
  unfoldable pub key_or_delete : String → String → M E (Option String)
  key_or_delete instance_id user_id =
      try_catch (require_stream_key svc user_id)
        (λ e. do attempt (delete_instance svc instance_id); throw e)

  unfoldable pub write_config :
      String → String → CreateInput → PlanLimits → Option String → M E InstanceSecrets
  write_config instance_id user_id input limits stream_key = do
    let template = or_option limits.config_template input.template
    attempt (
        perform (pull_config user_id instance_id template)
          (svc.pull_obs_config user_id instance_id template))
    attempt (perform sync_plugins svc.sync_plugins)
    secrets ← query (svc.instance_secrets instance_id)
    perform (inject_ws_password instance_id input.obs_ws_password)
        (svc.inject_ws_password instance_id input.obs_ws_password)
    elim stream_key [
      | none ↦ pure secrets
      | some key ↦ do
        perform (inject_stream_key instance_id key) (svc.inject_stream_key instance_id key)
        pure secrets
    ]

  abbrev pub options_of : NewRow → InstanceSecrets → ContainerOptions
  options_of row secrets = record {
    instance_id = row.id;
    container_name = row.container_name;
    resolution = row.resolution;
    obs_ws_password = row.obs_ws_password;
    viewer_password = secrets.vnc_password;
    memory_mb = row.memory_mb;
    cpu_quota = row.cpu_quota;
    shm_size = row.shm_size;
  }

  -- The `catch`: `container_id` is the container of this attempt, if it was created.
  unfoldable pub fail_create : String → Option String → Error → M E Instance
  fail_create instance_id container_id e = do
    update_instance svc instance_id set_error
    tell instance_id is_error
    elim container_id [
      | none ↦ throw (provision_failed e)
      | some id ↦ do
        attempt (perform (remove_container id) (svc.remove id))
        throw (provision_failed e)
    ]

  unfoldable pub finish_create : String → String → M E Instance
  finish_create instance_id container_id = do
    perform (start_container container_id) (svc.start container_id)
    updated ← update_instance svc instance_id (set_running container_id)
    tell instance_id is_started
    pure updated

  unfoldable pub after_create : String → Result String → M E Instance
  after_create instance_id (err e) = fail_create instance_id none e
  after_create instance_id (ok container_id) =
      try_catch (finish_create instance_id container_id)
        (fail_create instance_id (some container_id))

  unfoldable pub create_from : NewRow → Result InstanceSecrets → M E Instance
  create_from row (err e) w = fail_create row.id none e w
  create_from row (ok secrets) w =
      let options = options_of row secrets in
      let (created, w') = perform (create_container options) (svc.create options) w in
      after_create row.id created w'

  -- The `try` and its `catch`.
  unfoldable pub provision_instance :
      NewRow → CreateInput → PlanLimits → Option String → M E Instance
  provision_instance row input limits stream_key w =
      let (configured, w') = write_config row.id row.user_id input limits stream_key w in
      create_from row configured w'

  unfoldable pub create_admitted : String → String → CreateInput → Node × PlanLimits → M E Instance
  create_admitted instance_id user_id input (node, limits) = do
    let row = new_row instance_id user_id input node limits
    insert_instance svc row input.node_token
    stream_key ← key_or_delete instance_id user_id
    tell instance_id is_starting
    provision_instance row input limits stream_key

  unfoldable pub create_instance : String → String → CreateInput → M E Instance
  create_instance instance_id user_id input = do
    admitted ← admit input
    create_admitted instance_id user_id input admitted
