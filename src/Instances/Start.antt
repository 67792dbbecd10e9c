-- ===== src/Instances/Start.antt =====
-- src/services/instances/twitch.ts and instance-lifecycle.ts: `restartInstance`, which every start
-- goes through. It runs under the instance's lock (Lock.antt). The two calls of a `Promise.all`
-- are made one after the other: neither can reject and neither reads what the other writes.
pub mod Signals
pub mod Failures
use obs_instance_manager.Prelude.{
  ℕ, String, Bool, true, false, Option, none, some, if◌then◌else◌, ◌==◌, ◌||◌,
}
use obs_instance_manager.Effects.{
  Error, failed, lifecycle_error, key_not_granted, Result, ok, err, Fields, ContainerOptions, World,
  M, is_starting, is_started, is_error, running, error, create_container, start_container,
  remove_container, pull_config, sync_plugins, inject_ws_password, inject_stream_key, pure, throw,
  try_catch, or_catch, attempt, query, perform, tell, and_then, ◌>>=◌, ◌>>◌,
}
use obs_instance_manager.Instances.Services.{
  DockerStatus, not_found, get_container_status, Instance, InstanceSecrets, StreamKeyLookup,
  StreamKeyReason, scope_missing, no_integration, lookup_error, granted, Found, Services,
  find_container_by_name, update_instance,
}

pub record StartSecrets : Type 0 where
  pub obs_ws_password : String
  pub vnc_password : String

-- `!s` on `string | null`: null and the empty string.
abbrev pub usable : Option String → Option String
usable none = none
usable (some s) = if s == "" then none else some s

abbrev pub set_running : String → Fields
set_running container_id = record { container_id = some (some container_id); status = some running }

abbrev pub set_error : Fields
set_error = record { container_id = none; status = some error }

abbrev key_of : Bool → StreamKeyLookup → Result (Option String)
key_of allow lookup = elim lookup.reason [
  | scope_missing ↦ if allow then ok none else err key_not_granted
  | no_integration ↦ if allow then ok none else err key_not_granted
  | lookup_error ↦ ok none
  | granted ↦ ok (usable lookup.key)
]

abbrev password_of : InstanceSecrets → Result StartSecrets
password_of secrets = elim (usable secrets.obs_ws_password) [
  | none ↦ err (lifecycle_error "Instance is missing OBS WebSocket password.")
  | some password ↦ ok (record { obs_ws_password = password; vnc_password = secrets.vnc_password })
]

abbrev pub running_id : Option Found → Option String
running_id none = none
running_id (some found) = if found.is_running then some found.id else none

module _ {E : Type 0} (svc : Services E) where
  unfoldable pub require_stream_key : String → M E (Option String)
  require_stream_key user_id = do
    lookup ← query (svc.stream_key user_id)
    λ w. (key_of svc.allow_missing_key lookup, w)

  unfoldable pub load_start_secrets : String → M E StartSecrets
  load_start_secrets id = do
    secrets ←
        try_catch (query (svc.instance_secrets id))
          (λ e. throw (lifecycle_error "Could not load the instance's passwords from rest-api"))
    λ w. (password_of secrets, w)

  unfoldable pub adopt_running_container : Instance → String → M E Instance
  adopt_running_container instance container_id = do
    updated ← update_instance svc instance.id (set_running container_id)
    tell instance.id is_started
    pure updated

  abbrev pub container_options : Instance → StartSecrets → ContainerOptions
  container_options instance secrets = record {
    instance_id = instance.id;
    container_name = instance.container_name;
    resolution = instance.resolution;
    obs_ws_password = secrets.obs_ws_password;
    viewer_password = secrets.vnc_password;
    memory_mb = instance.memory_mb;
    cpu_quota = instance.cpu_quota;
    shm_size = instance.shm_size;
  }

  -- The config dir: template and overlay, plugins, the passwords and the stream key.
  unfoldable pub prepare_config : Instance → StartSecrets → Option String → M E (Unit {0})
  prepare_config instance secrets stream_key = do
    attempt (
        perform (pull_config instance.user_id instance.id instance.config_template)
          (svc.pull_obs_config instance.user_id instance.id instance.config_template))
    attempt (perform sync_plugins svc.sync_plugins)
    perform (inject_ws_password instance.id secrets.obs_ws_password)
        (svc.inject_ws_password instance.id secrets.obs_ws_password)
    elim stream_key [
      | none ↦ pure tt
      | some key ↦
          perform (inject_stream_key instance.id key) (svc.inject_stream_key instance.id key)
    ]

  -- What is left of the `try` once the container is created.
  unfoldable pub start_and_record : Instance → String → M E Instance
  start_and_record instance container_id = do
    perform (start_container container_id) (svc.start container_id)
    updated ← update_instance svc instance.id (set_running container_id)
    tell instance.id is_started
    pure updated

  unfoldable pub give_up : Instance → Error → M E Instance
  give_up instance e = do
    update_instance svc instance.id set_error
    tell instance.id is_error
    throw e

  unfoldable pub after_failure : Instance → Error → Option Found → M E Instance
  after_failure instance e survivor = elim (running_id survivor) [
    | some container_id ↦ adopt_running_container instance container_id
    | none ↦ give_up instance e
  ]

  unfoldable pub find_survivor : String → M E (Option Found)
  find_survivor name = try_catch (find_container_by_name svc name) (λ _. pure none)

  -- The `catch`, once the container of this attempt is out of the way.
  unfoldable pub settle_failure : Instance → Error → M E Instance
  settle_failure instance e = do
    survivor ← find_survivor instance.container_name
    after_failure instance e survivor

  -- The `catch` with a container to remove.
  unfoldable pub clean_up : Instance → String → Error → M E Instance
  clean_up instance container_id e = do
    attempt (perform (remove_container container_id) (svc.remove container_id))
    settle_failure instance e

  unfoldable pub run_created : Instance → Result String → M E Instance
  run_created instance (err e) = settle_failure instance e
  run_created instance (ok container_id) =
      try_catch (start_and_record instance container_id) (clean_up instance container_id)

  -- The `try` and its `catch`; `containerId` is set once the container is created.
  unfoldable pub launch : Instance → StartSecrets → M E Instance
  launch instance secrets w =
      let options = container_options instance secrets in
      let (created, w') = perform (create_container options) (svc.create options) w in
      run_created instance created w'

  abbrev pub remove_stale : Option Found → M E (Unit {0})
  remove_stale none = pure tt
  remove_stale (some found) = perform (remove_container found.id) (svc.remove found.id)

  -- A leftover that does not run goes first, so that the name is free.
  unfoldable pub provision : Instance → Option Found → StartSecrets → Option String → M E Instance
  provision instance existing secrets stream_key = do
    remove_stale existing
    prepare_config instance secrets stream_key
    launch instance secrets

  -- What follows once no container runs under the instance's name.
  unfoldable pub start_fresh : Instance → Option Found → M E Instance
  start_fresh instance existing = do
    secrets ← load_start_secrets instance.id
    stream_key ← require_stream_key instance.user_id
    tell instance.id is_starting
    provision instance existing secrets stream_key

  -- Docker, not the row, decides whether a container already runs for the name.
  unfoldable pub resume : Instance → Option Found → M E Instance
  resume instance existing = elim (running_id existing) [
    | some container_id ↦ adopt_running_container instance container_id
    | none ↦ start_fresh instance existing
  ]

  unfoldable pub restart_instance : Instance → M E Instance
  restart_instance instance = do
    existing ← find_container_by_name svc instance.container_name
    resume instance existing

  -- `withDockerStatus`: what is added to the row.
  unfoldable pub docker_status_of : Instance → M E DockerStatus
  docker_status_of instance = elim (usable instance.container_id) [
    | none ↦ pure not_found
    | some container_id ↦ get_container_status svc container_id
  ]
