-- ===== src/Instances/Services.antt =====
-- What the instance operations use of the systems outside the process (rest-api, Docker, the disk
-- and S3), as a record of calls, and the clients of src/clients/ on top of them: the mutations of
-- streamwizard-api/instances.ts, which drop the cached instance list, and the lookups of docker.ts.
use Prim.Native.Char.{code}
use obs_instance_manager.Prelude.{
  ℕ, String, Bool, true, false, Option, none, some, List, [], ◌∷◌, eqb, any, if◌then◌else◌, ◌==◌,
}
use obs_instance_manager.Prelude.Dict
use obs_instance_manager.Effects.{
  ReconcileAction, patch_row_of_container, failed, Result, ok, err, InstanceStatus, Fields,
  ContainerOptions, NewRow, World, Op, M, patch_row, insert_row, delete_row, pure, query, perform,
  modify, ◌>>=◌, ◌>>◌,
}

pub record Instance : Type 0 where
  pub id : String
  pub user_id : String
  pub node_id : String
  pub container_id : Option String
  pub container_name : String
  pub resolution : String
  pub status : InstanceStatus
  pub memory_mb : ℕ
  -- in nano-CPUs
  pub cpu_quota : ℕ
  pub shm_size : String
  pub config_template : Option String

pub record InstanceSecrets : Type 0 where
  pub obs_ws_password : Option String
  pub vnc_password : String

pub data StreamKeyReason : Type 0 where
  granted no_integration scope_missing lookup_error : StreamKeyReason

pub record StreamKeyLookup : Type 0 where
  pub key : Option String
  pub reason : StreamKeyReason

pub record PlanLimits : Type 0 where
  pub resolution : String
  pub memory_mb : ℕ
  pub cpu_quota : ℕ
  pub shm_size : String
  pub vram_mb : ℕ
  pub config_template : Option String

pub record Node : Type 0 where
  pub id : String
  pub max_instances : ℕ
  pub max_encoder_sessions : Option ℕ

-- An entry of Docker's container list.
pub record Container : Type 0 where
  pub id : String
  pub names : List String
  pub is_running : Bool

pub record Found : Type 0 where
  pub id : String
  pub is_running : Bool

pub record Services (E : Type 0) : Type 0 where
  pub list_containers : String → Op E (List Container)
  pub inspect : String → Op E Bool
  pub create : ContainerOptions → Op E String
  pub start : String → Op E (Unit {0})
  pub stop : String → Op E (Unit {0})
  pub remove : String → Op E (Unit {0})
  pub post_row : NewRow → Option String → Op E Instance
  pub patch : String → Fields → Op E Instance
  pub delete : String → Op E (Unit {0})
  pub get_row : String → Op E (Option Instance)
  pub count_active : Op E ℕ
  pub list_unentitled : Op E (List String)
  pub refresh_node : Op E Node
  pub subscription_limits : String → Op E (Option PlanLimits)
  pub instance_secrets : String → Op E InstanceSecrets
  pub stream_key : String → Op E StreamKeyLookup
  pub pull_obs_config : String → String → Option String → Op E (Unit {0})
  pub sync_plugins : Op E (Unit {0})
  pub inject_ws_password : String → String → Op E (Unit {0})
  pub inject_stream_key : String → String → Op E (Unit {0})
  pub clear_stream_key : String → Op E (Unit {0})
  pub persist_and_remove : String → String → Op E Bool
  pub remove_local : String → Op E (Unit {0})
  pub remove_s3 : String → String → Op E (Unit {0})
  pub patch_by_container : String → Fields → Op E (Option Instance)
  pub refresh_node_instances : Op E (List Instance)
  pub post_reconcile_report : List String → List (String × ReconcileAction) → Op E (Unit {0})
  -- process.env.REST_API_URL is set
  pub has_rest_api : Bool
  -- `isInstanceLocked`, which another task may change at any time
  pub is_locked : String → E → Bool
  -- process.env.ALLOW_MISSING_STREAM_KEY === "true"
  pub allow_missing_key : Bool

-- `n.replace(/^\//, "")`
unfoldable pub strip_slash : String → String
strip_slash String.[] = ""
strip_slash (String.◌∷◌ c s) = if eqb (code c) b'/' then s else String.◌∷◌ c s

unfoldable pub exact_match : String → List Container → Option Found
exact_match name [] = none
exact_match name (c ∷ cs) =
    if any (λ n. strip_slash n == name) c.names
    then some (record { id = c.id; is_running = c.is_running })
    else exact_match name cs

pub data DockerStatus : Type 0 where
  is_running is_stopped not_found unknown : DockerStatus

abbrev pub status_of : Result Bool → DockerStatus
status_of (ok true) = is_running
status_of (ok false) = is_stopped
status_of (err (failed (some code) message)) = if eqb code 404 then not_found else unknown
status_of (err e) = unknown

module _ {E : Type 0} (svc : Services E) where
  unfoldable pub find_container_by_name : String → M E (Option Found)
  find_container_by_name name = do
    matches ← query (svc.list_containers name)
    pure (exact_match name matches)

  -- `inspect` answers whether the container runs; an error with status 404 means that it is gone.
  unfoldable pub get_container_status : String → M E DockerStatus
  get_container_status id w = let (r, w') = query (svc.inspect id) w in (ok (status_of r), w')

  -- A successful change of a row drops the cached instance list.
  abbrev pub invalidate : World E → World E
  invalidate w = record w { list_cached = false }

  unfoldable pub insert_instance : NewRow → Option String → M E Instance
  insert_instance row token = do
    created ← perform (insert_row row token) (svc.post_row row token)
    modify invalidate
    pure created

  unfoldable pub update_instance : String → Fields → M E Instance
  update_instance id fields = do
    updated ← perform (patch_row id fields) (svc.patch id fields)
    modify invalidate
    pure updated

  -- The passwords that the process keeps of the instance are forgotten too, which is a state of
  -- Cache/Secrets.antt.
  unfoldable pub delete_instance : String → M E (Unit {0})
  delete_instance id = do perform (delete_row id) (svc.delete id); modify invalidate

  abbrev invalidate_if : Option Instance → World E → World E
  invalidate_if none w = w
  invalidate_if (some updated) w = invalidate w

  unfoldable pub update_instance_by_container_id : String → Fields → M E (Option Instance)
  update_instance_by_container_id id fields = do
    updated ← perform (patch_row_of_container id fields) (svc.patch_by_container id fields)
    modify (invalidate_if updated)
    pure updated

abbrev pub mark_api_stopping : {E : Type 0} → String → World E → World E
mark_api_stopping id w = record w { api_stopping = Dict.set w.api_stopping id true }

abbrev pub clear_api_stopping : {E : Type 0} → String → World E → World E
clear_api_stopping id w = record w { api_stopping = Dict.remove w.api_stopping id }

abbrev pub is_api_stopping : {E : Type 0} → String → World E → Bool
is_api_stopping id w = Dict.has w.api_stopping id
