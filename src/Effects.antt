-- ===== src/Effects.antt =====
-- What the instance operations do to the world: a state and exception monad over the state of the
-- systems outside the process (`E`), a trace of the calls that change them (newest first), the set
-- `apiStoppingContainers` of src/clients/docker.ts and whether the instance list is cached.
-- A state change stays when a later step throws. Log lines are not modelled.
pub mod Rules
use obs_instance_manager.Prelude.{
  ℕ, String, Bool, true, false, Option, none, some, List, [], ◌∷◌, is_some,
}
use obs_instance_manager.Prelude.Dict
use obs_instance_manager.Prelude.Dict.{Dict}

-- The errors that the code tells apart. `failed` is any other one, with the HTTP status that it
-- carries, if any.
pub data Error : Type 0 where
  failed : Option ℕ → String → Error
  lifecycle_error : String → Error
  key_not_granted : Error
  refused : String → ℕ → Error
  provision_failed : Error → Error

pub data Result {ℓ} (A : Type ℓ) : Type ℓ where
  ok : A → Result A
  err : Error → Result A

pub data InstanceStatus : Type 0 where
  creating running stopped error : InstanceStatus

pub data LifecycleAction : Type 0 where
  is_starting is_started is_stopping is_stopped is_error : LifecycleAction

-- `Partial<Instance>` as the node sends it: a field left out, or its new value.
pub record Fields : Type 0 where
  pub container_id : Option (Option String)
  pub status : Option InstanceStatus

pub record ContainerOptions : Type 0 where
  pub instance_id : String
  pub container_name : String
  pub resolution : String
  pub obs_ws_password : String
  pub viewer_password : String
  pub memory_mb : ℕ
  pub cpu_quota : ℕ
  pub shm_size : String

pub record NewRow : Type 0 where
  pub id : String
  pub user_id : String
  pub node_id : String
  pub container_id : Option String
  pub container_name : String
  pub resolution : String
  pub status : InstanceStatus
  pub vram_allocated_mb : ℕ
  pub memory_mb : ℕ
  pub cpu_quota : ℕ
  pub shm_size : String
  pub config_template : Option String
  pub subscription_id : String
  pub obs_ws_password : String

-- The events of services/metrics/influx-metrics.ts that the operations write, and the actions of a
-- reconcile report (clients/streamwizard-api/nodes.ts).
pub data TrackedEvent : Type 0 where
  crash was_stopped auto_restarted restart_failed : TrackedEvent

pub data ReconcileAction : Type 0 where
  marked_error marked_running marked_stopped restarted restart_gave_up no_change : ReconcileAction

pub data Effect : Type 0 where
  broadcast : String → LifecycleAction → Effect
  insert_row : NewRow → Option String → Effect
  patch_row : String → Fields → Effect
  delete_row : String → Effect
  create_container : ContainerOptions → Effect
  start_container stop_container remove_container : String → Effect
  pull_config : String → String → Option String → Effect
  sync_plugins : Effect
  inject_ws_password : String → String → Effect
  inject_stream_key : String → String → Effect
  clear_stream_key : String → Effect
  persist_config : String → String → Effect
  remove_local_config : String → Effect
  remove_s3_config : String → String → Effect
  patch_row_of_container : String → Fields → Effect
  track_event : String → TrackedEvent → Effect
  reconcile_report : List String → List (String × ReconcileAction) → Effect

pub record World (E : Type 0) : Type 0 where
  pub env : E
  pub trace : List Effect
  pub api_stopping : Dict Bool
  pub list_cached : Bool

-- A call to a system outside the process.
abbrev pub Op : Type 0 → Type 0 → Type 0
Op E A = E → Result A × E

abbrev pub M : Type 0 → Type 0 → Type 0
M E A = World E → Result A × World E

module _ {E : Type 0} where
  abbrev pub pure : {A : Type 0} → A → M E A
  pure a w = (ok a, w)

  abbrev pub throw : {A : Type 0} → Error → M E A
  throw e w = (err e, w)

  abbrev pub and_then : {A B : Type 0} → Result A → (A → M E B) → M E B
  and_then (ok a) f w = f a w
  and_then (err e) f w = (err e, w)

  infixl 5 ◌>>=◌ ◌>>◌
  abbrev pub ◌>>=◌ : {A B : Type 0} → M E A → (A → M E B) → M E B
  ◌>>=◌ m f w = and_then (m w).0 f (m w).1

  abbrev pub ◌>>◌ : {A B : Type 0} → M E A → M E B → M E B
  m >> k = m >>= λ _. k

  abbrev pub or_catch : {A : Type 0} → Result A → (Error → M E A) → M E A
  or_catch (ok a) h w = (ok a, w)
  or_catch (err e) h w = h e w

  -- try { m } catch (e) { h(e) }
  abbrev pub try_catch : {A : Type 0} → M E A → (Error → M E A) → M E A
  try_catch m h w = or_catch (m w).0 h (m w).1

  -- try { m } finally { f }, for an `f` that cannot throw
  abbrev pub finally : {A : Type 0} → M E A → (World E → World E) → M E A
  finally m f w = ((m w).0, f (m w).1)

  -- await m.catch(() => {})
  abbrev pub attempt : {A : Type 0} → M E A → M E (Unit {0})
  attempt m w = (ok tt, (m w).1)

  abbrev pub query : {A : Type 0} → Op E A → M E A
  query op w = ((op w.env).0, record w { env = (op w.env).1 })

  -- A call that changes the world outside: it stands in the trace even if it fails.
  abbrev pub perform : {A : Type 0} → Effect → Op E A → M E A
  perform e op w = ((op w.env).0, record w { env = (op w.env).1; trace = e ∷ w.trace })

  -- `broadcastLifecycle`: fire and forget.
  abbrev pub tell : String → LifecycleAction → M E (Unit {0})
  tell id action w = (ok tt, record w { trace = broadcast id action ∷ w.trace })

  abbrev pub modify : (World E → World E) → M E (Unit {0})
  modify f w = (ok tt, f w)

  -- `trackInstanceEvent`: fire and forget.
  abbrev pub track : String → TrackedEvent → M E (Unit {0})
  track id event w = (ok tt, record w { trace = track_event id event ∷ w.trace })
