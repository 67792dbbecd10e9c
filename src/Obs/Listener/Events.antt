-- ===== src/Obs/Listener/Events.antt =====
-- The handlers of the listener: what the runs of `connect` do after each await, what a socket's
-- listeners do, the timers, and the pass that compares the sessions with the rows. An event that
-- nothing waits for changes nothing.
use obs_instance_manager.Prelude.{
  ℕ, ◌+◌, String, Bool, true, false, ◌&&◌, Option, none, some, List, [], ◌∷◌, eqb, is_some, put,
  non_empty, if◌then◌else◌, ◌==◌,
}
use obs_instance_manager.Prelude.Dict
use obs_instance_manager.Prelude.Dict.{Dict}
use obs_instance_manager.Instances.Services.{Instance}
use obs_instance_manager.Instances.Stop.{is_running_status}
use obs_instance_manager.Obs.Stats.{
  Numbers, OutputStatsEvent, Point, OutputStatsRecorder, record_event,
  output_stats_write_interval_ms,
}
use obs_instance_manager.Obs.Listener.{
  Session, Stage, asking, connecting, seeding, Listener, put_run, put_session, connect,
  attach_instance, written, detach_instance, detach_all, emit_scene, schedule_retry,
}

-- The stored password, or the failure of the request for it.
pub data SecretsReply : Type 0 where
  lookup_failed : SecretsReply
  password : Option String → SecretsReply

-- The reply to GetCurrentProgramScene.
pub record SceneReply : Type 0 where
  pub scene_name : Option String
  pub scene_uuid : Option String
  pub current_program_scene_name : Option String
  pub current_program_scene_uuid : Option String

-- `a ?? b`
abbrev pub or_other : Option String → Option String → Option String
or_other none b = b
or_other (some a) b = some a

abbrev pub stats_vendor_name : String
stats_vendor_name = "streamwizard-stats"

abbrev pub output_stats_event : String
output_stats_event = "OutputStats"

pub data Event (N : Type 0) : Type 0 where
  attaches : Instance → Event N
  detaches : String → Event N
  detaches_all : Event N
  secrets_answered : ℕ → SecretsReply → Event N
  connect_timed_out connect_succeeded : ℕ → Event N
  seed_answered : ℕ → Option SceneReply → Event N
  scene_event : ℕ → Option String → Option String → Event N
  vendor_event : ℕ → ℕ → Option String → Option String → Option (OutputStatsEvent N) → Event N
  socket_closed : ℕ → Event N
  timer_fires : ℕ → Event N

abbrev pub is_named : Option String → String → Bool
is_named none name = false
is_named (some s) name = s == name

module _ {N : Type 0} where
  -- The run makes its socket and starts to connect.
  unfoldable pub open_socket : ℕ → ℕ → Listener N → Listener N
  open_socket k r s = record s {
    sockets = put s.sockets s.next (record { session = r; run = k; has_listeners = true });
    store = put s.store r (record (s.store r) { obs = some s.next });
    runs = put s.runs k (some (record { session = r; stage = connecting s.next }));
    next = s.next + 1;
  }

  -- `connect` has thrown: the timeout, or a rejected promise.
  abbrev pub connect_thrown : ℕ → ℕ → Stage → Listener N → Listener N
  connect_thrown k r (connecting o) s = schedule_retry r (put_run k none s)
  connect_thrown k r _ s = s

  unfoldable pub on_timeout : ℕ → Listener N → Listener N
  on_timeout k s = elim (s.runs k) [
    | none ↦ s
    | some run ↦ connect_thrown k run.session run.stage s
  ]

  abbrev pub connected : Session N → Session N
  connected x = record x { attempts = 0; warned_unreachable = false }

  abbrev pub connect_done : ℕ → ℕ → Stage → Listener N → Listener N
  connect_done k r (connecting o) s =
      if (s.store r).closing
      then put_run k none s
      else put_run k (some (record { session = r; stage = seeding }))
          (put_session r (connected (s.store r)) s)
  connect_done k r _ s = s

  unfoldable pub on_connected : ℕ → Listener N → Listener N
  on_connected k s = elim (s.runs k) [
    | none ↦ s
    | some run ↦ connect_done k run.session run.stage s
  ]

  abbrev pub seed : ℕ → ℕ → Option SceneReply → Listener N → Listener N
  seed k r none s = put_run k none s
  seed k r (some scene) s =
      emit_scene r (or_other scene.scene_name scene.current_program_scene_name)
        (or_other scene.scene_uuid scene.current_program_scene_uuid) (put_run k none s)

  abbrev pub seeded : ℕ → ℕ → Stage → Option SceneReply → Listener N → Listener N
  seeded k r seeding reply s = seed k r reply s
  seeded k r _ reply s = s

  unfoldable pub on_seed : ℕ → Option SceneReply → Listener N → Listener N
  on_seed k reply s = elim (s.runs k) [
    | none ↦ s
    | some run ↦ seeded k run.session run.stage reply s
  ]

  unfoldable pub on_scene : ℕ → Option String → Option String → Listener N → Listener N
  on_scene o name uuid s =
      let socket = s.sockets o in
      if socket.has_listeners then emit_scene socket.session name uuid s else s

  abbrev pub rejected : ℕ → ℕ → ℕ → Stage → Listener N → Listener N
  rejected o k r (connecting p) s = if eqb p o then schedule_retry r (put_run k none s) else s
  rejected o k r _ s = s

  -- ConnectionClosed or ConnectionError on a socket: its listener, then the run that it rejects.
  abbrev pub listener_closed : ℕ → Listener N → Listener N
  listener_closed o s =
      let socket = s.sockets o in
      if socket.has_listeners then schedule_retry socket.session s else s

  abbrev pub reject_run : ℕ → ℕ → Listener N → Listener N
  reject_run o k s = elim (s.runs k) [ none ↦ s | some run ↦ rejected o k run.session run.stage s ]

  unfoldable pub on_closed : ℕ → Listener N → Listener N
  on_closed o s = reject_run o (s.sockets o).run (listener_closed o s)

  unfoldable pub fire : ℕ → ℕ → Listener N → Listener N
  fire t r s = record s {
    timers = put s.timers t none;
    store = put s.store r (record (s.store r) { retry_timer = none });
  }

  unfoldable pub on_timer : ℕ → Listener N → Listener N
  on_timer t s = elim (s.timers t) [
    | none ↦ s
    | some timer ↦ connect timer.session (fire t timer.session s)
  ]

module _ {N : Type 0} (num : Numbers N) where
  abbrev pub with_password : ℕ → ℕ → Option String → Listener N → Listener N
  with_password k r none s = detach_instance num (s.store r).instance_id (put_run k none s)
  with_password k r (some p) s = open_socket k r s

  abbrev pub after_secrets : ℕ → ℕ → SecretsReply → Listener N → Listener N
  after_secrets k r lookup_failed s = schedule_retry r (put_run k none s)
  after_secrets k r (password p) s =
      if (s.store r).closing then put_run k none s else with_password k r (non_empty p) s

  abbrev pub asked : ℕ → ℕ → Stage → SecretsReply → Listener N → Listener N
  asked k r asking reply s = after_secrets k r reply s
  asked k r _ reply s = s

  unfoldable pub on_secrets : ℕ → SecretsReply → Listener N → Listener N
  on_secrets k reply s = elim (s.runs k) [
    | none ↦ s
    | some run ↦ asked k run.session run.stage reply s
  ]

  abbrev pub recorded :
      ℕ → Option (OutputStatsEvent N) → Session N → Option (Point N) × OutputStatsRecorder N
  recorded now event x = record_event num output_stats_write_interval_ms now event x.output_stats

  unfoldable pub record_stats : ℕ → ℕ → Option (OutputStatsEvent N) → Listener N → Listener N
  record_stats r now event s =
      let x = s.store r in
      let (point, recorder) = recorded now event x in
      record s {
        store = put s.store r (record x { output_stats = recorder });
        signals = written point s.signals;
      }

  unfoldable pub on_vendor :
      ℕ → ℕ → Option String → Option String → Option (OutputStatsEvent N) → Listener N → Listener N
  on_vendor o now vendor_name event_type event s =
      let socket = s.sockets o in
      if socket.has_listeners
        && (is_named vendor_name stats_vendor_name && is_named event_type output_stats_event)
      then record_stats socket.session now event s
      else s

  unfoldable pub handle : String → Event N → Listener N → Listener N
  handle node_id (attaches instance) s = attach_instance node_id instance s
  handle node_id (detaches id) s = detach_instance num id s
  handle node_id detaches_all s = detach_all num s
  handle node_id (secrets_answered k reply) s = on_secrets k reply s
  handle node_id (connect_timed_out k) s = on_timeout k s
  handle node_id (connect_succeeded k) s = on_connected k s
  handle node_id (seed_answered k reply) s = on_seed k reply s
  handle node_id (scene_event o name uuid) s = on_scene o name uuid s
  handle node_id (vendor_event o now vendor event_type event) s =
      on_vendor o now vendor event_type event s
  handle node_id (socket_closed o) s = on_closed o s
  handle node_id (timer_fires t) s = on_timer t s

  unfoldable pub history : String → List (Event N) → Listener N → Listener N
  history node_id [] s = s
  history node_id (e ∷ es) s = history node_id es (handle node_id e s)

-- An instance that `syncInstances` watches.
abbrev pub should_watch : Instance → Bool
should_watch instance =
    is_running_status instance.status && is_some (non_empty instance.container_id)

-- `new Map(nodeInstances.filter(…).map((i) => [i.id, i]))`
unfoldable pub watch_map : List Instance → Dict Instance → Dict Instance
watch_map [] m = m
watch_map (i ∷ is) m = watch_map is (if should_watch i then Dict.set m i.id i else m)

module _ {N : Type 0} (num : Numbers N) where
  unfoldable pub detach_unwatched : Dict Instance → List String → Listener N → Listener N
  detach_unwatched m [] s = s
  detach_unwatched m (id ∷ ids) s =
      detach_unwatched m ids (if Dict.has m id then s else detach_instance num id s)

  -- The attaches of `syncInstances`: after each it waits, and `meanwhile` is what happens then.
  unfoldable pub attach_each :
      String → (String → List (Event N)) → Dict Instance → Listener N → Listener N
  attach_each node_id meanwhile [] s = s
  attach_each node_id meanwhile ((id, i) ∷ m) s = attach_each node_id meanwhile m (
      if Dict.has s.sessions i.id
      then s
      else history num node_id (meanwhile i.id) (attach_instance node_id i s))

  unfoldable pub sync_instances :
      String → (String → List (Event N)) → List Instance → Listener N → Listener N
  sync_instances node_id meanwhile rows s =
      let m = watch_map rows Dict.empty in
      attach_each node_id meanwhile m (detach_unwatched m (Dict.keys s.sessions) s)
