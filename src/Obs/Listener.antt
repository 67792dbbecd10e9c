-- ===== src/Obs/Listener.antt =====
-- src/services/obs/obs-event-listener.ts: the connection that watches the OBS of each running
-- instance. Sessions, sockets, timers and the runs of `connect` are objects, which closures keep, so
-- they live in stores with one counter of fresh places; a place that no attach has filled holds a
-- closed session. `connect` is cut at its awaits: a run asks for the password, connects a socket or
-- asks for the current scene. A connection that closes or fails while it is made rejects the
-- promise of `connect`, as obs-websocket-js has it. Of the log lines the warning is kept.
pub mod Events
mod Laws
mod Tests
use obs_instance_manager.Prelude.{
  ℕ, ◌+◌, ◌*◌, ◌^◌, min, String, Bool, true, false, not, ◌&&◌, ◌||◌, Option, none, some, List, [],
  ◌∷◌, ◌++◌, leb, is_some, put, non_empty, if◌then◌else◌, ◌==◌,
}
use obs_instance_manager.Prelude.Dict
use obs_instance_manager.Prelude.Dict.{Dict}
use obs_instance_manager.Instances.Services.{Instance}
use obs_instance_manager.Obs.Stats.{
  Numbers, OutputStatsEvent, OutputStatsTarget, Point, OutputStatsRecorder, new_recorder, flush,
  record_event,
}

abbrev pub retry_base_ms : ℕ
retry_base_ms = 2000

abbrev pub retry_max_ms : ℕ
retry_max_ms = 30000

pub record Session (N : Type 0) : Type 0 where
  pub instance_id : String
  pub user_id : String
  pub container_name : String
  pub obs : Option ℕ
  pub last_scene_uuid : Option String
  pub attempts : ℕ
  pub retry_timer : Option ℕ
  pub closing : Bool
  pub warned_unreachable : Bool
  pub output_stats : OutputStatsRecorder N

-- An obs-websocket: the session that its listeners serve, the run that made it, and whether it has
-- its listeners.
pub record Socket : Type 0 where
  pub session : ℕ
  pub run : ℕ
  pub has_listeners : Bool

pub record Timer : Type 0 where
  pub session : ℕ
  pub delay : ℕ

-- What a run of `connect` waits for.
pub data Stage : Type 0 where
  asking : Stage
  connecting : ℕ → Stage
  seeding : Stage

pub record Run : Type 0 where
  pub session : ℕ
  pub stage : Stage

pub data Signal (N : Type 0) : Type 0 where
  scene_changed : String → String → String → Signal N
  point_written : Point N → Signal N
  warned : String → Signal N

pub record Listener (N : Type 0) : Type 0 where
  pub sessions : Dict ℕ
  pub store : ℕ → Session N
  pub sockets : ℕ → Socket
  pub timers : ℕ → Option Timer
  pub runs : ℕ → Option Run
  pub next : ℕ
  -- newest first
  pub signals : List (Signal N)

-- `min(base * 2 ** attempts, max)`
pub retry_delay : ℕ → ℕ
retry_delay attempts = min (retry_base_ms * 2 ^ attempts) retry_max_ms

-- `obs.removeAllListeners()`, if there is a socket
abbrev pub without_listeners : Option ℕ → (ℕ → Socket) → ℕ → Socket
without_listeners none f = f
without_listeners (some o) f = put f o (record (f o) { has_listeners = false })

-- `clearTimeout(timer)`, if there is a timer
abbrev pub without_timer : Option ℕ → (ℕ → Option Timer) → ℕ → Option Timer
without_timer none f = f
without_timer (some t) f = put f t none

abbrev pub same_uuid : Option String → String → Bool
same_uuid none u = false
same_uuid (some v) u = u == v

module _ {N : Type 0} where
  abbrev pub new_session : String → Instance → Session N
  new_session node_id instance = record {
    instance_id = instance.id;
    user_id = instance.user_id;
    container_name = instance.container_name;
    obs = none;
    last_scene_uuid = none;
    attempts = 0;
    retry_timer = none;
    closing = false;
    warned_unreachable = false;
    output_stats =
        new_recorder
          (record { node_id = node_id; instance_id = instance.id; user_id = instance.user_id });
  }

  unfoldable pub attached_instance_ids : Listener N → List String
  attached_instance_ids s = Dict.keys s.sessions

  unfoldable pub put_run : ℕ → Option Run → Listener N → Listener N
  put_run k run s = record s { runs = put s.runs k run }

  unfoldable pub put_session : ℕ → Session N → Listener N → Listener N
  put_session r x s = record s { store = put s.store r x }

  -- The start of `connect`, up to its first await.
  unfoldable pub connect : ℕ → Listener N → Listener N
  connect r s = if (s.store r).closing then s else record s {
    runs = put s.runs s.next (some (record { session = r; stage = asking }));
    next = s.next + 1;
  }

  unfoldable pub add_session : Session N → Listener N → Listener N
  add_session x s = record s {
    sessions = Dict.set s.sessions x.instance_id s.next;
    store = put s.store s.next x;
    next = s.next + 1;
  }

  unfoldable pub attach_instance : String → Instance → Listener N → Listener N
  attach_instance node_id instance s =
      if Dict.has s.sessions instance.id
      then s
      else connect s.next (add_session (new_session node_id instance) s)

  abbrev pub written : Option (Point N) → List (Signal N) → List (Signal N)
  written none signals = signals
  written (some p) signals = point_written p ∷ signals

  module _ (num : Numbers N) where
    unfoldable pub detach_session : ℕ → String → Listener N → Listener N
    detach_session r id s =
        let x = s.store r in
        let (point, recorder) = flush num x.output_stats in
        record s {
          sessions = Dict.remove s.sessions id;
          store = put s.store r (record x {
            closing = true;
            retry_timer = none;
            obs = none;
            output_stats = recorder;
          });
          timers = without_timer x.retry_timer s.timers;
          sockets = without_listeners x.obs s.sockets;
          signals = written point s.signals;
        }

    unfoldable pub detach_instance : String → Listener N → Listener N
    detach_instance id s = elim (Dict.get s.sessions id) [
      | none ↦ s
      | some r ↦ detach_session r id s
    ]

    unfoldable pub detach_each : List String → Listener N → Listener N
    detach_each [] s = s
    detach_each (id ∷ ids) s = detach_each ids (detach_instance id s)

    unfoldable pub detach_all : Listener N → Listener N
    detach_all s = detach_each (Dict.keys s.sessions) s

  unfoldable pub emit_named : ℕ → String → String → Listener N → Listener N
  emit_named r name uuid s =
      let x = s.store r in
      if same_uuid x.last_scene_uuid uuid then s else record s {
        store = put s.store r (record x { last_scene_uuid = some uuid });
        signals = scene_changed x.instance_id name uuid ∷ s.signals;
      }

  abbrev pub emit_usable : ℕ → Option String → Option String → Listener N → Listener N
  emit_usable r none uuid s = s
  emit_usable r (some name) none s = s
  emit_usable r (some name) (some uuid) s = emit_named r name uuid s

  -- A scene without a name or an identity is not reported, nor is the one reported last.
  unfoldable pub emit_scene : ℕ → Option String → Option String → Listener N → Listener N
  emit_scene r name uuid s = emit_usable r (non_empty name) (non_empty uuid) s

  -- The warning of a failure: the delay has reached its largest and none was given since the last
  -- connection.
  abbrev pub warns : Session N → Bool
  warns x = leb retry_max_ms (retry_delay x.attempts) && not x.warned_unreachable

  abbrev pub waiting : ℕ → Session N → Session N
  waiting t x = record x {
    obs = none;
    last_scene_uuid = none;
    attempts = x.attempts + 1;
    warned_unreachable = x.warned_unreachable || warns x;
    retry_timer = some t;
  }

  unfoldable pub schedule_retry : ℕ → Listener N → Listener N
  schedule_retry r s =
      let x = s.store r in
      if x.closing || is_some x.retry_timer then s else record s {
        sockets = without_listeners x.obs s.sockets;
        store = put s.store r (waiting s.next x);
        timers =
            put s.timers s.next (some (record { session = r; delay = retry_delay x.attempts }));
        next = s.next + 1;
        signals = if warns x then warned x.instance_id ∷ s.signals else s.signals;
      }

  -- A place that no attach has filled.
  abbrev pub closed_session : Session N
  closed_session = record {
    instance_id = "";
    user_id = "";
    container_name = "";
    obs = none;
    last_scene_uuid = none;
    attempts = 0;
    retry_timer = none;
    closing = true;
    warned_unreachable = false;
    output_stats = new_recorder (record { node_id = ""; instance_id = ""; user_id = "" });
  }

  abbrev pub no_sessions : Listener N
  no_sessions = record {
    sessions = Dict.empty;
    store = λ r. closed_session;
    sockets = λ o. record { session = 0; run = 0; has_listeners = false };
    timers = λ t. none;
    runs = λ k. none;
    next = 0;
    signals = [];
  }
