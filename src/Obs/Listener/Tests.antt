-- ===== src/Obs/Listener/Tests.antt =====
-- One instance that is attached, connected and detached again.
use obs_instance_manager.Prelude.{
  ℕ, ◌≡◌, refl, true, not, none, some, List, [], ◌∷◌, max, min, eqb, String, arith,
}
use obs_instance_manager.Prelude.Dict
use obs_instance_manager.Instances.Samples.{row}
use obs_instance_manager.Obs.Stats.{Numbers}
use obs_instance_manager.Obs.Listener.{
  Timer, no_sessions, connect, add_session, attach_instance, put_run, put_session, emit_scene,
  emit_named,
}
use obs_instance_manager.Obs.Listener.Events.{
  Event, attaches, detaches, secrets_answered, connect_succeeded, scene_event, socket_closed,
  password, open_socket, on_secrets, on_connected, on_scene, seed_answered, handle, history,
  sync_instances,
}
use obs_instance_manager.Obs.Listener.Laws.Watching.{one_socket}
use obs_instance_manager.Obs.Listener.Laws.Silence.{scenes_of}
use obs_instance_manager.Obs.Listener.Laws.Late.{Late, seeds, detached_silent}
use obs_instance_manager.Obs.Listener.Laws.Syncing.{is_watched, synced}

abbrev naturals : Numbers ℕ
naturals = record {
  is_finite = λ n. true;
  is_truthy = λ n. not (eqb n 0);
  trunc = λ n. n;
  larger = λ a b. max a b;
  smaller = λ a b. min a b;
}

-- The session is 0, its first run 1, the socket 2.
abbrev connecting_events : List (Event ℕ)
connecting_events =
    attaches row ∷ secrets_answered 1 (password (some "pw")) ∷ connect_succeeded 1 ∷ []

one_socket_example :
    let s = history naturals "n1" connecting_events no_sessions in
    let r = (s.sockets 2).session in
    (◌≡◌ {A = ℕ} 2 2)
    × (Dict.get s.sessions (s.store r).instance_id ≡ some r)
    × ((s.store r).obs ≡ some 2)
    × ((s.store r).retry_timer ≡ none)
unfolding history handle attach_instance add_session connect on_secrets open_socket on_connected
    put_run put_session Dict.get Dict.set
one_socket_example = one_socket naturals "n1" connecting_events 2 2 refl refl refl

-- The socket closes, and the timer is 3.
abbrev closing_events : List (Event ℕ)
closing_events =
    attaches row
    ∷ secrets_answered 1 (password (some "pw"))
    ∷ connect_succeeded 1
    ∷ socket_closed 2
    ∷ []

abbrev timer : Timer
timer = record { session = 0; delay = 2000 }

-- A scene that the socket hears too late, and the answer to a request that was under way.
abbrev later_events : List (Event ℕ)
later_events =
    scene_event 2 (some "Live") (some "u1")
    ∷ seed_answered 1 (
        some (record {
          scene_name = some "Live";
          scene_uuid = some "u1";
          current_program_scene_name = none;
          current_program_scene_uuid = none;
        }))
    ∷ []

detached_silent_example :
    let s =
      handle naturals "n1" (detaches "i1") (history naturals "n1" connecting_events no_sessions) in
    Late "i1" (scenes_of "i1" s.signals) (seeds later_events) (history naturals "n1" later_events s)
detached_silent_example =
    detached_silent naturals "n1" "i1" connecting_events later_events (tt, (tt, tt))

abbrev scenes : String → List (Event ℕ)
scenes id = scene_event 2 (some "Live") (some "u1") ∷ []

synced_example :
    Dict.has (sync_instances naturals "n1" scenes (row ∷ []) no_sessions).sessions "i1"
    ≡ is_watched (row ∷ []) "i1"
unfolding history handle on_scene emit_scene emit_named
synced_example = synced naturals "n1" scenes (row ∷ []) no_sessions "i1" (λ j t. ground arith)
