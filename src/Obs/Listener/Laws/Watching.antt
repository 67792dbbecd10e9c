-- ===== src/Obs/Listener/Laws/Watching.antt =====
-- Who watches an instance, in every history of the listener.
use obs_instance_manager.Prelude.{ℕ, String, ◌≡◌, true, none, some, List, arith, Option-cases}
use obs_instance_manager.Prelude.Dict
use obs_instance_manager.Prelude.Dict.{Dict, get-set, get-remove}
use obs_instance_manager.Obs.Stats.{Numbers}
use obs_instance_manager.Obs.Listener.{Timer, no_sessions}
use obs_instance_manager.Obs.Listener.Events.{Event, history}
use obs_instance_manager.Obs.Listener.Laws.Histories.{no_sessions-Inv, history-Inv}

-- After every history, two sockets that still have their listeners and serve the same instance are
-- one socket; the session that it serves is the one that the instance is attached by, has this
-- socket as its own and waits for no retry.
pub one_socket :
    {N : Type 0} (num : Numbers N) (node_id : String) (es : List (Event N)) (o p : ℕ)
    → ((history num node_id es no_sessions).sockets o).has_listeners ≡ true
    → ((history num node_id es no_sessions).sockets p).has_listeners ≡ true
    → let s = history num node_id es no_sessions in
      (s.store (s.sockets o).session).instance_id ≡ (s.store (s.sockets p).session).instance_id
      → let s = history num node_id es no_sessions in
        let r = (s.sockets o).session in
        (o ≡ p)
        × (Dict.get s.sessions (s.store r).instance_id ≡ some r)
        × ((s.store r).obs ≡ some o)
        × ((s.store r).retry_timer ≡ none)
one_socket num node_id es o p h g e =
    let s = history num node_id es no_sessions in
    let v = history-Inv num node_id es no_sessions no_sessions-Inv in
    let r = (s.sockets o).session in
    let q = (s.sockets p).session in
    grind (
      arith,
      v.heard o h,
      v.heard p g,
      v.quiet r,
      v.quiet q,
      v.live r,
      v.live q,
      Option-cases (s.store r).retry_timer,
      v.resting r,
    )

-- After every history, two pending retry timers of the same instance are one timer; the instance is
-- attached, by the timer's session, which has no socket meanwhile.
pub one_timer :
    {N : Type 0} (num : Numbers N) (node_id : String) (es : List (Event N)) (t u : ℕ) (x y : Timer)
    → (history num node_id es no_sessions).timers t ≡ some x
    → (history num node_id es no_sessions).timers u ≡ some y
    → let s = history num node_id es no_sessions in
      (s.store x.session).instance_id ≡ (s.store y.session).instance_id
      → let s = history num node_id es no_sessions in
        (t ≡ u)
        × (Dict.get s.sessions (s.store x.session).instance_id ≡ some x.session)
        × ((s.store x.session).obs ≡ none)
one_timer num node_id es t u x y h g e =
    let v = history-Inv num node_id es no_sessions no_sessions-Inv in
    grind (
      arith,
      v.timed t x h,
      v.timed u y g,
      v.quiet x.session,
      v.quiet y.session,
      v.live x.session,
      v.live y.session,
      v.resting x.session t,
    )
