-- ===== src/Proxy/Tests.antt =====
-- A relay with a ticket, and a viewer's token at work.
use obs_instance_manager.Prelude.{
  String, ◌≡◌, refl, false, some, List, [], ◌∷◌, ◌++◌, arith, eq_iff,
}
use obs_instance_manager.Prelude.Dict
use obs_instance_manager.Prelude.Dict.{Dict}
use obs_instance_manager.Limits.{fresh_limiter}
use obs_instance_manager.Auth.Tickets.{Ticket, TicketScope, consume_ticket}
use obs_instance_manager.Auth.Viewer
use obs_instance_manager.Auth.Viewer.{ViewerSession}
use obs_instance_manager.Proxy.Relay
use obs_instance_manager.Proxy.Relay.{
  new_relay, GetInstance, proxy_access, on_open, opens, upstream_opens, sends,
}
use obs_instance_manager.Proxy.Relay.Laws.{unsent, queue_history, relay_refines}
use obs_instance_manager.Proxy.Selkies.{
  found, Request, answered, Event, asks, lookup_answered, request_resumes, container, begin_start,
  session_for, on_lookup, on_resume, handle, history, mounted,
}
use obs_instance_manager.Proxy.Selkies.Laws.Access.{reached_own}
use obs_instance_manager.Proxy.Selkies.Laws.Joining.{joined_other}

abbrev ticket : Ticket
ticket = record {
  user_id = "u1";
  scope = TicketScope.selkies;
  instance_id = some "i1";
  expires_at = 120000;
}

abbrev events : List (Relay.Event String)
events =
    opens (record { ticket = some ticket; container_name = some "obs-i1" })
    ∷ sends 1 "a"
    ∷ upstream_opens
    ∷ sends 2 "b"
    ∷ []

relay_refines_example :
    let r = Relay.history 10 200 events new_relay in
    (r.sent_up ++ unsent r.upstream r.queued)
    ≡ (queue_history 10 200 events (record { taken = []; limiter = fresh_limiter })).taken
relay_refines_example = relay_refines 10 200 events

abbrev get_instance : GetInstance
get_instance id t = some "obs-i1"

abbrev tickets : Dict Ticket
tickets = ("t", ticket) ∷ []

abbrev viewer : ViewerSession
viewer = record {
  ticket = ticket;
  container_name = "";
  created_at = 0;
  open_sockets = 0;
  idle_since = 0;
}

abbrev uses : List Event
uses = asks 5 "t" "i1" false ∷ lookup_answered 6 0 (container "obs-i1") ∷ request_resumes 1 ∷ []

abbrev request : Request
request = record { token = "t"; id = "i1"; state = answered (found 0) }

reached_own_example :
    let s = history uses (mounted tickets (λ r. viewer)) in
    ((s.viewers.store 0).ticket.scope ≡ TicketScope.selkies)
    × ((s.viewers.store 0).ticket.instance_id ≡ some "i1")
unfolding history handle session_for begin_start on_lookup on_resume consume_ticket Viewer.get
    Viewer.start Dict.get Dict.set Dict.remove
reached_own_example =
    reached_own "t" "i1" uses tickets (λ r. viewer) 1 0 request (λ e. refl, (tt, (tt, tt))) refl
      refl refl

joined_other_example :
    let s =
      history
        (asks 5 "t" "i1" false
          ∷ asks 5 "t" "i2" false
          ∷ lookup_answered 6 0 (container "obs-i1")
          ∷ request_resumes 2
          ∷ [])
        (mounted tickets (λ r. viewer)) in
    (s.requests 2 ≡ some (record { token = "t"; id = "i2"; state = answered (found 0) }))
    × ((s.viewers.store 0).ticket ≡ ticket)
    × ((s.viewers.store 0).container_name ≡ "obs-i1")
unfolding Dict.get
joined_other_example =
    joined_other tickets (λ r. viewer) "t" "i1" "i2" "obs-i1" 5 6 false false ticket refl
      (λ e. ground (arith, (eq_iff "t" "").1 e)) (omega arith) refl refl
