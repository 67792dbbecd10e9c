-- ===== src/Proxy/Selkies.antt =====
-- src/services/proxy/selkies-proxy.ts: the proxy of the viewer in an instance's container. Here is
-- `sessionFor`, which turns the token of a request into a viewer session. It is cut at its awaits:
-- requests and the promises of `starting` live in stores with one counter of fresh places, and the
-- answers of `getInstance` and the clock come with the events.
pub mod Laws
use obs_instance_manager.Prelude.{
  ℕ, ◌+◌, String, Bool, true, false, Option, none, some, List, [], ◌∷◌, put, if◌then◌else◌,
}
use obs_instance_manager.Prelude.Dict
use obs_instance_manager.Prelude.Dict.{Dict}
use obs_instance_manager.Auth.Tickets.{TicketScope, Ticket, consume_ticket}
use obs_instance_manager.Auth.Viewer
use obs_instance_manager.Auth.Viewer.{ViewerSession, ViewerSessions, put_session}

-- What a promise of a session comes to.
pub data Outcome : Type 0 where
  found : ℕ → Outcome
  refused thrown : Outcome

-- A promise in `starting`: it looks up the instance with its ticket, or has settled.
pub data StartState : Type 0 where
  looking_up : Ticket → StartState
  settled : Outcome → StartState

pub record Start : Type 0 where
  pub token : String
  pub id : String
  pub state : StartState

-- A request: it looks up its instance again for a session, waits for a start, or is answered.
pub data RequestState : Type 0 where
  rechecking : ℕ → RequestState
  waiting : ℕ → RequestState
  answered : Outcome → RequestState

pub record Request : Type 0 where
  pub token : String
  pub id : String
  pub state : RequestState

pub record Viewing : Type 0 where
  pub tickets : Dict Ticket
  pub viewers : ViewerSessions
  pub starting : Dict ℕ
  pub starts : ℕ → Option Start
  pub requests : ℕ → Option Request
  pub next : ℕ

-- `getInstance`: the container's name, no instance, or an error.
pub data Lookup : Type 0 where
  container : String → Lookup
  no_instance lookup_thrown : Lookup

abbrev pub put_request : ℕ → Request → Viewing → Viewing
put_request q x s = record s { requests = put s.requests q (some x) }

abbrev pub put_start : ℕ → Start → Viewing → Viewing
put_start p x s = record s { starts = put s.starts p (some x) }

abbrev pub state_of_ticket : Option Ticket → StartState
state_of_ticket none = settled refused
state_of_ticket (some ticket) = looking_up ticket

-- A first use: the ticket is spent, and the request waits for the promise that stands in
-- `starting`. The promise takes the place `next`, the request the one after it.
unfoldable pub begin_start : ℕ → String → String → Viewing → Viewing
begin_start at token id s =
    let (ticket, tickets) =
      consume_ticket (some token) TicketScope.selkies (some id) at s.tickets in
    record s {
      tickets = tickets;
      starting = Dict.set s.starting token s.next;
      starts =
          put s.starts s.next
            (some (record { token = token; id = id; state = state_of_ticket ticket }));
      requests =
          put s.requests (s.next + 1)
            (some (record { token = token; id = id; state = waiting s.next }));
      next = s.next + 2;
    }

abbrev pub new_request : String → String → RequestState → Viewing → Viewing
new_request token id state s = record s {
  requests = put s.requests s.next (some (record { token = token; id = id; state = state }));
  next = s.next + 1;
}

abbrev pub join_or_start : ℕ → String → String → Option ℕ → Viewing → Viewing
join_or_start at token id (some p) s = new_request token id (waiting p) s
join_or_start at token id none s = begin_start at token id s

abbrev pub with_existing : ℕ → String → String → Bool → Option ℕ → Viewing → Viewing
with_existing at token id recheck_owner (some r) s =
    new_request token id (if recheck_owner then rechecking r else answered (found r)) s
with_existing at token id recheck_owner none s =
    join_or_start at token id (Dict.get s.starting token) s

-- The start of `sessionFor`, up to its first await.
unfoldable pub session_for : ℕ → String → String → Bool → Viewing → Viewing
session_for at token id recheck_owner s =
    let (existing, viewers) = Viewer.get at token id s.viewers in
    with_existing at token id recheck_owner existing (record s { viewers = viewers })

abbrev pub moved_to : String → ViewerSession → ViewerSession
moved_to name x = record x { container_name = name }

abbrev pub after_recheck : ℕ → ℕ → Request → Lookup → Viewing → Viewing
after_recheck q r x (container name) s = record s {
  viewers = record s.viewers {
    store = put_session s.viewers.store r (moved_to name (s.viewers.store r));
  };
  requests = put s.requests q (some (record x { state = answered (found r) }));
}
after_recheck q r x no_instance s = record s {
  viewers = Viewer.end x.token s.viewers;
  requests = put s.requests q (some (record x { state = answered refused }));
}
after_recheck q r x lookup_thrown s = put_request q (record x { state = answered thrown }) s

abbrev pub rechecked : ℕ → Request → RequestState → Lookup → Viewing → Viewing
rechecked q x (rechecking r) reply s = after_recheck q r x reply s
rechecked q x _ reply s = s

unfoldable pub on_recheck : ℕ → Lookup → Viewing → Viewing
on_recheck q reply s = elim (s.requests q) [ none ↦ s | some x ↦ rechecked q x x.state reply s ]

abbrev pub after_lookup : ℕ → ℕ → Start → Ticket → Lookup → Viewing → Viewing
after_lookup at p x ticket (container name) s =
    let (r, viewers) = Viewer.start at x.token ticket name s.viewers in
    record s {
      viewers = viewers;
      starts = put s.starts p (some (record x { state = settled (found r) }));
    }
after_lookup at p x ticket no_instance s = put_start p (record x { state = settled refused }) s
after_lookup at p x ticket lookup_thrown s = put_start p (record x { state = settled thrown }) s

abbrev pub looked_up : ℕ → ℕ → Start → StartState → Lookup → Viewing → Viewing
looked_up at p x (looking_up ticket) reply s = after_lookup at p x ticket reply s
looked_up at p x (settled v) reply s = s

unfoldable pub on_lookup : ℕ → ℕ → Lookup → Viewing → Viewing
on_lookup at p reply s = elim (s.starts p) [ none ↦ s | some x ↦ looked_up at p x x.state reply s ]

-- `.finally(() => starting.delete(token))`
abbrev pub forget : Start → StartState → Viewing → Viewing
forget x (settled v) s = record s { starting = Dict.remove s.starting x.token }
forget x (looking_up ticket) s = s

unfoldable pub on_settled : ℕ → Viewing → Viewing
on_settled p s = elim (s.starts p) [ none ↦ s | some x ↦ forget x x.state s ]

abbrev pub outcome_of : Option Start → Option Outcome
outcome_of none = none
outcome_of (some x) = elim x.state [ looking_up ticket ↦ none | settled v ↦ some v ]

abbrev pub resumed_with : ℕ → Request → Option Outcome → Viewing → Viewing
resumed_with q x none s = s
resumed_with q x (some v) s = put_request q (record x { state = answered v }) s

abbrev pub resumed : ℕ → Request → RequestState → Viewing → Viewing
resumed q x (waiting p) s = resumed_with q x (outcome_of (s.starts p)) s
resumed q x _ s = s

-- The request that waits for a start goes on when it has settled.
unfoldable pub on_resume : ℕ → Viewing → Viewing
on_resume q s = elim (s.requests q) [ none ↦ s | some x ↦ resumed q x x.state s ]

pub data Event : Type 0 where
  asks : ℕ → String → String → Bool → Event
  recheck_answered : ℕ → Lookup → Event
  lookup_answered : ℕ → ℕ → Lookup → Event
  start_settled : ℕ → Event
  request_resumes : ℕ → Event
  -- what others do: to the tickets anything; a socket opens or closes; the sessions are swept
  tickets_change : Dict Ticket → Event
  socket_opens : ℕ → Event
  socket_closes : ℕ → ℕ → Event
  sweeps : ℕ → Event

unfoldable pub handle : Event → Viewing → Viewing
handle (asks at token id recheck_owner) s = session_for at token id recheck_owner s
handle (recheck_answered q reply) s = on_recheck q reply s
handle (lookup_answered at p reply) s = on_lookup at p reply s
handle (start_settled p) s = on_settled p s
handle (request_resumes q) s = on_resume q s
handle (tickets_change tickets) s = record s { tickets = tickets }
handle (socket_opens r) s = record s { viewers = Viewer.socket_opened r s.viewers }
handle (socket_closes at r) s = record s { viewers = Viewer.socket_closed at r s.viewers }
handle (sweeps at) s = record s { viewers = Viewer.sweep_sessions at s.viewers }

unfoldable pub history : List Event → Viewing → Viewing
history [] s = s
history (e ∷ es) s = history es (handle e s)

-- The proxy when it is mounted, with the tickets issued by then.
abbrev pub mounted : Dict Ticket → (ℕ → ViewerSession) → Viewing
mounted tickets store = record {
  tickets = tickets;
  viewers = record { sessions = Dict.empty; store = store; next = 0 };
  starting = Dict.empty;
  starts = λ p. none;
  requests = λ q. none;
  next = 0;
}
