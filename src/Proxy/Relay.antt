-- ===== src/Proxy/Relay.antt =====
-- src/services/proxy/ws-proxy.ts: one client connection bridged to the obs-websocket of a container.
-- A message is any datum. What the proxy sends to either side and the codes that it closes the
-- client with are kept, in order; `close()` without a code is none. Events of the upstream socket
-- come only in a state in which it has them, so it opens only while it is dialed.
pub mod Laws
pub mod Dialing
use obs_instance_manager.Prelude.{
  ℕ, ◌+◌, String, Bool, true, false, Option, none, some, List, [], ◌∷◌, ◌++◌, if◌then◌else◌,
}
use obs_instance_manager.Prelude.Dict
use obs_instance_manager.Prelude.Dict.{Dict}
use obs_instance_manager.Limits.{MessageRateLimiter, fresh_limiter, allow_message}
use obs_instance_manager.Auth.Tickets.{TicketScope, Ticket, consume_ticket}

-- The variable `upstream` with the state of its socket; `dialed` holds the target.
pub data Upstream : Type 0 where
  no_upstream : Upstream
  dialing : Upstream
  is_open : Upstream
  is_closed : Upstream

pub record Relay (D : Type 0) : Type 0 where
  pub upstream : Upstream
  pub dialed : List String
  pub queued : List D
  pub limiter : MessageRateLimiter
  pub dropped_frames : ℕ
  pub has_timeout : Bool
  pub sent_up : List D
  pub sent_down : List D
  pub closed_with : List (Option ℕ)

abbrev pub new_relay : {D : Type 0} → Relay D
new_relay = record {
  upstream = no_upstream;
  dialed = [];
  queued = [];
  limiter = fresh_limiter;
  dropped_frames = 0;
  has_timeout = false;
  sent_up = [];
  sent_down = [];
  closed_with = [];
}

-- `container_name` of the instance that a ticket reaches, if the lookup finds one.
abbrev pub GetInstance : Type 0
GetInstance = String → Ticket → Option String

-- What the upgrade handler finds before the socket opens.
pub record Access : Type 0 where
  pub ticket : Option Ticket
  pub container_name : Option String

abbrev pub looked_up : GetInstance → String → Option Ticket → Option String
looked_up get_instance id none = none
looked_up get_instance id (some ticket) = get_instance id ticket

pub proxy_access :
    Option String → TicketScope → GetInstance → String → ℕ → Dict Ticket → Access × Dict Ticket
proxy_access token scope get_instance id now tickets =
    let (ticket, tickets') = consume_ticket token scope (some id) now tickets in
    (record { ticket = ticket; container_name = looked_up get_instance id ticket }, tickets')

abbrev pub shut : Upstream → Upstream
shut no_upstream = no_upstream
shut _ = is_closed

module _ {D : Type 0} where
  abbrev pub close_client : Option ℕ → Relay D → Relay D
  close_client code r = record r { closed_with = r.closed_with ++ (code ∷ []) }

  abbrev pub dial : String → Relay D → Relay D
  dial target r = record r {
    upstream = dialing;
    dialed = r.dialed ++ (target ∷ []);
    has_timeout = true;
  }

  abbrev pub open_found : Option String → Relay D → Relay D
  open_found none r = close_client (some 4404) r
  open_found (some container_name) r = dial container_name r

  abbrev pub open_with : Option Ticket → Option String → Relay D → Relay D
  open_with none container_name r = close_client (some 4401) r
  open_with (some ticket) container_name r = open_found container_name r

  unfoldable pub on_open : Access → Relay D → Relay D
  on_open access r = open_with access.ticket access.container_name r

  -- `upstream.onopen`
  unfoldable pub upstream_opened : Relay D → Relay D
  upstream_opened r = record r {
    upstream = is_open;
    has_timeout = false;
    sent_up = r.sent_up ++ r.queued;
    queued = [];
  }

  unfoldable pub upstream_message : D → Relay D → Relay D
  upstream_message d r = record r { sent_down = r.sent_down ++ (d ∷ []) }

  unfoldable pub upstream_closed : Relay D → Relay D
  upstream_closed r = close_client none (record r { upstream = is_closed; has_timeout = false })

  unfoldable pub upstream_error : Relay D → Relay D
  upstream_error r = close_client none (record r { has_timeout = false })

  unfoldable pub connect_timeout : Relay D → Relay D
  connect_timeout r =
      if r.has_timeout then close_client (some 4408) (record r { has_timeout = false }) else r

  abbrev pub pass_up : Upstream → D → Relay D → Relay D
  pass_up is_open d r = record r { sent_up = r.sent_up ++ (d ∷ []) }
  pass_up _ d r = record r { queued = r.queued ++ (d ∷ []) }

  abbrev pub admit : Bool → D → Relay D → Relay D
  admit false d r = record r { dropped_frames = r.dropped_frames + 1 }
  admit true d r = pass_up r.upstream d r

  unfoldable pub on_message : ℕ → ℕ → ℕ → D → Relay D → Relay D
  on_message messages_per_window window_ms now d r =
      let (allowed, limiter) = allow_message messages_per_window window_ms now r.limiter in
      admit allowed d (record r { limiter = limiter })

  unfoldable pub on_close : Relay D → Relay D
  on_close r = record r { upstream = shut r.upstream }

pub data Event (D : Type 0) : Type 0 where
  opens : Access → Event D
  upstream_opens upstream_closes upstream_fails times_out closes : Event D
  upstream_sends : D → Event D
  sends : ℕ → D → Event D

abbrev pub opened_if : {D : Type 0} → Upstream → Relay D → Relay D
opened_if dialing r = upstream_opened r
opened_if _ r = r

module _ {D : Type 0} (messages_per_window window_ms : ℕ) where
  unfoldable pub handle : Event D → Relay D → Relay D
  handle (opens access) r = on_open access r
  handle upstream_opens r = opened_if r.upstream r
  handle upstream_closes r = upstream_closed r
  handle upstream_fails r = upstream_error r
  handle times_out r = connect_timeout r
  handle closes r = on_close r
  handle (upstream_sends d) r = upstream_message d r
  handle (sends now d) r = on_message messages_per_window window_ms now d r

  unfoldable pub history : List (Event D) → Relay D → Relay D
  history [] r = r
  history (e ∷ es) r = history es (handle e r)
