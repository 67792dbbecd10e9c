-- ===== src/Proxy/Sockets.antt =====
-- src/services/proxy/selkies-proxy.ts: `websocketRelay`, the relay of a viewer's socket to Selkies in
-- the container. It queues and passes messages as the relay of Proxy/Relay.antt; here are its codes,
-- and how the sockets are counted in the viewer's session. The server opens a socket once and
-- then closes it once.
pub mod Laws
use Prim.Native.String
use obs_instance_manager.Prelude.{
  ℕ, ◌+◌, String, Bool, true, false, ◌&&◌, Option, none, some, List, [], ◌∷◌, ◌++◌, get_elem?, set,
  ltb, leb, if◌then◌else◌,
}
use obs_instance_manager.Auth.Tickets.{Ticket}
use obs_instance_manager.Auth.Viewer
use obs_instance_manager.Auth.Viewer.{ViewerSessions, put_session}
use obs_instance_manager.Proxy.Relay.{
  Relay, new_relay, shut, is_closed, close_client, dial, upstream_opened, on_message,
}
use obs_instance_manager.Proxy.Upstream.{instance_target}

pub data Phase : Type 0 where
  upgraded opened done : Phase

-- One socket: `pendingUpgrades` gave it the place of its session, or nothing.
pub record Link (D : Type 0) : Type 0 where
  pub session : Option ℕ
  pub relay : Relay D
  pub is_counted : Bool
  pub phase : Phase

pub record Sockets (D : Type 0) : Type 0 where
  pub viewers : ViewerSessions
  pub links : List (Link D)

-- Selkies' own codes pass.
abbrev pub passed_code : ℕ → ℕ
passed_code code = if leb 3000 code && ltb code 5000 then code else 1000

abbrev pub uncount : ℕ → Bool → Option ℕ → ViewerSessions → ViewerSessions
uncount at true (some r) viewers = Viewer.socket_closed at r viewers
uncount at _ _ viewers = viewers

module _ {D : Type 0} where
  abbrev pub new_link : Option ℕ → Link D
  new_link session = record {
    session = session;
    relay = new_relay;
    is_counted = false;
    phase = upgraded;
  }

  abbrev pub put_link : ℕ → Link D → Sockets D → Sockets D
  put_link i l s = record s { links = set s.links i l }

  -- `rest` and `search` are those of the request, without the parameter `token`.
  abbrev pub open_for : ℕ → String → String → Option ℕ → Link D → Sockets D → Sockets D
  open_for i rest search none l s =
      put_link i (record l { relay = close_client (some 4401) l.relay; phase = opened }) s
  open_for i rest search (some r) l s =
      let target = String.◌++◌ "ws://" (
        String.◌++◌ (instance_target (s.viewers.store r).container_name "8080")
          (String.◌++◌ rest search)) in
      put_link i (record l { relay = dial target l.relay; is_counted = true; phase = opened })
        (record s { viewers = Viewer.socket_opened r s.viewers })

  -- `onOpen`
  unfoldable pub link_opened : ℕ → String → String → Link D → Sockets D → Sockets D
  link_opened i rest search l s = open_for i rest search l.session l s

  unfoldable pub upstream_closed : ℕ → Relay D → Relay D
  upstream_closed code r =
      close_client (some (passed_code code))
        (record r { upstream = is_closed; has_timeout = false })

  unfoldable pub upstream_error : Relay D → Relay D
  upstream_error r = close_client (some 1011) (record r { has_timeout = false })

  unfoldable pub connect_timeout : Relay D → Relay D
  connect_timeout r =
      if r.has_timeout then close_client (some 4408) (record r { has_timeout = false }) else r

  -- `onClose`
  unfoldable pub link_closed : ℕ → ℕ → Link D → Sockets D → Sockets D
  link_closed at i l s =
      put_link i
        (record l { relay = record l.relay { upstream = shut l.relay.upstream }; phase = done })
        (record s { viewers = uncount at l.is_counted l.session s.viewers })

-- What happens to the relay of one socket between its opening and its end.
pub data RelayEvent (D : Type 0) : Type 0 where
  upstream_opens upstream_fails times_out : RelayEvent D
  upstream_closes : ℕ → RelayEvent D
  upstream_sends : D → RelayEvent D
  sends : ℕ → D → RelayEvent D

pub data Event (D : Type 0) : Type 0 where
  connects : Option ℕ → Event D
  opens : ℕ → String → String → Event D
  relays : ℕ → RelayEvent D → Event D
  closes : ℕ → ℕ → Event D
  -- a viewer session starts, is looked at, gets another container, ends; the sessions are swept
  starts : ℕ → String → Ticket → String → Event D
  looks : ℕ → String → String → Event D
  moves : ℕ → String → Event D
  ends : String → Event D
  sweeps : ℕ → Event D

module _ {D : Type 0} where
  unfoldable pub relay_step : RelayEvent D → Relay D → Relay D
  relay_step upstream_opens r = upstream_opened r
  relay_step upstream_fails r = upstream_error r
  relay_step times_out r = connect_timeout r
  relay_step (upstream_closes code) r = upstream_closed code r
  relay_step (upstream_sends d) r = record r { sent_down = r.sent_down ++ (d ∷ []) }
  relay_step (sends now d) r = on_message 2000 200 now d r

  abbrev pub open_in : ℕ → String → String → Phase → Link D → Sockets D → Sockets D
  open_in i rest search upgraded l s = link_opened i rest search l s
  open_in i rest search _ l s = s

  abbrev pub close_in : ℕ → ℕ → Phase → Link D → Sockets D → Sockets D
  close_in at i done l s = s
  close_in at i _ l s = link_closed at i l s

  unfoldable pub handle : Event D → Sockets D → Sockets D
  handle (connects session) s = record s { links = s.links ++ (new_link session ∷ []) }
  handle (opens i rest search) s = elim (get_elem? s.links i) [
    | none ↦ s
    | some l ↦ open_in i rest search l.phase l s
  ]
  handle (relays i e) s = elim (get_elem? s.links i) [
    | none ↦ s
    | some l ↦ put_link i (record l { relay = relay_step e l.relay }) s
  ]
  handle (closes at i) s = elim (get_elem? s.links i) [
    | none ↦ s
    | some l ↦ close_in at i l.phase l s
  ]
  handle (starts at token ticket name) s = record s {
    viewers = (Viewer.start at token ticket name s.viewers).1;
  }
  handle (looks at token id) s = record s { viewers = (Viewer.get at token id s.viewers).1 }
  handle (moves r name) s = record s {
    viewers = record s.viewers {
      store = put_session s.viewers.store r (record (s.viewers.store r) { container_name = name });
    };
  }
  handle (ends token) s = record s { viewers = Viewer.end token s.viewers }
  handle (sweeps at) s = record s { viewers = Viewer.sweep_sessions at s.viewers }

  unfoldable pub history : List (Event D) → Sockets D → Sockets D
  history [] s = s
  history (e ∷ es) s = history es (handle e s)
