-- ===== src/Auth/Viewer.antt =====
-- src/services/auth/selkies-viewer-sessions.ts: the sessions of the viewer page. The map holds
-- references: a proxy keeps the session object of its socket and changes it even after the map has
-- dropped it, so sessions live in a store and the map and the proxies share their places in it.
pub mod Laws
use obs_instance_manager.Prelude.{
  ℕ, ◌+◌, ◌-◌, ◌*◌, String, Bool, true, false, not, ◌&&◌, ◌||◌, Option, none, some, ltb, leb, eqb,
  if◌then◌else◌, ◌==◌,
}
use obs_instance_manager.Prelude.Dict
use obs_instance_manager.Prelude.Dict.{Dict}
use obs_instance_manager.Auth.Tickets.{Ticket, same_id}

abbrev pub reconnect_grace_ms : ℕ
reconnect_grace_ms = 2 * 60000

abbrev pub session_max_ms : ℕ
session_max_ms = 12 * 60 * 60000

pub record ViewerSession : Type 0 where
  pub ticket : Ticket
  pub container_name : String
  pub created_at : ℕ
  pub open_sockets : ℕ
  pub idle_since : ℕ

pub record ViewerSessions : Type 0 where
  pub sessions : Dict ℕ
  pub store : ℕ → ViewerSession
  pub next : ℕ

abbrev pub put_session : (ℕ → ViewerSession) → ℕ → ViewerSession → ℕ → ViewerSession
put_session store r session i = if eqb r i then session else store i

-- `at - t > d` on numbers of JavaScript is `t + d < at`.
abbrev pub is_live : ℕ → ViewerSession → Bool
is_live at session =
    not (ltb (session.created_at + session_max_ms) at)
    && (ltb 0 session.open_sockets || leb at (session.idle_since + reconnect_grace_ms))

unfoldable pub start : ℕ → String → Ticket → String → ViewerSessions → ℕ × ViewerSessions
start at token ticket container_name s = (
  s.next,
  record {
    sessions = Dict.set s.sessions token s.next;
    store = put_session s.store s.next (record {
      ticket = ticket;
      container_name = container_name;
      created_at = at;
      open_sockets = 0;
      idle_since = at;
    });
    next = s.next + 1;
  },
)

unfoldable pub get : ℕ → String → String → ViewerSessions → Option ℕ × ViewerSessions
get at token instance_id s = elim (Dict.get s.sessions token) [
  | none ↦ (none, s)
  | some r ↦
      if not (is_live at (s.store r))
      then (none, record s { sessions = Dict.remove s.sessions token })
      else if same_id (s.store r).ticket.instance_id (some instance_id)
      then (some r, s)
      else (none, s)
]

unfoldable pub end : String → ViewerSessions → ViewerSessions
end token s = record s { sessions = Dict.remove s.sessions token }

unfoldable pub socket_opened : ℕ → ViewerSessions → ViewerSessions
socket_opened r s = record s {
  store =
      put_session s.store r (record (s.store r) { open_sockets = (s.store r).open_sockets + 1 });
}

-- `Math.max(0, n - 1)` is the subtraction that stops at 0.
abbrev pub closed : ℕ → ViewerSession → ViewerSession
closed at session =
    let sockets = session.open_sockets - 1 in
    if eqb sockets 0
    then record session { open_sockets = sockets; idle_since = at }
    else record session { open_sockets = sockets }

unfoldable pub socket_closed : ℕ → ℕ → ViewerSessions → ViewerSessions
socket_closed at r s = record s { store = put_session s.store r (closed at (s.store r)) }

unfoldable pub sweep_sessions : ℕ → ViewerSessions → ViewerSessions
sweep_sessions at s = record s { sessions = Dict.keep (λ r. is_live at (s.store r)) s.sessions }
