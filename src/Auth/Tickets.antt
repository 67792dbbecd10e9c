-- ===== src/Auth/Tickets.antt =====
-- src/services/auth/ws-tickets.ts and instance-ticket.ts: single-use tickets for the WebSocket
-- proxies. The random token and the clock are arguments; times are milliseconds. `tickets` is the
-- map that the module keeps.
pub mod Laws
mod Tests
pub mod Replay
use obs_instance_manager.Prelude.{
  ℕ, ◌+◌, ◌/◌, String, Bool, true, false, not, ◌&&◌, Option, none, some, ltb, if◌then◌else◌, ◌==◌,
}
use obs_instance_manager.Prelude.Dict
use obs_instance_manager.Prelude.Dict.{Dict}

pub data TicketScope : Type 0 where
  metrics obsws selkies : TicketScope

abbrev pub same_scope : TicketScope → TicketScope → Bool
same_scope metrics metrics = true
same_scope obsws obsws = true
same_scope selkies selkies = true
same_scope _ _ = false

-- `a === b` on `string | null`
abbrev pub same_id : Option String → Option String → Bool
same_id none none = true
same_id (some a) (some b) = a == b
same_id _ _ = false

pub record Ticket : Type 0 where
  pub user_id : String
  pub scope : TicketScope
  pub instance_id : Option String
  pub expires_at : ℕ

abbrev pub ticket_ttl_ms : ℕ
ticket_ttl_ms = 30000

abbrev pub selkies_ticket_ttl_ms : ℕ
selkies_ticket_ttl_ms = 120000

abbrev pub ttl_of : TicketScope → ℕ
ttl_of selkies = selkies_ticket_ttl_ms
ttl_of _ = ticket_ttl_ms

pub record TicketInput : Type 0 where
  pub user_id : String
  pub scope : TicketScope
  pub instance_id : Option String

pub issue_ticket : String → ℕ → TicketInput → Dict Ticket → String × Dict Ticket
issue_ticket token now input tickets = (
  token,
  Dict.set tickets token (record {
    user_id = input.user_id;
    scope = input.scope;
    instance_id = input.instance_id;
    expires_at = now + ttl_of input.scope;
  }),
)

-- The checks of `consumeTicket` on a ticket that has just been removed.
abbrev pub accepted : TicketScope → Option String → ℕ → Ticket → Option Ticket
accepted required_scope instance_id now ticket =
    if ltb ticket.expires_at now
    then none
    else if not (same_scope ticket.scope required_scope)
    then none
    else if not (same_id instance_id ticket.instance_id)
    then none
    else some ticket

-- `!token` holds of a missing token and of the empty one.
unfoldable pub consume_ticket :
    Option String → TicketScope → Option String → ℕ → Dict Ticket → Option Ticket × Dict Ticket
consume_ticket none required_scope instance_id now tickets = (none, tickets)
consume_ticket (some token) required_scope instance_id now tickets =
    if token == "" then (none, tickets) else elim (Dict.get tickets token) [
      | none ↦ (none, tickets)
      | some ticket ↦ (accepted required_scope instance_id now ticket, Dict.remove tickets token)
    ]

pub sweep : ℕ → Dict Ticket → Dict Ticket
sweep now tickets = Dict.keep (λ t. not (ltb t.expires_at now)) tickets

pub record InstanceTicketResponse : Type 0 where
  pub ticket : String
  pub expires_in : ℕ

abbrev pub ticket_expires_in_seconds : ℕ
ticket_expires_in_seconds = 30

-- Seconds until expiry, as the response states it.
abbrev pub expires_in_of : TicketScope → ℕ
expires_in_of selkies = selkies_ticket_ttl_ms / 1000
expires_in_of _ = ticket_expires_in_seconds

pub mint_instance_ticket :
    String → ℕ → String → String → TicketScope → Dict Ticket → InstanceTicketResponse × Dict Ticket
mint_instance_ticket token now user_id instance_id scope tickets =
    let (ticket, tickets') =
      issue_ticket token now
        (record { user_id = user_id; scope = scope; instance_id = some instance_id }) tickets in
    (record { ticket = ticket; expires_in = expires_in_of scope }, tickets')
