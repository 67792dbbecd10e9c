-- ===== src/Auth/Tickets/Laws.antt =====
-- When a ticket is accepted, and what a consume leaves behind.
use obs_instance_manager.Prelude.{
  ℕ, ◌+◌, ◌≤◌, String, ◌≡◌, refl, ◌≢◌, ◌↔◌, inl, inr, true, Option, none, some, arith, ltb,
  if◌then◌else◌, ◌==◌, eq_iff, eq_refl, Option-cases,
}
use obs_instance_manager.Prelude.Dict
use obs_instance_manager.Prelude.Dict.{Dict, get-remove, get-set, get-keep, dict_laws}
use obs_instance_manager.Auth.Tickets.{
  Ticket, TicketScope, metrics, obsws, selkies, same_scope, same_id, accepted, issue_ticket,
  consume_ticket, ttl_of, TicketInput,
}

pub same_scope_iff : (a b : TicketScope) → (same_scope a b ≡ true) ↔ (a ≡ b)
same_scope_iff metrics b = ground arith
same_scope_iff obsws b = ground arith
same_scope_iff selkies b = ground arith

pub same_id_iff : (a b : Option String) → (same_id a b ≡ true) ↔ (a ≡ b)
same_id_iff none b = ground arith
same_id_iff (some a) none = ground arith
same_id_iff (some a) (some b) = ground (arith, eq_iff a b)

-- A ticket passes the checks exactly when it has not expired and names the scope and the instance.
pub accepted_iff :
    (scope : TicketScope) (id : Option String) (now : ℕ) (t u : Ticket)
    → (accepted scope id now t ≡ some u)
      ↔ ((now ≤ t.expires_at) × (t.scope ≡ scope) × (id ≡ t.instance_id) × (t ≡ u))
accepted_iff scope id now t u =
    ground (arith, same_scope_iff t.scope scope, same_id_iff id t.instance_id)

-- A token is accepted exactly when it is not empty and the map holds a ticket for it that has not
-- expired and names the required scope and instance.
pub consume_ticket_iff :
    (token : String) (scope : TicketScope) (id : Option String) (now : ℕ) (m : Dict Ticket)
    (t : Ticket)
    → ((consume_ticket (some token) scope id now m).0 ≡ some t) ↔ (
        (token ≢ "")
        × (Dict.get m token ≡ some t)
        × (now ≤ t.expires_at)
        × (t.scope ≡ scope)
        × (id ≡ t.instance_id))
unfolding consume_ticket
consume_ticket_iff token scope id now m t = elim (Option-cases (Dict.get m token)) [
  | inl e ↦ rw (e, consume_ticket) (ground (arith, eq_iff token ""))
  | inr (u, e) ↦
      rw (e, consume_ticket)
        (ground
          (arith, eq_iff token "", same_scope_iff u.scope scope, same_id_iff id u.instance_id))
]

-- What a consume leaves of any token: nothing of the one presented, the rest as it was.
pub get-consume_ticket :
    (token j : String) (scope : TicketScope) (id : Option String) (now : ℕ) (m : Dict Ticket)
    → token ≢ ""
    → Dict.get (consume_ticket (some token) scope id now m).1 j
      ≡ (if token == j then none else Dict.get m j)
unfolding consume_ticket
get-consume_ticket token j scope id now m h = elim (Option-cases (Dict.get m token)) [
  | inl e ↦ rw (e, consume_ticket) (ground (arith, eq_iff token "", eq_iff token j))
  | inr (u, e) ↦ rw (e, consume_ticket) (ground (arith, eq_iff token "", get-remove m token j))
]

-- A token that the map does not hold is refused.
pub consume_ticket-missing :
    (token : String) (scope : TicketScope) (id : Option String) (now : ℕ) (m : Dict Ticket)
    → Dict.get m token ≡ none
    → (consume_ticket (some token) scope id now m).0 ≡ none
unfolding consume_ticket
consume_ticket-missing token scope id now m e = ground arith

-- Whatever the first consume of a token answered, a second one is refused, for every scope,
-- instance and time.
pub consume_ticket_twice :
    (token : String) (scope scope' : TicketScope) (id id' : Option String) (now now' : ℕ)
    (m : Dict Ticket)
    → (consume_ticket (some token) scope' id' now' (consume_ticket (some token) scope id now m).1).0
      ≡ none
unfolding consume_ticket
consume_ticket_twice token scope scope' id id' now now' m = elim (Option-cases (Dict.get m token)) [
  | inl e ↦ rw (e, consume_ticket) (ground arith)
  | inr (u, e) ↦
      rw (e, consume_ticket)
        (ground (arith, eq_iff token "", get-remove m token token, eq_refl token))
]

-- A ticket just issued is accepted for its scope and instance up to and including the last
-- millisecond of its lifetime, with the user that it was issued for, and not later.
pub consume-issue :
    (token : String) (input : TicketInput) (now later : ℕ) (m : Dict Ticket)
    → token ≢ ""
    → ((t : Ticket) × ((consume_ticket
            (some token)
            input.scope
            input.instance_id
            later
            (issue_ticket token now input m).1).0
          ≡ (if ltb (now + ttl_of input.scope) later then none else some t))
        × (t.user_id ≡ input.user_id))
unfolding consume_ticket issue_ticket
consume-issue token input now later m h = (
  record {
    user_id = input.user_id;
    scope = input.scope;
    instance_id = input.instance_id;
    expires_at = now + ttl_of input.scope;
  },
  rw (get-set m token token _, eq_refl token, consume_ticket)
      (ground (
        arith,
        eq_iff token "",
        same_scope_iff input.scope input.scope,
        same_id_iff input.instance_id input.instance_id,
      )),
  refl,
)
