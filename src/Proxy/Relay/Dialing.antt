-- ===== src/Proxy/Relay/Dialing.antt =====
-- Whom the relay dials for.
use obs_instance_manager.Prelude.{
  ℕ, ◌≤◌, String, ◌≡◌, refl, ◌≢◌, ◌↔◌, Option, none, some, [], ◌∷◌, arith, if◌then◌else◌, ◌==◌,
}
use obs_instance_manager.Prelude.Dict
use obs_instance_manager.Prelude.Dict.{Dict}
use obs_instance_manager.Auth.Tickets.{TicketScope, Ticket, consume_ticket}
use obs_instance_manager.Auth.Tickets.Laws.{consume_ticket_iff, get-consume_ticket}
use obs_instance_manager.Proxy.Relay.{
  new_relay, GetInstance, looked_up, proxy_access, open_found, open_with, on_open,
}

module _ (D : Type 0) (name : String) where
  dialed-found :
      (o : Option String)
      → ((open_found o (new_relay {D = D})).dialed ≡ name ∷ []) ↔ (o ≡ some name)
  dialed-found none = ground arith
  dialed-found (some n) = ground arith

  dialed-open :
      (t : Option Ticket) (get_instance : GetInstance) (id : String)
      → ((open_with t (looked_up get_instance id t) (new_relay {D = D})).dialed ≡ name ∷ [])
        ↔ ((u : Ticket) × (t ≡ some u) × (get_instance id u ≡ some name))
  dialed-open none get_instance id = (λ e. ground arith, λ p. ground (arith, p.1))
  dialed-open (some u) get_instance id = (
    λ e. (u, refl, (dialed-found (get_instance id u)).0 e),
    λ p. (dialed-found (get_instance id u)).1 (ground (arith, p.1, p.2)),
  )

  -- With a token that is not empty, a connection that opens dials the container `name` exactly when
  -- the map holds a ticket for the token, of the route's scope and for the route's instance, that
  -- has not expired, and the lookup with that ticket finds this container. In every case the token
  -- is spent by then, and every other token `j` is as it was.
  pub dialed_iff :
      (token : String) (scope : TicketScope) (get_instance : GetInstance) (id : String) (now : ℕ)
      (m : Dict Ticket) (j : String)
      → token ≢ ""
      → let (access, m') = proxy_access (some token) scope get_instance id now m in
        (((on_open access (new_relay {D = D})).dialed ≡ name ∷ []) ↔ (
          (t : Ticket) × (Dict.get m token ≡ some t)
          × (now ≤ t.expires_at)
          × (t.scope ≡ scope)
          × (some id ≡ t.instance_id)
          × (get_instance id t ≡ some name)))
        × (Dict.get m' j ≡ (if token == j then none else Dict.get m j))
  unfolding proxy_access on_open
  dialed_iff token scope get_instance id now m j ne = (
    (
      λ e.
          let (t, q, g) =
            (dialed-open (consume_ticket (some token) scope (some id) now m).0 get_instance id).0
              e in
          let (a, b, c, d, f) = (consume_ticket_iff token scope (some id) now m t).0 q in
          (t, b, c, d, f, g),
      λ (t, b, c, d, f, g).
          (dialed-open (consume_ticket (some token) scope (some id) now m).0 get_instance id).1
            (t, (consume_ticket_iff token scope (some id) now m t).1 (ne, b, c, d, f), g),
    ),
    get-consume_ticket token j scope (some id) now m ne,
  )
