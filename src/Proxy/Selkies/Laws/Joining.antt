-- ===== src/Proxy/Selkies/Laws/Joining.antt =====
-- Two requests at once with one token, for two instances.
use obs_instance_manager.Prelude.{
  ℕ, String, ◌≤◌, ◌≡◌, sym, ◌≢◌, Bool, some, [], ◌∷◌, arith, eq_refl,
}
use obs_instance_manager.Prelude.Dict
use obs_instance_manager.Prelude.Dict.{Dict}
use obs_instance_manager.Auth.Tickets.{TicketScope, Ticket}
use obs_instance_manager.Auth.Tickets.Laws.{consume_ticket_iff}
use obs_instance_manager.Auth.Viewer
use obs_instance_manager.Auth.Viewer.{ViewerSession}
use obs_instance_manager.Proxy.Selkies.{
  found, answered, container, begin_start, session_for, on_lookup, on_resume, asks, lookup_answered,
  request_resumes, handle, history, mounted,
}

-- A request joins the start of another instance: when a good ticket of the viewer is presented for
-- its instance `id`, and before the lookup ends the same token is presented for any other id, then
-- the lookup of the first instance answers the second request with the session of `id`, although
-- no ticket was issued for the second and no lookup of it was made.
pub joined_other :
    (tickets : Dict Ticket) (store : ℕ → ViewerSession) (token id other name : String)
    (at later : ℕ) (recheck again : Bool) (ticket : Ticket)
    → Dict.get tickets token ≡ some ticket
    → token ≢ ""
    → at ≤ ticket.expires_at
    → ticket.scope ≡ TicketScope.selkies
    → ticket.instance_id ≡ some id
    → let s =
        history
          (asks at token id recheck
            ∷ asks at token other again
            ∷ lookup_answered later 0 (container name)
            ∷ request_resumes 2
            ∷ [])
          (mounted tickets store) in
      (s.requests 2 ≡ some (record { token = token; id = other; state = answered (found 0) }))
      × ((s.viewers.store 0).ticket ≡ ticket)
      × ((s.viewers.store 0).container_name ≡ name)
unfolding history handle session_for begin_start on_lookup on_resume Viewer.get Viewer.start
    Dict.get Dict.set
joined_other tickets store token id other name at later recheck again ticket e ne l f g =
    let c =
      (consume_ticket_iff token TicketScope.selkies (some id) at tickets ticket).1
        (ne, e, l, f, sym g) in
    grind (arith, c, eq_refl token)
