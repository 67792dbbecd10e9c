-- ===== src/Proxy/Selkies/Laws/Invariant.antt =====
-- What holds of the sessions, starts and requests between any two events, for a token that is
-- presented for one instance only.
use obs_instance_manager.Prelude.{
  ℕ, ◌≤◌, ◌<◌, String, ◌≡◌, ◌≢◌, inl, inr, Option, none, some, arith, put, eq_iff, Option-cases,
}
use obs_instance_manager.Prelude.Dict
use obs_instance_manager.Prelude.Dict.{Dict, get-set, get-remove, get-keep}
use obs_instance_manager.Auth.Tickets.{TicketScope, Ticket, consume_ticket}
use obs_instance_manager.Auth.Tickets.Laws.{consume_ticket_iff}
use obs_instance_manager.Auth.Viewer
use obs_instance_manager.Auth.Viewer.{ViewerSession, ViewerSessions, is_live, put_session}
use obs_instance_manager.Proxy.Selkies.{
  found, looking_up, settled, Start, rechecking, waiting, answered, Request, Viewing, container,
  state_of_ticket, begin_start, after_lookup,
}

abbrev pub start_token : Option Start → Option String
start_token none = none
start_token (some x) = some x.token

-- The session of this ticket was opened with a ticket for the viewer of the instance.
abbrev pub IsFor : String → ViewerSession → Type 0
IsFor id x = (x.ticket.scope ≡ TicketScope.selkies) × (x.ticket.instance_id ≡ some id)

module _ (token id : String) where
  pub record Inv (sessions : Dict ℕ) (store : ℕ → ViewerSession) (top : ℕ) (starting : Dict ℕ)
      (starts : ℕ → Option Start) (requests : ℕ → Option Request) (next : ℕ) : Type 0 where
    pub mapped :
        (t : String) (r : ℕ)
        → Dict.get sessions t ≡ some r
        → (r < top) × ((store r).ticket.scope ≡ TicketScope.selkies)
    pub opened :
        (p r : ℕ) (x : Start)
        → starts p ≡ some x
        → x.state ≡ settled (found r)
        → (r < top) × IsFor x.id (store r)
    pub spent :
        (p : ℕ) (x : Start) (t : Ticket)
        → starts p ≡ some x
        → x.state ≡ looking_up t
        → (t.scope ≡ TicketScope.selkies) × (t.instance_id ≡ some x.id)
    pub checked :
        (q r : ℕ) (x : Request)
        → requests q ≡ some x
        → x.state ≡ rechecking r
        → (r < top) × IsFor x.id (store r)
    pub reached :
        (q r : ℕ) (x : Request)
        → requests q ≡ some x
        → x.state ≡ answered (found r)
        → x.token ≡ token
        → (r < top) × IsFor id (store r)
    pub awaited :
        (q p : ℕ) (x : Request)
        → requests q ≡ some x
        → x.state ≡ waiting p
        → start_token (starts p) ≡ some x.token
    pub pending :
        (t : String) (p : ℕ) → Dict.get starting t ≡ some p → start_token (starts p) ≡ some t
    pub begun : (p : ℕ) (x : Start) → starts p ≡ some x → p < next
    pub one_start : (p : ℕ) (x : Start) → starts p ≡ some x → x.token ≡ token → x.id ≡ id
    pub one_request : (q : ℕ) (x : Request) → requests q ≡ some x → x.token ≡ token → x.id ≡ id

  abbrev pub InvOf : Viewing → Type 0
  InvOf s =
      Inv s.viewers.sessions s.viewers.store s.viewers.next s.starting s.starts s.requests s.next

  module _ (s : Viewing) (v : InvOf s) where
    -- A session that changes keeps its ticket.
    pub touch-Inv :
        (r : ℕ) (x : ViewerSession)
        → x.ticket ≡ (s.viewers.store r).ticket
        → Inv s.viewers.sessions
            (put_session s.viewers.store r x)
            s.viewers.next
            s.starting
            s.starts
            s.requests
            s.next
    touch-Inv r x e = record {
      mapped = λ t q f. grind (arith, v.mapped t q f);
      opened = λ p q y f g. grind (arith, v.opened p q y f g);
      spent = v.spent;
      checked = λ p q y f g. grind (arith, v.checked p q y f g);
      reached = λ p q y f g h. grind (arith, v.reached p q y f g h);
      awaited = v.awaited;
      pending = v.pending;
      begun = v.begun;
      one_start = v.one_start;
      one_request = v.one_request;
    }

    -- A request in a new state, or a new one.
    pub put_request-Inv :
        (q k : ℕ) (x : Request)
        → s.next ≤ k
        → (x.token ≡ token → x.id ≡ id)
        → ((r : ℕ) → x.state ≡ rechecking r → (r < s.viewers.next) × IsFor x.id (s.viewers.store r))
        → ((r : ℕ)
            → x.state ≡ answered (found r)
            → x.token ≡ token
            → (r < s.viewers.next) × IsFor id (s.viewers.store r))
        → ((p : ℕ) → x.state ≡ waiting p → start_token (s.starts p) ≡ some x.token)
        → Inv s.viewers.sessions s.viewers.store s.viewers.next s.starting s.starts
            (put s.requests q (some x))
            k
    put_request-Inv q k x l a b c d = record {
      mapped = v.mapped;
      opened = v.opened;
      spent = v.spent;
      checked = λ j r y f g. grind (arith, v.checked j r y, b r);
      reached = λ j r y f g h. grind (arith, v.reached j r y, c r);
      awaited = λ j p y f g. grind (arith, v.awaited j p y, d p);
      pending = v.pending;
      begun = λ p y f. grind (arith, v.begun p y);
      one_start = v.one_start;
      one_request = λ j y f g. grind (arith, v.one_request j y, a);
    }

    -- A start that settles, with a session or without.
    pub put_start-Inv :
        (p : ℕ) (x y : Start)
        → s.starts p ≡ some x
        → y.token ≡ x.token
        → y.id ≡ x.id
        → ((t : Ticket) → y.state ≢ looking_up t)
        → ((r : ℕ)
            → y.state ≡ settled (found r)
            → (r < s.viewers.next) × IsFor y.id (s.viewers.store r))
        → Inv s.viewers.sessions s.viewers.store s.viewers.next s.starting
            (put s.starts p (some y))
            s.requests
            s.next
    put_start-Inv p x y e a b c d = record {
      mapped = v.mapped;
      opened = λ j r z f g. grind (arith, v.opened j r z, d r);
      spent = λ j z t f g. grind (arith, v.spent j z t, c t);
      checked = v.checked;
      reached = v.reached;
      awaited = λ j k z f g. grind (arith, v.awaited j k z f g);
      pending = λ t k f. grind (arith, v.pending t k f);
      begun = λ k z f. grind (arith, v.begun k z, v.begun p x e);
      one_start = λ k z f g. grind (arith, v.one_start k z, v.one_start p x e);
      one_request = v.one_request;
    }

    -- The map of sessions may lose entries.
    pub lose-Inv :
        (sessions : Dict ℕ)
        → ((t : String) (r : ℕ)
            → Dict.get sessions t ≡ some r
            → Dict.get s.viewers.sessions t ≡ some r)
        → Inv sessions s.viewers.store s.viewers.next s.starting s.starts s.requests s.next
    lose-Inv sessions h = record {
      mapped = λ t r e. v.mapped t r (h t r e);
      opened = v.opened;
      spent = v.spent;
      checked = v.checked;
      reached = v.reached;
      awaited = v.awaited;
      pending = v.pending;
      begun = v.begun;
      one_start = v.one_start;
      one_request = v.one_request;
    }

    pub forget-Inv :
        (t : String)
        → Inv s.viewers.sessions s.viewers.store s.viewers.next
            (Dict.remove s.starting t)
            s.starts
            s.requests
            s.next
    forget-Inv t = record {
      mapped = v.mapped;
      opened = v.opened;
      spent = v.spent;
      checked = v.checked;
      reached = v.reached;
      awaited = v.awaited;
      pending = λ u p e. grind (arith, v.pending u p, get-remove s.starting t u);
      begun = v.begun;
      one_start = v.one_start;
      one_request = v.one_request;
    }

    -- A start whose lookup has found the instance opens a session.
    pub start_session-Inv :
        (at p : ℕ) (x : Start) (ticket : Ticket) (name : String)
        → s.starts p ≡ some x
        → x.state ≡ looking_up ticket
        → InvOf (after_lookup at p x ticket (container name) s)
    unfolding Viewer.start
    start_session-Inv at p x ticket name e a = record {
      mapped = λ t r f. grind (
        arith,
        v.mapped t r,
        v.spent p x ticket e a,
        get-set s.viewers.sessions x.token t s.viewers.next,
      );
      opened = λ j r z f g. grind (arith, v.opened j r z, v.spent p x ticket e a);
      spent = λ j z t f g. grind (arith, v.spent j z t);
      checked = λ q r y f g. grind (arith, v.checked q r y f g);
      reached = λ q r y f g h. grind (arith, v.reached q r y f g h);
      awaited = λ j k z f g. grind (arith, v.awaited j k z f g);
      pending = λ t k f. grind (arith, v.pending t k f);
      begun = λ k z f. grind (arith, v.begun k z, v.begun p x e);
      one_start = λ k z f g. grind (arith, v.one_start k z, v.one_start p x e);
      one_request = v.one_request;
    }

    -- What a start holds when it begins, of the ticket that it has spent.
    looks_up :
        (at : ℕ) (tok i : String) (t : Ticket)
        → state_of_ticket (consume_ticket (some tok) TicketScope.selkies (some i) at s.tickets).0
          ≡ looking_up t
        → (t.scope ≡ TicketScope.selkies) × (t.instance_id ≡ some i)
    looks_up at tok i t e =
        elim (Option-cases
          (consume_ticket (some tok) TicketScope.selkies (some i) at s.tickets).0) [
            | inl f ↦ ground (arith, f)
            | inr (u, f) ↦
                ground
                  (arith, f, consume_ticket_iff tok TicketScope.selkies (some i) at s.tickets u)
          ]

    begins_open : (o : Option Ticket) (r : ℕ) → state_of_ticket o ≢ settled (found r)
    begins_open none r = λ e. ground arith
    begins_open (some t) r = λ e. ground arith

    pub begin_start-Inv :
        (at : ℕ) (tok i : String) → (tok ≡ token → i ≡ id) → InvOf (begin_start at tok i s)
    unfolding begin_start
    begin_start-Inv at tok i one =
        let o = (consume_ticket (some tok) TicketScope.selkies (some i) at s.tickets).0 in
        record {
          mapped = v.mapped;
          opened = λ j r z f g. grind (arith, v.opened j r z, begins_open o r);
          spent = λ j z t f g. grind (arith, v.spent j z t, looks_up at tok i t);
          checked = λ q r y f g. grind (arith, v.checked q r y);
          reached = λ q r y f g h. grind (arith, v.reached q r y);
          awaited = λ j k z f g. grind (arith, v.awaited j k z);
          pending =
              λ t k f. grind (arith, v.pending t k, get-set s.starting tok t s.next, eq_iff tok t);
          begun = λ k z f. grind (arith, v.begun k z);
          one_start = λ k z f g. grind (arith, v.one_start k z, one);
          one_request = λ k z f g. grind (arith, v.one_request k z, one);
        }
