-- ===== src/Proxy/Selkies/Laws/Access.antt =====
-- Every event keeps the invariant, and so a request reaches only its own instance.
use obs_instance_manager.Prelude.{
  option_cases, ℕ, ◌+◌, ◌<◌, String, ◌≡◌, refl, sym, subst, inl, inr, Bool, true, false, Option,
  none, some, List, [], ◌∷◌, arith, put,
}
use obs_instance_manager.Prelude.Dict
use obs_instance_manager.Prelude.Dict.{Dict, get-set, get-remove, get-keep}
use obs_instance_manager.Auth.Tickets.{TicketScope, Ticket}
use obs_instance_manager.Auth.Viewer
use obs_instance_manager.Auth.Viewer.{ViewerSession, ViewerSessions, is_live, closed}
use obs_instance_manager.Auth.Viewer.Laws.{get_session_iff, get_session-left}
use obs_instance_manager.Proxy.Selkies.{
  Outcome, found, refused, thrown, StartState, looking_up, settled, Start, RequestState, rechecking,
  waiting, answered, Request, Viewing, Lookup, container, no_instance, lookup_thrown, join_or_start,
  with_existing, session_for, moved_to, after_recheck, rechecked, on_recheck, after_lookup,
  looked_up, on_lookup, forget, on_settled, outcome_of, resumed_with, resumed, on_resume, Event,
  asks, recheck_answered, lookup_answered, start_settled, request_resumes, tickets_change,
  socket_opens, socket_closes, sweeps, handle, history, mounted,
}
use obs_instance_manager.Proxy.Selkies.Laws.Invariant.{
  IsFor, Inv, InvOf, touch-Inv, put_request-Inv, put_start-Inv, lose-Inv, forget-Inv,
  start_session-Inv, begin_start-Inv,
}

module _ (token id : String) (s : Viewing) (v : InvOf token id s) where
  join-Inv :
      (at : ℕ) (tok i : String) (o : Option ℕ)
      → (tok ≡ token → i ≡ id)
      → Dict.get s.starting tok ≡ o
      → InvOf token id (join_or_start at tok i o s)
  join-Inv at tok i (some p) one e =
      put_request-Inv token id s v s.next (s.next + 1)
        (record { token = tok; id = i; state = waiting p }) (omega arith) one (λ r f. ground arith)
        (λ r f. ground arith) (λ q f. grind (arith, v.pending tok p e))
  join-Inv at tok i none one e = begin_start-Inv token id s v at tok i one

  existing-Inv :
      (at : ℕ) (tok i : String) (recheck : Bool) (o : Option ℕ)
      → (tok ≡ token → i ≡ id)
      → ((r : ℕ) → o ≡ some r → (r < s.viewers.next) × IsFor i (s.viewers.store r))
      → InvOf token id (with_existing at tok i recheck o s)
  existing-Inv at tok i true (some r) one h =
      put_request-Inv token id s v s.next (s.next + 1)
        (record { token = tok; id = i; state = rechecking r }) (omega arith) one
        (λ q f. grind (arith, h r refl)) (λ q f. ground arith) (λ q f. ground arith)
  existing-Inv at tok i false (some r) one h =
      put_request-Inv token id s v s.next (s.next + 1)
        (record { token = tok; id = i; state = answered (found r) }) (omega arith) one
        (λ q f. ground arith) (λ q f g. grind (arith, h r refl, one)) (λ q f. ground arith)
  existing-Inv at tok i recheck none one h = join-Inv at tok i (Dict.get s.starting tok) one refl

  -- A request that is answered with a session, if it is one that it may reach, or without one.
  answer-Inv :
      (q : ℕ) (x : Request) (o : Outcome)
      → s.requests q ≡ some x
      → ((r : ℕ)
          → o ≡ found r
          → x.token ≡ token
          → (r < s.viewers.next) × IsFor id (s.viewers.store r))
      → InvOf token id
          (record s { requests = put s.requests q (some (record x { state = answered o })) })
  answer-Inv q x o e h =
      put_request-Inv token id s v q s.next (record x { state = answered o }) (omega arith)
        (v.one_request q x e) (λ r f. ground arith) (λ r f. h r (ground arith))
        (λ p f. ground arith)

module _ (token id : String) (s : Viewing) (v : InvOf token id s) where
  recheck-Inv :
      (q r : ℕ) (x : Request) (reply : Lookup)
      → s.requests q ≡ some x
      → x.state ≡ rechecking r
      → InvOf token id (after_recheck q r x reply s)
  unfolding Viewer.end
  recheck-Inv q r x (container name) e a =
      let s' : Viewing = record s {
        viewers = record s.viewers {
          store = Viewer.put_session s.viewers.store r (moved_to name (s.viewers.store r));
        };
      } in
      answer-Inv token id s' (touch-Inv token id s v r (moved_to name (s.viewers.store r)) refl) q x
        (found r) e (λ k f g. grind (arith, v.checked q r x e a, v.one_request q x e))
  recheck-Inv q r x no_instance e a =
      let s' : Viewing = record s { viewers = Viewer.end x.token s.viewers } in
      answer-Inv token id s' ended q x refused e (λ k f. ground arith)
    where
      ended :
          Inv token id
            (Dict.remove s.viewers.sessions x.token)
            s.viewers.store
            s.viewers.next
            s.starting
            s.starts
            s.requests
            s.next
      ended =
          lose-Inv token id s v (Dict.remove s.viewers.sessions x.token)
            (λ t k f. ground (arith, get-remove s.viewers.sessions x.token t))
  recheck-Inv q r x lookup_thrown e a = answer-Inv token id s v q x thrown e (λ k f. ground arith)

  rechecked-Inv :
      (q : ℕ) (x : Request) (st : RequestState) (reply : Lookup)
      → s.requests q ≡ some x
      → x.state ≡ st
      → InvOf token id (rechecked q x st reply s)
  rechecked-Inv q x (rechecking r) reply e a = recheck-Inv q r x reply e a
  rechecked-Inv q x (waiting p) reply e a = v
  rechecked-Inv q x (answered o) reply e a = v

  lookup-Inv :
      (at p : ℕ) (x : Start) (t : Ticket) (reply : Lookup)
      → s.starts p ≡ some x
      → x.state ≡ looking_up t
      → InvOf token id (after_lookup at p x t reply s)
  lookup-Inv at p x t (container name) e a = start_session-Inv token id s v at p x t name e a
  lookup-Inv at p x t no_instance e a =
      put_start-Inv token id s v p x (record x { state = settled refused }) e refl refl
        (λ u f. ground arith) (λ u f. ground arith)
  lookup-Inv at p x t lookup_thrown e a =
      put_start-Inv token id s v p x (record x { state = settled thrown }) e refl refl
        (λ u f. ground arith) (λ u f. ground arith)

  looked_up-Inv :
      (at p : ℕ) (x : Start) (st : StartState) (reply : Lookup)
      → s.starts p ≡ some x
      → x.state ≡ st
      → InvOf token id (looked_up at p x st reply s)
  looked_up-Inv at p x (looking_up t) reply e a = lookup-Inv at p x t reply e a
  looked_up-Inv at p x (settled o) reply e a = v

  forgotten-Inv : (x : Start) (st : StartState) → InvOf token id (forget x st s)
  forgotten-Inv x (settled o) = forget-Inv token id s v x.token
  forgotten-Inv x (looking_up t) = v

  -- What a request that waited for a start is answered with.
  outcome-start :
      (q p : ℕ) (x : Request) (o : Option Start) (w : Outcome)
      → s.requests q ≡ some x
      → x.state ≡ waiting p
      → s.starts p ≡ o
      → outcome_of o ≡ some w
      → (r : ℕ) → w ≡ found r
      → x.token ≡ token
      → (r < s.viewers.next) × IsFor id (s.viewers.store r)
  outcome-start q p x none w e a f g r h i = ground arith
  outcome-start q p x (some y) w e a f g r h i = by_state y.state refl
    where
      by_state :
          (st : StartState) → y.state ≡ st → (r < s.viewers.next) × IsFor id (s.viewers.store r)
      by_state (looking_up t) k = grind (arith, g)
      by_state (settled u) k =
          grind (arith, g, v.opened p r y f, v.one_start p y f, v.awaited q p x e a)

  resumed_with-Inv :
      (q p : ℕ) (x : Request) (o : Option Outcome)
      → s.requests q ≡ some x
      → x.state ≡ waiting p
      → outcome_of (s.starts p) ≡ o
      → InvOf token id (resumed_with q x o s)
  resumed_with-Inv q p x none e a f = v
  resumed_with-Inv q p x (some w) e a f =
      answer-Inv token id s v q x w e (outcome-start q p x (s.starts p) w e a refl f)

  resumed-Inv :
      (q : ℕ) (x : Request) (st : RequestState)
      → s.requests q ≡ some x
      → x.state ≡ st
      → InvOf token id (resumed q x st s)
  resumed-Inv q x (waiting p) e a = resumed_with-Inv q p x (outcome_of (s.starts p)) e a refl
  resumed-Inv q x (rechecking r) e a = v
  resumed-Inv q x (answered o) e a = v

-- The event does not present the token for another instance.
abbrev pub IsSingle : String → String → Event → Type 0
IsSingle token id (asks at tok i recheck) = tok ≡ token → i ≡ id
IsSingle token id _ = Unit

abbrev pub AllSingle : String → String → List Event → Type 0
AllSingle token id [] = Unit
AllSingle token id (e ∷ es) = IsSingle token id e × AllSingle token id es

module _ (token id : String) where
  session_for-Inv :
      (at : ℕ) (tok i : String) (recheck : Bool) (s : Viewing)
      → InvOf token id s
      → (tok ≡ token → i ≡ id)
      → InvOf token id (session_for at tok i recheck s)
  unfolding session_for
  session_for-Inv at tok i recheck s v one = elim (get_session-left at tok i s.viewers) [
    | inl same ↦
        existing-Inv token id (left (Viewer.get at tok i s.viewers).1)
          (subst (λ (w : ViewerSessions). InvOf token id (left w)) (sym same) v) at tok i recheck
          (Viewer.get at tok i s.viewers).0 one
          (λ r e.
            subst (λ (w : ViewerSessions). (r < w.next) × IsFor i (w.store r)) (sym same)
              (reach r e))
    | inr gone ↦
        existing-Inv token id (left (Viewer.get at tok i s.viewers).1)
          (subst (λ (w : ViewerSessions). InvOf token id (left w)) (sym gone) lost) at tok i recheck
          (Viewer.get at tok i s.viewers).0 one
          (λ r e.
            subst (λ (w : ViewerSessions). (r < w.next) × IsFor i (w.store r)) (sym gone)
              (reach r e))
  ]
    where
      left : ViewerSessions → Viewing
      left w = record s { viewers = w }

      lost :
          Inv token id
            (Dict.remove s.viewers.sessions tok)
            s.viewers.store
            s.viewers.next
            s.starting
            s.starts
            s.requests
            s.next
      lost =
          lose-Inv token id s v (Dict.remove s.viewers.sessions tok)
            (λ t k f. ground (arith, get-remove s.viewers.sessions tok t))

      reach :
          (r : ℕ)
          → (Viewer.get at tok i s.viewers).0 ≡ some r
          → (r < s.viewers.next) × IsFor i (s.viewers.store r)
      reach r e =
          let (a, b, c, d) = (get_session_iff at tok i s.viewers r).0 e in
          let (l, f) = v.mapped tok r a in (l, (f, d))

  handle-Inv :
      (e : Event) (s : Viewing)
      → IsSingle token id e
      → InvOf token id s
      → InvOf token id (handle e s)
  unfolding handle on_recheck on_lookup on_settled on_resume Viewer.socket_opened
      Viewer.socket_closed Viewer.sweep_sessions
  handle-Inv (asks at tok i recheck) s one v = session_for-Inv at tok i recheck s v one
  handle-Inv (recheck_answered q reply) s one v =
      option_cases (InvOf token id) (s.requests q) (λ e. v)
        (λ x e. rechecked-Inv token id s v q x x.state reply e refl)
  handle-Inv (lookup_answered at p reply) s one v =
      option_cases (InvOf token id) (s.starts p) (λ e. v)
        (λ x e. looked_up-Inv token id s v at p x x.state reply e refl)
  handle-Inv (start_settled p) s one v =
      option_cases (InvOf token id) (s.starts p) (λ e. v)
        (λ x e. forgotten-Inv token id s v x x.state)
  handle-Inv (request_resumes q) s one v =
      option_cases (InvOf token id) (s.requests q) (λ e. v)
        (λ x e. resumed-Inv token id s v q x x.state e refl)
  handle-Inv (tickets_change tickets) s one v = v
  handle-Inv (socket_opens r) s one v =
      touch-Inv token id s v r
        (record (s.viewers.store r) { open_sockets = (s.viewers.store r).open_sockets + 1 }) refl
  handle-Inv (socket_closes at r) s one v =
      touch-Inv token id s v r (closed at (s.viewers.store r)) (ground arith)
  handle-Inv (sweeps at) s one v =
      lose-Inv token id s v _ (λ t r e.
        ground (arith, get-keep (λ q. is_live at (s.viewers.store q)) s.viewers.sessions t))

  history-Inv :
      (es : List Event) (s : Viewing)
      → AllSingle token id es
      → InvOf token id s
      → InvOf token id (history es s)
  unfolding history
  history-Inv [] s one v = v
  history-Inv (e ∷ es) s (one, ones) v = history-Inv es (handle e s) ones (handle-Inv e s one v)

  mounted-Inv :
      (tickets : Dict Ticket) (store : ℕ → ViewerSession) → InvOf token id (mounted tickets store)
  unfolding Dict.get
  mounted-Inv tickets store = record {
    mapped = λ t r e. cc;
    opened = λ p r x e. cc;
    spent = λ p x t e. cc;
    checked = λ q r x e. cc;
    reached = λ q r x e. cc;
    awaited = λ q p x e. cc;
    pending = λ t p e. cc;
    begun = λ p x e. cc;
    one_start = λ p x e. cc;
    one_request = λ q x e. cc;
  }

-- In every history of the viewer's requests, if a token is presented for one instance only, then a
-- request with this token that gets a session gets one that was opened with a ticket of the
-- viewer's scope for this instance; whatever becomes of the tickets meanwhile, and in whatever
-- order the lookups end.
pub reached_own :
    (token id : String) (es : List Event) (tickets : Dict Ticket) (store : ℕ → ViewerSession)
    (q r : ℕ) (x : Request)
    → AllSingle token id es
    → (history es (mounted tickets store)).requests q ≡ some x
    → x.token ≡ token
    → x.state ≡ answered (found r)
    → let s = history es (mounted tickets store) in
      ((s.viewers.store r).ticket.scope ≡ TicketScope.selkies)
      × ((s.viewers.store r).ticket.instance_id ≡ some id)
reached_own token id es tickets store q r x one e same a =
    ((history-Inv token id es (mounted tickets store) one
        (mounted-Inv token id tickets store)).reached
      q r x e a same).1
