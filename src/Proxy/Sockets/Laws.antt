-- ===== src/Proxy/Sockets/Laws.antt =====
-- The sockets of a viewer session are counted in every history.
use obs_instance_manager.Prelude.{
  ℕ, zero, suc, ◌+◌, ◌-◌, ◌≤◌, ◌<◌, ◌≡◌, ◌≢◌, ◌⊎◌, refl, sym, ap, ◌∙◌, String, Bool, true, false,
  Option, none, some, List, [], ◌∷◌, ◌++◌, get_elem?, set, eqb, eqb_iff, if◌then◌else◌, arith,
  Bool-cases, inl, inr, option_cases, is_some, subst,
}
use obs_instance_manager.Prelude.Dict
use obs_instance_manager.Auth.Tickets.{Ticket}
use obs_instance_manager.Auth.Viewer
use obs_instance_manager.Auth.Viewer.{ViewerSession, ViewerSessions, put_session}
use obs_instance_manager.Proxy.Relay.{close_client}
use obs_instance_manager.Proxy.Sockets.{
  Phase, upgraded, opened, done, Link, Sockets, new_link, put_link, open_for, link_opened, uncount,
  link_closed, RelayEvent, Event, connects, opens, relays, closes, starts, looks, moves, ends,
  sweeps, open_in, close_in, relay_step, handle, history,
}

abbrev hit : ℕ → Option ℕ → ℕ
hit r none = 0
hit r (some k) = if eqb k r then 1 else 0

abbrev is_on : ℕ → Option ℕ → Phase → ℕ
is_on r o upgraded = 0
is_on r o opened = hit r o
is_on r o done = 0

-- A socket is counted while it is open for a session.
abbrev counted_as : Option ℕ → Phase → Bool
counted_as o upgraded = false
counted_as o opened = is_some o
counted_as o done = false

upgraded-ne-done : upgraded ≢ done
upgraded-ne-done e = cc

opened_count :
    (k r : ℕ) (viewers : ViewerSessions)
    → ((Viewer.socket_opened k viewers).store r).open_sockets
      ≡ (viewers.store r).open_sockets + hit r (some k)
unfolding Viewer.socket_opened
opened_count k r viewers = ground (arith, eqb_iff k r)

abbrev gated : Bool → ℕ → ℕ
gated true n = n
gated false n = 0

uncount_count :
    (at : ℕ) (c : Bool) (o : Option ℕ) (r : ℕ) (viewers : ViewerSessions)
    → ((uncount at c o viewers).store r).open_sockets
      ≡ (viewers.store r).open_sockets - gated c (hit r o)
unfolding Viewer.socket_closed
uncount_count at true none r viewers = omega arith
uncount_count at true (some k) r viewers = ground (arith, eqb_iff k r)
uncount_count at false o r viewers = omega arith

uncount-next :
    (at : ℕ) (c : Bool) (o : Option ℕ) (viewers : ViewerSessions)
    → (uncount at c o viewers).next ≡ viewers.next
unfolding Viewer.socket_closed
uncount-next at true none viewers = refl
uncount-next at true (some k) viewers = refl
uncount-next at false o viewers = refl

gated-is_on : (r : ℕ) (o : Option ℕ) (p : Phase) → gated (counted_as o p) (hit r o) ≡ is_on r o p
gated-is_on r o upgraded = refl
gated-is_on r none opened = refl
gated-is_on r (some k) opened = refl
gated-is_on r o done = refl

get-next :
    (at : ℕ) (token id : String) (s : ViewerSessions) → (Viewer.get at token id s).1.next ≡ s.next
unfolding Viewer.get
get-next at token id s = ground arith

get-store :
    (at : ℕ) (token id : String) (s : ViewerSessions) → (Viewer.get at token id s).1.store ≡ s.store
unfolding Viewer.get
get-store at token id s = ground arith

abbrev pub no_viewers : (ℕ → ViewerSession) → ViewerSessions
no_viewers store = record { sessions = Dict.empty; store = store; next = 0 }

module _ {D : Type 0} where
  -- How many sockets are open for the session.
  abbrev pub open_on : ℕ → List (Link D) → ℕ
  open_on r [] = 0
  open_on r (l ∷ links) = is_on r l.session l.phase + open_on r links

  record IsLink (next : ℕ) (l : Link D) : Type 0 where
    known : (r : ℕ) → l.session ≡ some r → r < next
    counted : l.phase ≢ done → l.is_counted ≡ counted_as l.session l.phase

  -- What holds in every history: the sessions' counts are those of the open sockets.
  record Inv (s : Sockets D) : Type 0 where
    links : (i : ℕ) (l : Link D) → get_elem? s.links i ≡ some l → IsLink s.viewers.next l
    counts : (r : ℕ) → r < s.viewers.next → (s.viewers.store r).open_sockets ≡ open_on r s.links

  get-set_other :
      (links : List (Link D)) (i j : ℕ) (l m : Link D)
      → get_elem? (set links i l) j ≡ some m
      → (get_elem? links j ≡ some m) ⊎ (m ≡ l)
  get-set_other [] i j l m h = inl h
  get-set_other (x ∷ links) zero zero l m h = inr (ground arith)
  get-set_other (x ∷ links) zero (suc j) l m h = inl h
  get-set_other (x ∷ links) (suc i) zero l m h = inl h
  get-set_other (x ∷ links) (suc i) (suc j) l m h = get-set_other links i j l m h

  get-append :
      (links : List (Link D)) (j : ℕ) (l m : Link D)
      → get_elem? (links ++ (l ∷ [])) j ≡ some m
      → (get_elem? links j ≡ some m) ⊎ (m ≡ l)
  get-append [] zero l m h = inr (ground arith)
  get-append [] (suc j) l m h = cc
  get-append (x ∷ links) zero l m h = inl h
  get-append (x ∷ links) (suc j) l m h = get-append links j l m h

  open_on-append :
      (r : ℕ) (links : List (Link D)) (l : Link D)
      → open_on r (links ++ (l ∷ [])) ≡ open_on r links + is_on r l.session l.phase
  open_on-append r [] l = omega arith
  open_on-append r (x ∷ links) l = omega (arith, open_on-append r links l)

  open_on-set :
      (r i : ℕ) (links : List (Link D)) (l m : Link D)
      → get_elem? links i ≡ some l
      → open_on r (set links i m) + is_on r l.session l.phase
        ≡ open_on r links + is_on r m.session m.phase
  open_on-set r i [] l m h = cc
  open_on-set r zero (x ∷ links) l m h = let e : x ≡ l = ground arith in rw e (omega arith)
  open_on-set r (suc i) (x ∷ links) l m h = omega (arith, open_on-set r i links l m h)

  -- One link is replaced by another of the same session, and the store changes with it.
  put-Inv :
      (s : Sockets D) (v : Inv s) (i : ℕ) (l m : Link D) (viewers : ViewerSessions)
      → get_elem? s.links i ≡ some l
      → viewers.next ≡ s.viewers.next
      → IsLink s.viewers.next m
      → ((r : ℕ)
          → r < s.viewers.next
          → (viewers.store r).open_sockets + is_on r l.session l.phase
            ≡ (s.viewers.store r).open_sockets + is_on r m.session m.phase)
      → Inv (record s { viewers = viewers; links = set s.links i m })
  put-Inv s v i l m viewers at same good change = record {
    links = λ j x h. elim (get-set_other s.links i j m x h) [
      | inl old ↦ rw same (v.links j x old)
      | inr new ↦ rw (new, same) good
    ];
    counts = λ r lt. omega (
      arith,
      change r (omega (arith, same)),
      open_on-set r i s.links l m at,
      v.counts r (omega (arith, same)),
    );
  }

  -- The sessions change, and no count does.
  viewers-Inv :
      (s : Sockets D) (v : Inv s) (viewers : ViewerSessions)
      → viewers.next ≡ s.viewers.next
      → ((r : ℕ) → (viewers.store r).open_sockets ≡ (s.viewers.store r).open_sockets)
      → Inv (record s { viewers = viewers })
  viewers-Inv s v viewers same counts = record {
    links = λ j x h. rw same (v.links j x h);
    counts = λ r lt. counts r ∙ v.counts r (omega (arith, same));
  }

  connects-Inv :
      (s : Sockets D) (session : Option ℕ)
      → ((r : ℕ) → session ≡ some r → r < s.viewers.next)
      → Inv s
      → Inv (handle (connects session) s)
  unfolding handle
  connects-Inv s session known v = record {
    links = λ j x h. elim (get-append s.links j (new_link session) x h) [
      | inl old ↦ v.links j x old
      | inr new ↦ rw new record { known = known; counted = λ p. refl }
    ];
    counts = λ r lt. omega (arith, v.counts r lt, open_on-append r s.links (new_link session));
  }

  open_for-Inv :
      (s : Sockets D) (i : ℕ) (rest query : String) (l : Link D) (o : Option ℕ)
      → get_elem? s.links i ≡ some l
      → l.session ≡ o
      → l.phase ≡ upgraded
      → Inv s
      → Inv (open_for i rest query o l s)
  unfolding Viewer.socket_opened
  open_for-Inv s i rest query l none at e p v =
      put-Inv s v i l (record l { relay = close_client (some 4401) l.relay; phase = opened })
        s.viewers at refl
        (record {
          known = (v.links i l at).known;
          counted = λ q.
              (v.links i l at).counted (λ d. upgraded-ne-done (sym p ∙ d))
              ∙ ap (counted_as l.session) p
              ∙ sym (ap is_some e);
        })
        (λ r lt. omega (arith, ap (is_on r l.session) p, ap (hit r) e))
  open_for-Inv s i rest query l (some k) at e p v =
      put-Inv s v i l _ (Viewer.socket_opened k s.viewers) at refl
        (record { known = (v.links i l at).known; counted = λ q. sym (ap is_some e) })
        (λ r lt. omega (arith, ap (is_on r l.session) p, ap (hit r) e, opened_count k r s.viewers))

  open_in-Inv :
      (s : Sockets D) (i : ℕ) (rest query : String) (l : Link D) (p : Phase)
      → get_elem? s.links i ≡ some l
      → l.phase ≡ p
      → Inv s
      → Inv (open_in i rest query p l s)
  unfolding link_opened
  open_in-Inv s i rest query l upgraded at p v = open_for-Inv s i rest query l l.session at refl p v
  open_in-Inv s i rest query l opened at p v = v
  open_in-Inv s i rest query l done at p v = v

  is_on-le :
      (r i : ℕ) (links : List (Link D)) (l : Link D)
      → get_elem? links i ≡ some l
      → is_on r l.session l.phase ≤ open_on r links
  is_on-le r i [] l h = cc
  is_on-le r zero (x ∷ links) l h = let e : x ≡ l = ground arith in rw e (omega arith)
  is_on-le r (suc i) (x ∷ links) l h = omega (arith, is_on-le r i links l h)

  link_closed-Inv :
      (s : Sockets D) (at i : ℕ) (l : Link D)
      → get_elem? s.links i ≡ some l
      → l.phase ≢ done
      → Inv s
      → Inv (link_closed at i l s)
  unfolding link_closed
  link_closed-Inv s at i l here p v =
      put-Inv s v i l _ (uncount at l.is_counted l.session s.viewers) here
        (uncount-next at l.is_counted l.session s.viewers)
        (record { known = (v.links i l here).known; counted = λ q. absurd (q refl) })
        (λ r lt. omega (
          arith,
          uncount_count at l.is_counted l.session r s.viewers,
          v.counts r lt,
          is_on-le r i s.links l here,
          ap (λ c. gated c (hit r l.session)) ((v.links i l here).counted p),
          gated-is_on r l.session l.phase,
        ))

  close_in-Inv :
      (s : Sockets D) (at i : ℕ) (l : Link D) (p : Phase)
      → get_elem? s.links i ≡ some l
      → l.phase ≡ p
      → Inv s
      → Inv (close_in at i p l s)
  close_in-Inv s at i l upgraded here p v = link_closed-Inv s at i l here (λ d. ground arith) v
  close_in-Inv s at i l opened here p v = link_closed-Inv s at i l here (λ d. ground arith) v
  close_in-Inv s at i l done here p v = v

  relays-Inv :
      (s : Sockets D) (i : ℕ) (l : Link D) (e : RelayEvent D)
      → get_elem? s.links i ≡ some l
      → Inv s
      → Inv (put_link i (record l { relay = relay_step e l.relay }) s)
  relays-Inv s i l e here v =
      put-Inv s v i l _ s.viewers here refl
        (record { known = (v.links i l here).known; counted = (v.links i l here).counted })
        (λ r lt. refl)

  open_on-fresh :
      (n : ℕ) (links : List (Link D))
      → ((i : ℕ) (l : Link D) → get_elem? links i ≡ some l → (r : ℕ) → l.session ≡ some r → r < n)
      → open_on n links ≡ 0
  open_on-fresh n [] h = refl
  open_on-fresh n (l ∷ links) h = omega (
    arith,
    off l.session l.phase (λ r e. h 0 l refl r e),
    open_on-fresh n links (λ i m e. h (i + 1) m (ground arith)),
  )
    where
      off : (o : Option ℕ) (p : Phase) → ((r : ℕ) → o ≡ some r → r < n) → is_on n o p ≡ 0
      off o upgraded k = refl
      off none opened k = refl
      off (some r) opened k = ground (arith, k r refl, eqb_iff r n)
      off o done k = refl

  starts-Inv :
      (s : Sockets D) (at : ℕ) (token : String) (ticket : Ticket) (name : String)
      → Inv s
      → Inv (record s { viewers = (Viewer.start at token ticket name s.viewers).1 })
  unfolding Viewer.start
  starts-Inv s at token ticket name v = record {
    links = λ i l e. record {
      known = λ r h. omega (arith, (v.links i l e).known r h);
      counted = (v.links i l e).counted;
    };
    counts = λ r lt. elim (Bool-cases (eqb s.viewers.next r)) [
      | inl new ↦ rw new (
          subst (λ n. 0 ≡ open_on n s.links) ((eqb_iff s.viewers.next r).0 new)
            (sym (open_on-fresh s.viewers.next s.links (λ i l e. (v.links i l e).known))))
      | inr old ↦ rw old (v.counts r (ground (arith, eqb_iff s.viewers.next r)))
    ];
  }

  looks-Inv :
      (s : Sockets D) (at : ℕ) (token id : String)
      → Inv s
      → Inv (record s { viewers = (Viewer.get at token id s.viewers).1 })
  looks-Inv s at token id v =
      viewers-Inv s v _ (get-next at token id s.viewers)
        (λ r. ap (λ (f : ℕ → ViewerSession). (f r).open_sockets) (get-store at token id s.viewers))

  moves-Inv : (s : Sockets D) (r : ℕ) (name : String) → Inv s → Inv (handle (moves r name) s)
  unfolding handle
  moves-Inv s r name v = viewers-Inv s v _ refl (λ k. ground (arith, eqb_iff r k))

  -- A socket is opened for a session that the proxy has started.
  abbrev pub IsKnown : ℕ → Event D → Type 0
  IsKnown next (connects (some r)) = r < next
  IsKnown next _ = Unit

  handle-Inv : (s : Sockets D) (e : Event D) → IsKnown s.viewers.next e → Inv s → Inv (handle e s)
  unfolding handle Viewer.end Viewer.sweep_sessions
  handle-Inv s (connects none) k v = connects-Inv s none (λ r e. cc) v
  handle-Inv s (connects (some r)) k v = connects-Inv s (some r) (λ q e. ground arith) v
  handle-Inv s (opens i rest query) k v =
      option_cases Inv (get_elem? s.links i) (λ e. v)
        (λ l e. (open_in-Inv s i rest query l l.phase e refl v))
  handle-Inv s (relays i x) k v =
      option_cases Inv (get_elem? s.links i) (λ e. v) (λ l e. (relays-Inv s i l x e v))
  handle-Inv s (closes at i) k v =
      option_cases Inv (get_elem? s.links i) (λ e. v)
        (λ l e. (close_in-Inv s at i l l.phase e refl v))
  handle-Inv s (starts at token ticket name) k v = starts-Inv s at token ticket name v
  handle-Inv s (looks at token id) k v = looks-Inv s at token id v
  handle-Inv s (moves r name) k v = moves-Inv s r name v
  handle-Inv s (ends token) k v = viewers-Inv s v _ refl (λ r. refl)
  handle-Inv s (sweeps at) k v = viewers-Inv s v _ refl (λ r. refl)

  abbrev pub AreKnown : Sockets D → List (Event D) → Type 0
  AreKnown s [] = Unit
  AreKnown s (e ∷ es) = IsKnown s.viewers.next e × AreKnown (handle e s) es

  history-Inv : (s : Sockets D) (es : List (Event D)) → AreKnown s es → Inv s → Inv (history es s)
  unfolding history
  history-Inv s [] k v = v
  history-Inv s (e ∷ es) k v = history-Inv (handle e s) es k.1 (handle-Inv s e k.0 v)

  -- In every history from the start in which sockets are opened for sessions that were started, the
  -- number of sockets in a viewer session is that of its sockets that are open.
  pub sockets_counted :
      (store : ℕ → ViewerSession) (es : List (Event D)) (r : ℕ)
      → AreKnown (record { viewers = no_viewers store; links = [] }) es
      → r < (history es (record { viewers = no_viewers store; links = [] })).viewers.next
      → let s = history es (record { viewers = no_viewers store; links = [] }) in
        (s.viewers.store r).open_sockets ≡ open_on r s.links
  sockets_counted store es r k lt =
      let nothing : Sockets D = record { viewers = no_viewers store; links = [] } in
      (history-Inv nothing es k
          (record { links = λ i l e. cc; counts = λ q h. absurd (omega arith) })).counts
        r lt
