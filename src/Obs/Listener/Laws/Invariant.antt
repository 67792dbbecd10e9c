-- ===== src/Obs/Listener/Laws/Invariant.antt =====
-- What holds of the listener between any two events. The invariant speaks of the parts of the state
-- that it needs, so that it holds of a state with other signals as it stands.
use obs_instance_manager.Prelude.{
  ℕ, ◌+◌, ◌<◌, String, ◌≡◌, refl, ap, ◌||◌, ◌⊎◌, inl, inr, ◌≢◌, true, false, Option, none, some,
  arith, put, if_cases, eq_iff, eq_refl, is_some, Bool-cases,
}
use obs_instance_manager.Prelude.Dict
use obs_instance_manager.Prelude.Dict.{Dict, get-set, get-remove}
use obs_instance_manager.Obs.Stats.{Numbers}
use obs_instance_manager.Obs.Listener.{
  Session, Socket, Timer, asking, connecting, seeding, Run, Listener, without_listeners,
  without_timer, add_session, connect, detach_session, waiting, retry_delay, schedule_retry,
}
use obs_instance_manager.Obs.Listener.Events.{open_socket, fire}

pub record Inv {N : Type 0} (sessions : Dict ℕ) (store : ℕ → Session N) (sockets : ℕ → Socket)
    (timers : ℕ → Option Timer) (runs : ℕ → Option Run) (next : ℕ) : Type 0 where
  pub known :
      (id : String) (r : ℕ)
      → Dict.get sessions id ≡ some r
      → (r < next) × ((store r).instance_id ≡ id) × ((store r).closing ≡ false)
  pub live : (r : ℕ) → (store r).closing ≡ false → Dict.get sessions (store r).instance_id ≡ some r
  pub quiet :
      (r : ℕ) → (store r).closing ≡ true → ((store r).obs ≡ none) × ((store r).retry_timer ≡ none)
  pub heard : (o : ℕ) → (sockets o).has_listeners ≡ true → (store (sockets o).session).obs ≡ some o
  pub timed : (t : ℕ) (x : Timer) → timers t ≡ some x → (store x.session).retry_timer ≡ some t
  pub resting : (r t : ℕ) → (store r).retry_timer ≡ some t → (store r).obs ≡ none
  pub asked :
      (k : ℕ) (x : Run)
      → runs k ≡ some x
      → x.stage ≡ asking
      → (store x.session).closing ≡ false
      → ((store x.session).obs ≡ none) × ((store x.session).retry_timer ≡ none)
  pub joined :
      (k o : ℕ) (x : Run)
      → runs k ≡ some x
      → x.stage ≡ connecting o
      → (store x.session).closing ≡ false
      → ((store x.session).obs ≡ some o)
        × ((store x.session).retry_timer ≡ none)
        × ((sockets o).run ≡ k)
  pub one :
      (k l : ℕ) (x y : Run)
      → runs k ≡ some x
      → runs l ≡ some y
      → x.stage ≡ asking
      → y.stage ≡ asking
      → x.session ≡ y.session
      → (store x.session).closing ≡ false
      → k ≡ l
  pub begun : (k : ℕ) (x : Run) → runs k ≡ some x → (k < next) × (x.session < next)
  pub made : (r o : ℕ) → (store r).obs ≡ some o → (o < next) × ((sockets o).session ≡ r)
  pub set : (r t : ℕ) → (store r).retry_timer ≡ some t → t < next

abbrev pub InvOf : {N : Type 0} → Listener N → Type 0
InvOf s = Inv s.sessions s.store s.sockets s.timers s.runs s.next

-- What the invariant reads of a session.
abbrev SameCore : {N : Type 0} → Session N → Session N → Type 0
SameCore x y =
    (x.instance_id ≡ y.instance_id)
    × (x.obs ≡ y.obs)
    × (x.retry_timer ≡ y.retry_timer)
    × (x.closing ≡ y.closing)

-- A socket that still has its listeners is not the one that lost them.
listeners_left :
    (m : Option ℕ) (f : ℕ → Socket) (o : ℕ)
    → (without_listeners m f o).has_listeners ≡ true
    → ((f o).has_listeners ≡ true) × (m ≢ some o)
listeners_left none f o h = (h, cc)
listeners_left (some p) f o h = ground arith

socket_left :
    (m : Option ℕ) (f : ℕ → Socket) (o : ℕ)
    → ((without_listeners m f o).session ≡ (f o).session)
      × ((without_listeners m f o).run ≡ (f o).run)
socket_left none f o = (refl, refl)
socket_left (some p) f o = ground (arith, ap f)

timer_left :
    (m : Option ℕ) (f : ℕ → Option Timer) (t : ℕ) (x : Timer)
    → without_timer m f t ≡ some x
    → (f t ≡ some x) × (m ≢ some t)
timer_left none f t x h = (h, cc)
timer_left (some p) f t x h = ground arith

module _ {N : Type 0} (s : Listener N) (v : InvOf s) where
  pub touch-Inv :
      (r : ℕ) (x : Session N)
      → SameCore x (s.store r)
      → Inv s.sessions (put s.store r x) s.sockets s.timers s.runs s.next
  touch-Inv r x (a, b, c, d) = record {
    known = λ id q h. grind (arith, v.known id q h);
    live = λ q h. grind (arith, v.live q);
    quiet = λ q h. grind (arith, v.quiet q);
    heard = λ o h. grind (arith, v.heard o h);
    timed = λ t y h. grind (arith, v.timed t y h);
    resting = λ q t h. grind (arith, v.resting q t);
    asked = λ k y e f g. grind (arith, v.asked k y e f);
    joined = λ k o y e f g. grind (arith, v.joined k o y e f);
    one = λ k l y z e f g h i j. grind (arith, v.one k l y z e f g h i);
    begun = v.begun;
    made = λ q o g. grind (arith, v.made q o);
    set = λ q t h. grind (arith, v.set q t);
  }

  -- A run that ends, or that has nothing more to connect.
  pub rest_run-Inv :
      (k r : ℕ)
      → r < s.next
      → k < s.next
      → (o : Option Run) → (o ≡ none) ⊎ (o ≡ some (record { session = r; stage = seeding }))
      → Inv s.sessions s.store s.sockets s.timers (put s.runs k o) s.next
  rest_run-Inv k r lr lk o c = record {
    known = v.known;
    live = v.live;
    quiet = v.quiet;
    heard = v.heard;
    timed = v.timed;
    resting = v.resting;
    asked = λ j y e f g. grind (arith, v.asked j y);
    joined = λ j p y e f g. grind (arith, v.joined j p y);
    one = λ j l y z e f g h i m. grind (arith, v.one j l y z);
    begun = λ j y e. grind (arith, v.begun j y);
    made = λ q o g. grind (arith, v.made q o);
    set = v.set;
  }

  pub connect-Inv :
      (r : ℕ)
      → r < s.next
      → ((s.store r).closing ≡ false
          → ((s.store r).obs ≡ none)
            × ((s.store r).retry_timer ≡ none)
            × ((k : ℕ) (y : Run) → s.runs k ≡ some y → y.stage ≡ asking → y.session ≢ r))
      → InvOf (connect r s)
  unfolding connect
  connect-Inv r l h = elim (Bool-cases (s.store r).closing) [
    | inl e ↦ rw (connect, e) v
    | inr e ↦ rw (connect, e) (begin (h e))
  ]
    where
      begin :
          ((s.store r).obs ≡ none)
            × ((s.store r).retry_timer ≡ none)
            × ((k : ℕ) (y : Run) → s.runs k ≡ some y → y.stage ≡ asking → y.session ≢ r)
          → Inv s.sessions s.store s.sockets s.timers
              (put s.runs s.next (some (record { session = r; stage = asking })))
              (s.next + 1)
      begin (a, b, c) = record {
        known = λ id q h. grind (arith, v.known id q h);
        live = v.live;
        quiet = v.quiet;
        heard = v.heard;
        timed = v.timed;
        resting = v.resting;
        asked = λ j y e f g. grind (arith, v.asked j y);
        joined = λ j p y e f g. grind (arith, v.joined j p y);
        one = λ j i y z e f g m n p. grind (arith, v.one j i y z, c j y, c i z);
        begun = λ j y e. grind (arith, v.begun j y);
        made = λ q o g. grind (arith, v.made q o);
        set = λ q t h. grind (arith, v.set q t);
      }

  module _ (r : ℕ) (delay : ℕ) (opened : (s.store r).closing ≡ false)
      (idle : (s.store r).retry_timer ≡ none)
      (h : (k : ℕ) (y : Run) → s.runs k ≡ some y → y.session ≡ r → y.stage ≡ seeding) where
    pub wait-Inv :
        Inv s.sessions
          (put s.store r (waiting s.next (s.store r)))
          (without_listeners (s.store r).obs s.sockets)
          (put s.timers s.next (some (record { session = r; delay = delay })))
          s.runs
          (s.next + 1)
    wait-Inv = record {
      known = λ id q h. grind (arith, v.known id q h);
      live = λ q h. grind (arith, v.live q);
      quiet = λ q h. grind (arith, v.quiet q);
      heard = λ o g. grind (
        arith,
        v.heard o,
        listeners_left (s.store r).obs s.sockets o g,
        socket_left (s.store r).obs s.sockets o,
      );
      timed = λ t y g. grind (arith, v.timed t y);
      resting = λ q t g. grind (arith, v.resting q t);
      asked = λ j y e f g. grind (arith, v.asked j y, h j y);
      joined = λ j p y e f g.
          grind (arith, v.joined j p y, h j y, socket_left (s.store r).obs s.sockets p);
      one = λ j i y z e f g m n p. grind (arith, v.one j i y z, h j y, h i z);
      begun = λ j y e. grind (arith, v.begun j y);
      made = λ q o g. grind (arith, v.made q o);
      set = λ q t g. grind (arith, v.set q t);
    }

  pub schedule_retry-Inv :
      (r : ℕ)
      → ((s.store r).closing ≡ false
          → (s.store r).retry_timer ≡ none
          → (k : ℕ) (y : Run) → s.runs k ≡ some y
          → y.session ≡ r
          → y.stage ≡ seeding)
      → InvOf (schedule_retry r s)
  unfolding schedule_retry
  schedule_retry-Inv r h =
      if_cases InvOf ((s.store r).closing || is_some (s.store r).retry_timer) (λ e. v)
        (λ e.
          wait-Inv r (retry_delay (s.store r).attempts) (ground arith) (ground arith)
            (h (ground arith) (ground arith)))

  pub detach_session-Inv :
      (num : Numbers N) (r : ℕ) (id : String)
      → Dict.get s.sessions id ≡ some r
      → InvOf (detach_session num r id s)
  unfolding detach_session
  detach_session-Inv num r id e = record {
    known = λ i q h.
        grind (arith, v.known i q, get-remove s.sessions id i, v.known id r e, eq_iff id i);
    live = λ q h. grind (
      arith,
      v.live q,
      get-remove s.sessions id (s.store q).instance_id,
      v.known id r e,
      eq_iff id (s.store q).instance_id,
    );
    quiet = λ q h. grind (arith, v.quiet q);
    heard = λ o g. grind (
      arith,
      v.heard o,
      listeners_left (s.store r).obs s.sockets o g,
      socket_left (s.store r).obs s.sockets o,
    );
    timed = λ t y g. grind (arith, v.timed t y, timer_left (s.store r).retry_timer s.timers t y g);
    resting = λ q t g. grind (arith, v.resting q t);
    asked = λ j y f g m. grind (arith, v.asked j y f g);
    joined =
        λ j p y f g m. grind (arith, v.joined j p y f g, socket_left (s.store r).obs s.sockets p);
    one = λ j i y z f g m n p q. grind (arith, v.one j i y z f g m n p);
    begun = v.begun;
    made = λ q o g. grind (arith, v.made q o);
    set = λ q t g. grind (arith, v.set q t);
  }

  pub fire-Inv : (t r : ℕ) (x : Timer) → s.timers t ≡ some x → x.session ≡ r → InvOf (fire t r s)
  unfolding fire
  fire-Inv t r x e same = record {
    known = λ id q h. grind (arith, v.known id q h);
    live = λ q h. grind (arith, v.live q);
    quiet = λ q h. grind (arith, v.quiet q);
    heard = λ o g. grind (arith, v.heard o);
    timed = λ u y g. grind (arith, v.timed u y, v.timed t x e);
    resting = λ q u g. grind (arith, v.resting q u);
    asked = λ j y f g m. grind (arith, v.asked j y f g);
    joined = λ j p y f g m. grind (arith, v.joined j p y f g);
    one = λ j i y z f g m n p q. grind (arith, v.one j i y z f g m n p);
    begun = v.begun;
    made = λ q o g. grind (arith, v.made q o);
    set = λ q u g. grind (arith, v.set q u);
  }

  pub open_socket-Inv :
      (k r : ℕ) (x : Run)
      → s.runs k ≡ some x
      → x.session ≡ r
      → x.stage ≡ asking
      → (s.store r).closing ≡ false
      → InvOf (open_socket k r s)
  unfolding open_socket
  open_socket-Inv k r x e same a c = record {
    known = λ id q h. grind (arith, v.known id q h);
    live = λ q h. grind (arith, v.live q);
    quiet = λ q h. grind (arith, v.quiet q);
    heard = λ o g. grind (arith, v.heard o, v.asked k x e a);
    timed = λ u y g. grind (arith, v.timed u y);
    resting = λ q u g. grind (arith, v.resting q u, v.asked k x e a);
    asked = λ j y f g m. grind (arith, v.asked j y, v.one k j x y e, v.asked k x e a);
    joined = λ j p y f g m. grind (arith, v.joined j p y, v.asked k x e a, v.begun k x e);
    one = λ j i y z f g m n p q. grind (arith, v.one j i y z);
    begun = λ j y f. grind (arith, v.begun j y, v.begun k x e);
    made = λ q o g. grind (arith, v.made q o);
    set = λ q u g. grind (arith, v.set q u);
  }

  pub add_session-Inv :
      (x : Session N)
      → Dict.get s.sessions x.instance_id ≡ none
      → x.closing ≡ false
      → x.obs ≡ none
      → x.retry_timer ≡ none
      → InvOf (add_session x s)
  unfolding add_session
  add_session-Inv x free a b c = record {
    known = λ id q h.
        grind (
          arith,
          v.known id q,
          get-set s.sessions x.instance_id id s.next,
          eq_iff x.instance_id id,
        );
    live = λ q h. grind (
      arith,
      v.live q,
      get-set s.sessions x.instance_id (s.store q).instance_id s.next,
      eq_iff x.instance_id (s.store q).instance_id,
      eq_refl x.instance_id,
      get-set s.sessions x.instance_id x.instance_id s.next,
    );
    quiet = λ q h. grind (arith, v.quiet q);
    heard = λ o g. grind (arith, v.heard o, unused);
    timed = λ u y g. grind (arith, v.timed u y, unused);
    resting = λ q u g. grind (arith, v.resting q u);
    asked = λ j y f g m. grind (arith, v.asked j y, v.begun j y);
    joined = λ j p y f g m. grind (arith, v.joined j p y, v.begun j y);
    one = λ j i y z f g m n p q. grind (arith, v.one j i y z, v.begun j y);
    begun = λ j y f. grind (arith, v.begun j y);
    made = λ q o g. grind (arith, v.made q o);
    set = λ q u g. grind (arith, v.set q u);
  }
    where
      unused : ((s.store s.next).obs ≡ none) × ((s.store s.next).retry_timer ≡ none)
      unused =
          grind (arith, v.live s.next, v.known (s.store s.next).instance_id s.next, v.quiet s.next)
