-- ===== src/Obs/Listener/Laws/Histories.antt =====
-- The invariant over every history of events, from the start of the process.
use obs_instance_manager.Prelude.{
  if_cases, option_cases, ℕ, String, ◌≡◌, refl, ◌≢◌, inl, inr, true, false, ◌||◌, none, some, List,
  [], ◌∷◌, arith, eqb, is_some,
}
use obs_instance_manager.Prelude.Dict
use obs_instance_manager.Obs.Stats.{Numbers}
use obs_instance_manager.Obs.Listener.{
  Stage, asking, connecting, seeding, Run, Listener, retry_delay, put_run, no_sessions, detach_all,
  schedule_retry,
}
use obs_instance_manager.Obs.Listener.Events.{
  Event, attaches, detaches, detaches_all, secrets_answered, connect_timed_out, connect_succeeded,
  seed_answered, scene_event, vendor_event, socket_closed, timer_fires, on_secrets, on_timeout,
  on_connected, on_seed, on_closed, rejected, listener_closed, handle, history,
}
use obs_instance_manager.Obs.Listener.Laws.Invariant.{InvOf, wait-Inv, schedule_retry-Inv}
use obs_instance_manager.Obs.Listener.Laws.Steps.{
  alone_heard, end_run-Inv, fail-Inv, detach_instance-Inv, attach_instance-Inv, on_scene-Inv,
  on_timer-Inv, detach_each-Inv, asked-Inv, connect_thrown-Inv, seeded-Inv, connect_done-Inv,
  on_vendor-Inv,
}

module _ {N : Type 0} (s : Listener N) (v : InvOf s) where
  runs-schedule_retry : (r k : ℕ) → (schedule_retry r s).runs k ≡ s.runs k
  unfolding schedule_retry
  runs-schedule_retry r k = ground arith

  listener_closed-Inv :
      (o : ℕ)
      → ((x : Run) → s.runs (s.sockets o).run ≡ some x → x.stage ≢ connecting o)
      → InvOf (listener_closed o s)
  listener_closed-Inv o h =
      if_cases InvOf (s.sockets o).has_listeners
        (λ e. schedule_retry-Inv s v (s.sockets o).session (λ c i j y f same.
          elim (alone_heard s v o j y e f same) [
            | inl g ↦ g
            | inr (g, b) ↦ absurd (h y (grind (arith, f)) g)
          ]))
        (λ e. v)

  -- The session of a socket that has closed waits; the run that connected the socket ends.
  closed_run-Inv :
      (o k : ℕ) (x : Run)
      → s.runs k ≡ some x
      → x.stage ≡ connecting o
      → k ≡ (s.sockets o).run
      → (s.sockets o).has_listeners ≡ true
      → InvOf (put_run k none (schedule_retry (s.sockets o).session s))
  unfolding put_run schedule_retry
  closed_run-Inv o k x e a b h =
      let q = (s.sockets o).session in
      if_cases (λ (t : Listener N). InvOf (put_run k none t))
        ((s.store q).closing || is_some (s.store q).retry_timer) (λ c. end_run-Inv s v k x e)
        (λ c.
          wait-Inv (put_run k none s) (end_run-Inv s v k x e) q (retry_delay (s.store q).attempts)
            (ground arith) (ground arith) (λ j y f same. grind (arith, alone_heard s v o j y h, b)))

  closing-schedule_retry : (q r : ℕ) → ((schedule_retry q s).store r).closing ≡ (s.store r).closing
  unfolding schedule_retry
  closing-schedule_retry q r = ground arith

  waits-schedule_retry :
      (q : ℕ)
      → ((schedule_retry q s).store q).closing ≡ false
      → ((schedule_retry q s).store q).retry_timer ≢ none
  unfolding schedule_retry
  waits-schedule_retry q c = λ n. ground arith

  rejected_heard-Inv :
      (o k : ℕ) (x : Run)
      → s.runs k ≡ some x
      → x.stage ≡ connecting o
      → k ≡ (s.sockets o).run
      → (s.sockets o).has_listeners ≡ true
      → InvOf (schedule_retry x.session (put_run k none (schedule_retry (s.sockets o).session s)))
  unfolding put_run
  rejected_heard-Inv o k x e a b h =
      let q = (s.sockets o).session in
      schedule_retry-Inv (put_run k none (schedule_retry q s)) (closed_run-Inv o k x e a b h)
        x.session
        (λ c i. absurd (
          grind (
            arith,
            closing-schedule_retry q x.session,
            v.joined k o x e a,
            v.made x.session o,
            waits-schedule_retry q,
            c,
            i,
          )))

  rejected-Inv :
      (o k : ℕ) (x : Run) (st : Stage)
      → s.runs k ≡ some x
      → x.stage ≡ st
      → k ≡ (s.sockets o).run
      → InvOf (rejected o k x.session st (listener_closed o s))
  rejected-Inv o k x asking e a b = listener_closed-Inv o (λ y f. grind arith)
  rejected-Inv o k x seeding e a b = listener_closed-Inv o (λ y f. grind arith)
  rejected-Inv o k x (connecting p) e a b =
      if_cases InvOf (eqb p o)
        (λ same.
          if_cases (λ (t : Listener N). InvOf (schedule_retry x.session (put_run k none t)))
            (s.sockets o).has_listeners (λ h. rejected_heard-Inv o k x e (ground arith) b h)
            (λ h. fail-Inv s v k x e cc))
        (λ other. listener_closed-Inv o (λ y f. grind arith))

  runs-listener_closed : (o k : ℕ) → (listener_closed o s).runs k ≡ s.runs k
  runs-listener_closed o k = ground (arith, runs-schedule_retry (s.sockets o).session k)

  on_closed-Inv : (o : ℕ) → InvOf (on_closed o s)
  unfolding on_closed
  on_closed-Inv o =
      option_cases InvOf ((listener_closed o s).runs (s.sockets o).run)
        (λ e.
          listener_closed-Inv o (λ x f. grind (arith, runs-listener_closed o (s.sockets o).run)))
        (λ x e.
          rejected-Inv o (s.sockets o).run x x.stage
            (grind (arith, runs-listener_closed o (s.sockets o).run)) refl refl)

module _ {N : Type 0} (num : Numbers N) (node_id : String) where
  pub handle-Inv : (e : Event N) (s : Listener N) → InvOf s → InvOf (handle num node_id e s)
  unfolding handle detach_all on_secrets on_timeout on_connected on_seed
  handle-Inv (attaches i) s v = attach_instance-Inv s v node_id i
  handle-Inv (detaches id) s v = detach_instance-Inv s v num id
  handle-Inv detaches_all s v = detach_each-Inv num (Dict.keys s.sessions) s v
  handle-Inv (secrets_answered k reply) s v =
      option_cases InvOf (s.runs k) (λ e. v) (λ x e. asked-Inv num s v k x e x.stage reply refl)
  handle-Inv (connect_timed_out k) s v =
      option_cases InvOf (s.runs k) (λ e. v) (λ x e. connect_thrown-Inv num s v k x e x.stage refl)
  handle-Inv (connect_succeeded k) s v =
      option_cases InvOf (s.runs k) (λ e. v) (λ x e. connect_done-Inv num s v k x e x.stage)
  handle-Inv (seed_answered k reply) s v =
      option_cases InvOf (s.runs k) (λ e. v) (λ x e. seeded-Inv num s v k x e x.stage reply)
  handle-Inv (scene_event o name uuid) s v = on_scene-Inv s v o name uuid
  handle-Inv (vendor_event o now name event_type event) s v =
      on_vendor-Inv num s v o now name event_type event
  handle-Inv (socket_closed o) s v = on_closed-Inv s v o
  handle-Inv (timer_fires t) s v = on_timer-Inv s v t

  pub history-Inv :
      (es : List (Event N)) (s : Listener N) → InvOf s → InvOf (history num node_id es s)
  unfolding history
  history-Inv [] s v = v
  history-Inv (e ∷ es) s v = history-Inv es (handle num node_id e s) (handle-Inv e s v)

pub no_sessions-Inv : {N : Type 0} → InvOf (no_sessions {N = N})
unfolding Dict.get
no_sessions-Inv = record {
  known = λ id r h. cc;
  live = λ r h. cc;
  quiet = λ r h. (refl, refl);
  heard = λ o h. cc;
  timed = λ t x h. cc;
  resting = λ r t h. cc;
  asked = λ k x h. cc;
  joined = λ k o x h. cc;
  one = λ k l x y h. cc;
  begun = λ k x h. cc;
  made = λ r o h. cc;
  set = λ r t h. cc;
}
