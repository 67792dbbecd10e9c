-- ===== src/Obs/Listener/Laws/Steps.antt =====
-- Every event keeps the invariant of the listener.
use obs_instance_manager.Prelude.{
  if_cases, option_cases, ℕ, ◌<◌, String, ◌≡◌, refl, ◌≢◌, ◌⊎◌, inl, inr, true, false, ◌&&◌, Option,
  none, some, List, [], ◌∷◌, arith, non_empty,
}
use obs_instance_manager.Prelude.Dict
use obs_instance_manager.Prelude.Dict.{Dict}
use obs_instance_manager.Instances.Services.{Instance}
use obs_instance_manager.Obs.Stats.{Numbers, OutputStatsEvent}
use obs_instance_manager.Obs.Listener.{
  Timer, Stage, asking, connecting, seeding, Run, Listener, new_session, add_session, put_run,
  put_session, attach_instance, detach_instance, detach_each, same_uuid, emit_named, emit_usable,
  emit_scene, schedule_retry,
}
use obs_instance_manager.Obs.Listener.Events
use obs_instance_manager.Obs.Listener.Events.{
  SecretsReply, lookup_failed, SceneReply, open_socket, connect_thrown, connected, connect_done,
  fire, with_password, after_secrets, asked, seed, seeded, record_stats, on_vendor, rejected,
  listener_closed, reject_run,
}
use obs_instance_manager.Obs.Listener.Laws.Invariant.{
  InvOf, touch-Inv, rest_run-Inv, connect-Inv, schedule_retry-Inv, detach_session-Inv, fire-Inv,
  open_socket-Inv, add_session-Inv,
}

Stage-cases : (st : Stage) → (st ≡ asking) ⊎ ((o : ℕ) × (st ≡ connecting o)) ⊎ (st ≡ seeding)
Stage-cases asking = inl refl
Stage-cases (connecting o) = inr (inl (o, refl))
Stage-cases seeding = inr (inr refl)

module _ {N : Type 0} (s : Listener N) (v : InvOf s) where
  -- No other run of an open session connects while this one does.
  pub alone_asking :
      (k j : ℕ) (x y : Run)
      → s.runs k ≡ some x
      → x.stage ≡ asking
      → (s.store x.session).closing ≡ false
      → s.runs j ≡ some y
      → y.session ≡ x.session
      → j ≢ k
      → y.stage ≡ seeding
  alone_asking k j x y e a c f same ne = elim (Stage-cases y.stage) [
    | inl h ↦ grind (arith, v.one k j x y e f a h)
    | inr (inl (o, h)) ↦ grind (arith, v.asked k x e a c, v.joined j o y f h)
    | inr (inr h) ↦ h
  ]

  pub alone_connecting :
      (k j o : ℕ) (x y : Run)
      → s.runs k ≡ some x
      → x.stage ≡ connecting o
      → (s.store x.session).closing ≡ false
      → s.runs j ≡ some y
      → y.session ≡ x.session
      → j ≢ k
      → y.stage ≡ seeding
  alone_connecting k j o x y e a c f same ne = elim (Stage-cases y.stage) [
    | inl h ↦ grind (arith, v.asked j y f h, v.joined k o x e a c)
    | inr (inl (p, h)) ↦ grind (arith, v.joined k o x e a c, v.joined j p y f h)
    | inr (inr h) ↦ h
  ]

  -- A run that connects on the session of a socket with listeners is the one that made the socket.
  pub alone_heard :
      (o j : ℕ) (y : Run)
      → (s.sockets o).has_listeners ≡ true
      → s.runs j ≡ some y
      → y.session ≡ (s.sockets o).session
      → (y.stage ≡ seeding) ⊎ ((y.stage ≡ connecting o) × (j ≡ (s.sockets o).run))
  alone_heard o j y h f same = elim (Stage-cases y.stage) [
    | inl g ↦ grind (arith, v.heard o h, v.quiet (s.sockets o).session, v.asked j y f g)
    | inr (inl (p, g)) ↦
        grind (arith, v.heard o h, v.quiet (s.sockets o).session, v.joined j p y f g)
    | inr (inr g) ↦ inl g
  ]

  pub end_run-Inv : (k : ℕ) (x : Run) → s.runs k ≡ some x → InvOf (put_run k none s)
  unfolding put_run
  end_run-Inv k x e = let (a, b) = v.begun k x e in rest_run-Inv s v k x.session b a none (inl refl)

  -- A run that has failed while it asked or connected: it ends and its session tries again later.
  pub fail-Inv :
      (k : ℕ) (x : Run)
      → s.runs k ≡ some x
      → x.stage ≢ seeding
      → InvOf (schedule_retry x.session (put_run k none s))
  unfolding put_run
  fail-Inv k x e n =
      schedule_retry-Inv (put_run k none s) (end_run-Inv k x e) x.session (λ c i j y f same.
        elim (Stage-cases x.stage) [
          | inl h ↦ grind (arith, alone_asking k j x y e h c)
          | inr (inl (o, h)) ↦ grind (arith, alone_connecting k j o x y e h c)
          | inr (inr h) ↦ absurd (n h)
        ])

  pub detach_instance-Inv : (num : Numbers N) (id : String) → InvOf (detach_instance num id s)
  unfolding detach_instance
  detach_instance-Inv num id =
      option_cases InvOf (Dict.get s.sessions id) (λ e. v)
        (λ r e. detach_session-Inv s v num r id e)

  pub attach_instance-Inv : (node_id : String) (i : Instance) → InvOf (attach_instance node_id i s)
  unfolding attach_instance add_session
  attach_instance-Inv node_id i =
      if_cases InvOf (Dict.has s.sessions i.id) (λ e. v)
        (λ e.
          connect-Inv (add_session (new_session node_id i) s)
            (add_session-Inv s v (new_session node_id i) (ground arith) refl refl refl) s.next
            (omega arith)
            (λ c. (ground arith, ground arith, λ k y f a. grind (arith, v.begun k y f))))

  emit_named-Inv : (r : ℕ) (name uuid : String) → InvOf (emit_named r name uuid s)
  unfolding emit_named
  emit_named-Inv r name uuid =
      if_cases InvOf (same_uuid (s.store r).last_scene_uuid uuid) (λ e. v)
        (λ e.
          touch-Inv s v r (record (s.store r) { last_scene_uuid = some uuid })
            (refl, refl, refl, refl))

  emit_usable-Inv : (r : ℕ) (name uuid : Option String) → InvOf (emit_usable r name uuid s)
  emit_usable-Inv r none uuid = v
  emit_usable-Inv r (some name) none = v
  emit_usable-Inv r (some name) (some uuid) = emit_named-Inv r name uuid

  emit_scene-Inv : (r : ℕ) (name uuid : Option String) → InvOf (emit_scene r name uuid s)
  unfolding emit_scene
  emit_scene-Inv r name uuid = emit_usable-Inv r (non_empty name) (non_empty uuid)

  pub on_scene-Inv : (o : ℕ) (name uuid : Option String) → InvOf (Events.on_scene o name uuid s)
  unfolding Events.on_scene
  on_scene-Inv o name uuid =
      if_cases InvOf (s.sockets o).has_listeners
        (λ e. emit_scene-Inv (s.sockets o).session name uuid) (λ e. v)

  pub on_timer-Inv : (t : ℕ) → InvOf (Events.on_timer t s)
  unfolding Events.on_timer fire
  on_timer-Inv t =
      option_cases InvOf (s.timers t) (λ e. v)
        (λ x e.
          connect-Inv (fire t x.session s) (fire-Inv s v t x.session x e refl) x.session (fired x e)
            (λ c.
              grind (
                arith,
                v.timed t x e,
                v.resting x.session t,
                waiting_only x e (ground (arith, c)),
              )))
    where
      fired : (x : Timer) → s.timers t ≡ some x → x.session < s.next
      fired x e = grind (
        arith,
        v.timed t x e,
        v.quiet x.session,
        v.live x.session,
        v.known (s.store x.session).instance_id x.session,
      )

      waiting_only :
          (x : Timer)
          → s.timers t ≡ some x
          → (s.store x.session).closing ≡ false
          → (k : ℕ) (y : Run) → s.runs k ≡ some y
          → y.stage ≡ asking
          → y.session ≢ x.session
      waiting_only x e c k y f a = λ same. grind (arith, v.timed t x e, v.asked k y f a)

module _ {N : Type 0} (num : Numbers N) where
  pub detach_each-Inv :
      (ids : List String) (s : Listener N) → InvOf s → InvOf (detach_each num ids s)
  unfolding detach_each
  detach_each-Inv [] s v = v
  detach_each-Inv (id ∷ ids) s v =
      detach_each-Inv ids (detach_instance num id s) (detach_instance-Inv s v num id)

  module _ (s : Listener N) (v : InvOf s) (k : ℕ) (x : Run) (e : s.runs k ≡ some x) where
    with_password-Inv :
        (p : Option String)
        → x.stage ≡ asking
        → (s.store x.session).closing ≡ false
        → InvOf (with_password num k x.session p s)
    with_password-Inv none a c =
        detach_instance-Inv (put_run k none s) (end_run-Inv s v k x e) num
          (s.store x.session).instance_id
    with_password-Inv (some p) a c = open_socket-Inv s v k x.session x e refl a c

    after_secrets-Inv :
        (reply : SecretsReply) → x.stage ≡ asking → InvOf (after_secrets num k x.session reply s)
    after_secrets-Inv lookup_failed a = fail-Inv s v k x e cc
    after_secrets-Inv (SecretsReply.password p) a =
        if_cases InvOf (s.store x.session).closing (λ c. end_run-Inv s v k x e)
          (λ c. with_password-Inv (non_empty p) a c)

    pub asked-Inv :
        (st : Stage) (reply : SecretsReply)
        → x.stage ≡ st
        → InvOf (asked num k x.session st reply s)
    asked-Inv asking reply a = after_secrets-Inv reply a
    asked-Inv (connecting o) reply a = v
    asked-Inv seeding reply a = v

    pub connect_thrown-Inv : (st : Stage) → x.stage ≡ st → InvOf (connect_thrown k x.session st s)
    connect_thrown-Inv (connecting o) a = fail-Inv s v k x e cc
    connect_thrown-Inv asking a = v
    connect_thrown-Inv seeding a = v

    seeding-Inv : InvOf (put_run k (some (record { session = x.session; stage = seeding })) s)
    unfolding put_run
    seeding-Inv =
        let (a, b) = v.begun k x e in
        rest_run-Inv s v k x.session b a (some (record { session = x.session; stage = seeding }))
          (inr refl)

    seed-Inv : (reply : Option SceneReply) → InvOf (seed k x.session reply s)
    seed-Inv none = end_run-Inv s v k x e
    seed-Inv (some scene) =
        emit_scene-Inv (put_run k none s) (end_run-Inv s v k x e) x.session
          (Events.or_other scene.scene_name scene.current_program_scene_name)
          (Events.or_other scene.scene_uuid scene.current_program_scene_uuid)

    pub seeded-Inv :
        (st : Stage) (reply : Option SceneReply) → InvOf (seeded k x.session st reply s)
    seeded-Inv seeding reply = seed-Inv reply
    seeded-Inv asking reply = v
    seeded-Inv (connecting o) reply = v

  pub connect_done-Inv :
      (s : Listener N)
      → InvOf s
      → (k : ℕ) (x : Run) → s.runs k ≡ some x
      → (st : Stage) → InvOf (connect_done k x.session st s)
  unfolding put_session
  connect_done-Inv s v k x e asking = v
  connect_done-Inv s v k x e seeding = v
  connect_done-Inv s v k x e (connecting o) =
      if_cases InvOf (s.store x.session).closing (λ c. end_run-Inv s v k x e)
        (λ c.
          seeding-Inv (put_session x.session (connected (s.store x.session)) s)
            (touch-Inv s v x.session (connected (s.store x.session)) (refl, refl, refl, refl)) k x
            e)

  pub on_vendor-Inv :
      (s : Listener N)
      → InvOf s
      → (o now : ℕ) (name event_type : Option String) (event : Option (OutputStatsEvent N))
      → InvOf (on_vendor num o now name event_type event s)
  unfolding on_vendor record_stats
  on_vendor-Inv s v o now name event_type event =
      if_cases InvOf
        ((s.sockets o).has_listeners
          && (Events.is_named name Events.stats_vendor_name
              && Events.is_named event_type Events.output_stats_event))
        (λ e.
          touch-Inv s v (s.sockets o).session
            (record (s.store (s.sockets o).session) {
              output_stats = (Events.recorded num now event (s.store (s.sockets o).session)).1;
            })
            (refl, refl, refl, refl))
        (λ e. v)
