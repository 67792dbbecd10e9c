-- ===== src/Obs/Listener/Laws/Silence.antt =====
-- What is reported of an instance while it is not attached.
use obs_instance_manager.Prelude.{
  if_cases, option_cases, ℕ, String, ◌≡◌, refl, ◌∙◌, ◌≢◌, ◌&&◌, Option, none, some, List, [], ◌∷◌,
  arith, eqb, eq_iff, non_empty, if◌then◌else◌, ◌==◌,
}
use obs_instance_manager.Prelude.Dict
use obs_instance_manager.Prelude.Dict.{Dict, get-set, get-remove}
use obs_instance_manager.Instances.Services.{Instance}
use obs_instance_manager.Obs.Stats.{Numbers, OutputStatsEvent, Point}
use obs_instance_manager.Obs.Listener.{
  Stage, asking, connecting, seeding, Signal, scene_changed, point_written, warned, Listener,
  put_run, put_session, connect, add_session, attach_instance, written, detach_session,
  detach_instance, detach_each, detach_all, emit_named, emit_usable, emit_scene, schedule_retry,
}
use obs_instance_manager.Obs.Listener.Events
use obs_instance_manager.Obs.Listener.Events.{
  SecretsReply, lookup_failed, listener_closed, Event, attaches, detaches, detaches_all,
  secrets_answered, connect_timed_out, connect_succeeded, seed_answered, scene_event, vendor_event,
  socket_closed, timer_fires, handle, history,
}
use obs_instance_manager.Obs.Listener.Laws.Invariant.{InvOf}

-- The scenes reported for an instance.
unfoldable pub scenes_of : {N : Type 0} → String → List (Signal N) → List (Signal N)
scenes_of id [] = []
scenes_of id (scene_changed i name uuid ∷ signals) =
    let rest = scenes_of id signals in if i == id then scene_changed i name uuid ∷ rest else rest
scenes_of id (point_written p ∷ signals) = scenes_of id signals
scenes_of id (warned i ∷ signals) = scenes_of id signals

-- The instance is not attached, and these scenes have been reported for it.
abbrev pub Silent : {N : Type 0} → String → List (Signal N) → Listener N → Type 0
Silent id seen s = (Dict.get s.sessions id ≡ none) × (scenes_of id s.signals ≡ seen)

-- The event neither attaches the instance nor answers a request for a scene.
abbrev pub IsAside : {N : Type 0} → String → Event N → Type 0
IsAside id (attaches i) = i.id ≢ id
IsAside id (seed_answered k reply) = ⊥
IsAside id _ = Unit

module _ {N : Type 0} (id : String) (seen : List (Signal N)) (s : Listener N)
    (h : Silent id seen s) where
  scenes-written :
      (p : Option (Point N)) → scenes_of id (written p s.signals) ≡ scenes_of id s.signals
  unfolding scenes_of
  scenes-written none = refl
  scenes-written (some p) = refl

  schedule_retry-Silent : (r : ℕ) → Silent id seen (schedule_retry r s)
  unfolding schedule_retry scenes_of
  schedule_retry-Silent r = ground (arith, h)

  connect-Silent : (r : ℕ) → Silent id seen (connect r s)
  unfolding connect
  connect-Silent r = ground (arith, h)

  detach-Silent : (num : Numbers N) (j : String) → Silent id seen (detach_instance num j s)
  unfolding detach_instance detach_session
  detach-Silent num j =
      option_cases (Silent id seen) (Dict.get s.sessions j) (λ e. h)
        (λ r e.
          (ground (arith, get-remove s.sessions j id, eq_iff j id, h), scenes-written _ ∙ h.1))

  attach-Silent :
      (node_id : String) (i : Instance) → i.id ≢ id → Silent id seen (attach_instance node_id i s)
  unfolding attach_instance add_session connect
  attach-Silent node_id i n = ground (arith, get-set s.sessions i.id id s.next, eq_iff i.id id, h)

  open_socket-Silent : (k r : ℕ) → Silent id seen (Events.open_socket k r s)
  unfolding Events.open_socket
  open_socket-Silent k r = h

  emit_named-Silent :
      (r : ℕ) (name uuid : String)
      → (s.store r).instance_id ≢ id
      → Silent id seen (emit_named r name uuid s)
  unfolding emit_named scenes_of
  emit_named-Silent r name uuid n = ground (arith, eq_iff (s.store r).instance_id id, h)

  emit_usable-Silent :
      (r : ℕ) (name uuid : Option String)
      → (s.store r).instance_id ≢ id
      → Silent id seen (emit_usable r name uuid s)
  emit_usable-Silent r none uuid n = h
  emit_usable-Silent r (some name) none n = h
  emit_usable-Silent r (some name) (some uuid) n = emit_named-Silent r name uuid n

  on_scene-Silent :
      InvOf s → (o : ℕ) (name uuid : Option String) → Silent id seen (Events.on_scene o name uuid s)
  unfolding Events.on_scene emit_scene
  on_scene-Silent v o name uuid =
      if_cases (Silent id seen) (s.sockets o).has_listeners
        (λ e. emit_usable-Silent (s.sockets o).session (non_empty name) (non_empty uuid) (λ same.
          grind
            (arith, v.heard o e, v.quiet (s.sockets o).session, v.live (s.sockets o).session, h.0)))
        (λ e. h)

  connect_thrown-Silent :
      (k r : ℕ) (st : Stage)
      → ((r : ℕ) → Silent id seen (schedule_retry r (put_run k none s)))
      → Silent id seen (Events.connect_thrown k r st s)
  connect_thrown-Silent k r asking g = h
  connect_thrown-Silent k r (connecting o) g = g r
  connect_thrown-Silent k r seeding g = h

  connect_done-Silent : (k r : ℕ) (st : Stage) → Silent id seen (Events.connect_done k r st s)
  unfolding put_run put_session
  connect_done-Silent k r asking = h
  connect_done-Silent k r seeding = h
  connect_done-Silent k r (connecting o) =
      if_cases (Silent id seen) (s.store r).closing (λ e. h) (λ e. h)

  rejected-Silent :
      (o k r : ℕ) (st : Stage)
      → Silent id seen (schedule_retry r (put_run k none s))
      → Silent id seen (Events.rejected o k r st s)
  rejected-Silent o k r asking g = h
  rejected-Silent o k r seeding g = h
  rejected-Silent o k r (connecting p) g = if_cases (Silent id seen) (eqb p o) (λ e. g) (λ e. h)

  put_run-Silent : (k : ℕ) → Silent id seen (put_run k none s)
  unfolding put_run
  put_run-Silent k = h

  fire-Silent : (t r : ℕ) → Silent id seen (Events.fire t r s)
  unfolding Events.fire
  fire-Silent t r = h

  listener_closed-Silent : (o : ℕ) → Silent id seen (Events.listener_closed o s)
  listener_closed-Silent o =
      if_cases (Silent id seen) (s.sockets o).has_listeners
        (λ e. schedule_retry-Silent (s.sockets o).session) (λ e. h)

  on_vendor-Silent :
      (num : Numbers N) (o now : ℕ) (name event_type : Option String)
      (event : Option (OutputStatsEvent N))
      → Silent id seen (Events.on_vendor num o now name event_type event s)
  unfolding Events.on_vendor Events.record_stats
  on_vendor-Silent num o now name event_type event =
      if_cases (Silent id seen)
        ((s.sockets o).has_listeners
          && (Events.is_named name Events.stats_vendor_name
              && Events.is_named event_type Events.output_stats_event))
        (λ e. (h.0, scenes-written _ ∙ h.1)) (λ e. h)

module _ {N : Type 0} (num : Numbers N) (node_id id : String) (seen : List (Signal N)) where
  detach_each-Silent :
      (ids : List String) (s : Listener N)
      → Silent id seen s
      → Silent id seen (detach_each num ids s)
  unfolding detach_each
  detach_each-Silent [] s h = h
  detach_each-Silent (j ∷ js) s h =
      detach_each-Silent js (detach_instance num j s) (detach-Silent id seen s h num j)

  module _ (s : Listener N) (h : Silent id seen s) where
    retry_after_run : (k r : ℕ) → Silent id seen (schedule_retry r (put_run k none s))
    retry_after_run k r =
        schedule_retry-Silent id seen (put_run k none s) (put_run-Silent id seen s h k) r

    with_password-Silent :
        (k r : ℕ) (p : Option String) → Silent id seen (Events.with_password num k r p s)
    with_password-Silent k r none =
        detach-Silent id seen (put_run k none s) (put_run-Silent id seen s h k) num
          (s.store r).instance_id
    with_password-Silent k r (some p) = open_socket-Silent id seen s h k r

    asked-Silent :
        (k r : ℕ) (st : Stage) (reply : SecretsReply)
        → Silent id seen (Events.asked num k r st reply s)
    asked-Silent k r asking lookup_failed = retry_after_run k r
    asked-Silent k r asking (SecretsReply.password p) =
        if_cases (Silent id seen) (s.store r).closing (λ e. put_run-Silent id seen s h k)
          (λ e. with_password-Silent k r (non_empty p))
    asked-Silent k r (connecting o) reply = h
    asked-Silent k r seeding reply = h

  pub handle-Silent :
      (e : Event N) (s : Listener N)
      → InvOf s
      → IsAside id e
      → Silent id seen s
      → Silent id seen (handle num node_id e s)
  unfolding handle detach_all Events.on_secrets Events.on_timeout Events.on_connected
      Events.on_closed Events.on_timer
  handle-Silent (attaches i) s v n h = attach-Silent id seen s h node_id i n
  handle-Silent (detaches j) s v n h = detach-Silent id seen s h num j
  handle-Silent detaches_all s v n h = detach_each-Silent (Dict.keys s.sessions) s h
  handle-Silent (secrets_answered k reply) s v n h =
      option_cases (Silent id seen) (s.runs k) (λ e. h)
        (λ x e. asked-Silent s h k x.session x.stage reply)
  handle-Silent (connect_timed_out k) s v n h =
      option_cases (Silent id seen) (s.runs k) (λ e. h)
        (λ x e. connect_thrown-Silent id seen s h k x.session x.stage (retry_after_run s h k))
  handle-Silent (connect_succeeded k) s v n h =
      option_cases (Silent id seen) (s.runs k) (λ e. h)
        (λ x e. connect_done-Silent id seen s h k x.session x.stage)
  handle-Silent (seed_answered k reply) s v n h = absurd n
  handle-Silent (scene_event o name uuid) s v n h = on_scene-Silent id seen s h v o name uuid
  handle-Silent (vendor_event o now name event_type event) s v n h =
      on_vendor-Silent id seen s h num o now name event_type event
  handle-Silent (socket_closed o) s v n h =
      let t = listener_closed o s in
      let g : Silent id seen t = listener_closed-Silent id seen s h o in
      option_cases (Silent id seen) (t.runs (s.sockets o).run) (λ e. g)
        (λ x e.
          rejected-Silent id seen t g o (s.sockets o).run x.session x.stage
            (retry_after_run t g (s.sockets o).run x.session))
  handle-Silent (timer_fires t) s v n h =
      option_cases (Silent id seen) (s.timers t) (λ e. h)
        (λ x e.
          connect-Silent id seen (Events.fire t x.session s) (fire-Silent id seen s h t x.session)
            x.session)
