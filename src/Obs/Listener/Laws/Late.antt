-- ===== src/Obs/Listener/Laws/Late.antt =====
-- What is reported of an instance after it was detached.
use obs_instance_manager.Prelude.{
  if_cases, option_cases, ℕ, ◌+◌, ◌≤◌, ◌++◌, ◌⊎◌, inl, inr, ap, subst, length, Bool-cases, String,
  ◌≡◌, refl, ◌∙◌, ◌≢◌, Option, none, some, List, [], ◌∷◌, arith, eq_refl, ◌==◌,
}
use obs_instance_manager.Prelude.Dict
use obs_instance_manager.Prelude.Dict.{Dict, get-set, get-remove}
use obs_instance_manager.Obs.Stats.{Numbers}
use obs_instance_manager.Obs.Listener.{
  Stage, asking, connecting, seeding, Signal, scene_changed, Listener, no_sessions, put_run,
  detach_session, detach_instance, emit_named, emit_usable, emit_scene, same_uuid,
}
use obs_instance_manager.Obs.Listener.Events
use obs_instance_manager.Obs.Listener.Events.{
  SecretsReply, lookup_failed, listener_closed, Event, attaches, detaches, detaches_all,
  secrets_answered, connect_timed_out, connect_succeeded, seed_answered, scene_event, vendor_event,
  socket_closed, timer_fires, handle, history,
}
use obs_instance_manager.Obs.Listener.Laws.Invariant.{InvOf}
use obs_instance_manager.Obs.Listener.Laws.Histories.{no_sessions-Inv, handle-Inv, history-Inv}
use obs_instance_manager.Obs.Listener.Laws.Silence.{scenes_of, Silent, IsAside, handle-Silent}

-- The event does not attach the instance.
abbrev pub Apart : {N : Type 0} → String → Event N → Type 0
Apart id (attaches i) = i.id ≢ id
Apart id _ = Unit

abbrev pub AllApart : {N : Type 0} → String → List (Event N) → Type 0
AllApart id [] = Unit
AllApart id (e ∷ es) = Apart id e × AllApart id es

abbrev is_seed : {N : Type 0} → Event N → ℕ
is_seed (seed_answered k reply) = 1
is_seed _ = 0

-- How many answers to requests for the current scene are among these events.
abbrev pub seeds : {N : Type 0} → List (Event N) → ℕ
seeds [] = 0
seeds (e ∷ es) = is_seed e + seeds es

-- The instance is not attached, and since these scenes at most so many more were reported for it.
abbrev pub Late : {N : Type 0} → String → List (Signal N) → ℕ → Listener N → Type 0
Late {N} id seen n s =
    (Dict.get s.sessions id ≡ none)
    × ((added : List (Signal N)) × (scenes_of id s.signals ≡ added ++ seen) × (length added ≤ n))

module _ {N : Type 0} (id : String) (s : Listener N) where
  -- At most one scene more, and the same sessions.
  abbrev Adds : Listener N → Type 0
  Adds t =
      (t.sessions ≡ s.sessions)
      × ((scenes_of id t.signals ≡ scenes_of id s.signals)
          ⊎ ((x : Signal N) × (scenes_of id t.signals ≡ x ∷ scenes_of id s.signals)))

  emit_named-Adds : (r : ℕ) (name uuid : String) → Adds (emit_named r name uuid s)
  unfolding emit_named scenes_of
  emit_named-Adds r name uuid =
      if_cases Adds (same_uuid (s.store r).last_scene_uuid uuid) (λ e. (refl, inl refl))
        (λ e. elim (Bool-cases ((s.store r).instance_id == id)) [
          | inl here ↦ (refl, inr (scene_changed (s.store r).instance_id name uuid, rw here refl))
          | inr away ↦ (refl, inl (rw away refl))
        ])

  emit_usable-Adds : (r : ℕ) (name uuid : Option String) → Adds (emit_usable r name uuid s)
  emit_usable-Adds r none uuid = (refl, inl refl)
  emit_usable-Adds r (some name) none = (refl, inl refl)
  emit_usable-Adds r (some name) (some uuid) = emit_named-Adds r name uuid

seeded-Adds :
    {N : Type 0} (id : String) (s : Listener N) (k r : ℕ) (st : Stage)
    (reply : Option Events.SceneReply)
    → Adds id s (Events.seeded k r st reply s)
unfolding emit_scene put_run
seeded-Adds id s k r asking reply = (refl, inl refl)
seeded-Adds id s k r (connecting o) reply = (refl, inl refl)
seeded-Adds id s k r seeding none = (refl, inl refl)
seeded-Adds id s k r seeding (some scene) = emit_usable-Adds id (put_run k none s) r _ _

on_seed-Adds :
    {N : Type 0} (id : String) (s : Listener N) (k : ℕ) (reply : Option Events.SceneReply)
    → Adds id s (Events.on_seed k reply s)
unfolding Events.on_seed
on_seed-Adds id s k reply =
    option_cases (Adds id s) (s.runs k) (λ e. (refl, inl refl))
      (λ x e. seeded-Adds id s k x.session x.stage reply)

-- What may be added by an event, and by one after the others.
Adds-Late :
    {N : Type 0} (id : String) (seen : List (Signal N)) (n : ℕ) (s t : Listener N)
    → Adds id s t
    → Late id seen n s
    → Late id seen (n + 1) t
Adds-Late id seen n s t (same, inl none_new) (gone, (added, e, few)) =
    (ap (λ m. Dict.get m id) same ∙ gone, (added, none_new ∙ e, omega (arith, few)))
Adds-Late id seen n s t (same, inr (x, one_new)) (gone, (added, e, few)) = (
  ap (λ m. Dict.get m id) same ∙ gone,
  (x ∷ added, one_new ∙ ap (λ l. x ∷ l) e, omega (arith, few)),
)

Silent-Late :
    {N : Type 0} (id : String) (seen : List (Signal N)) (n : ℕ) (s t : Listener N)
    → (Silent id (scenes_of id s.signals) s → Silent id (scenes_of id s.signals) t)
    → Late id seen n s
    → Late id seen (n + 0) t
Silent-Late id seen n s t keeps (gone, (added, e, few)) =
    let (gone', same) = keeps (gone, refl) in (gone', (added, same ∙ e, omega (arith, few)))

module _ {N : Type 0} (num : Numbers N) (node_id id : String) (seen : List (Signal N)) where
  aside-Late :
      (e : Event N) (n : ℕ) (s : Listener N)
      → InvOf s
      → IsAside id e
      → Late id seen n s
      → Late id seen (n + 0) (handle num node_id e s)
  aside-Late e n s v aside h =
      Silent-Late id seen n s (handle num node_id e s)
        (handle-Silent num node_id id (scenes_of id s.signals) e s v aside) h

  handle-Late :
      (e : Event N) (n : ℕ) (s : Listener N)
      → InvOf s
      → Apart id e
      → Late id seen n s
      → Late id seen (n + is_seed e) (handle num node_id e s)
  unfolding handle
  handle-Late (attaches i) n s v a h = aside-Late (attaches i) n s v a h
  handle-Late (detaches j) n s v a h = aside-Late (detaches j) n s v tt h
  handle-Late detaches_all n s v a h = aside-Late detaches_all n s v tt h
  handle-Late (secrets_answered k reply) n s v a h =
      aside-Late (secrets_answered k reply) n s v tt h
  handle-Late (connect_timed_out k) n s v a h = aside-Late (connect_timed_out k) n s v tt h
  handle-Late (connect_succeeded k) n s v a h = aside-Late (connect_succeeded k) n s v tt h
  handle-Late (seed_answered k reply) n s v a h =
      Adds-Late id seen n s (Events.on_seed k reply s) (on_seed-Adds id s k reply) h
  handle-Late (scene_event o name uuid) n s v a h = aside-Late (scene_event o name uuid) n s v tt h
  handle-Late (vendor_event o now name event_type event) n s v a h =
      aside-Late (vendor_event o now name event_type event) n s v tt h
  handle-Late (socket_closed o) n s v a h = aside-Late (socket_closed o) n s v tt h
  handle-Late (timer_fires t) n s v a h = aside-Late (timer_fires t) n s v tt h

  history-Late :
      (es : List (Event N)) (n : ℕ) (s : Listener N)
      → InvOf s
      → AllApart id es
      → Late id seen n s
      → Late id seen (n + seeds es) (history num node_id es s)
  unfolding history
  history-Late [] n s v a h = subst (λ m. Late id seen m s) (omega arith) h
  history-Late (e ∷ es) n s v (a, rest) h =
      subst (λ m. Late id seen m (history num node_id es (handle num node_id e s))) (omega arith)
        (history-Late es (n + is_seed e) (handle num node_id e s) (handle-Inv num node_id e s v)
          rest (handle-Late e n s v a h))

detach-gone :
    {N : Type 0} (num : Numbers N) (id : String) (s : Listener N)
    → Dict.get (detach_instance num id s).sessions id ≡ none
unfolding detach_instance detach_session
detach-gone {N} num id s =
    option_cases (λ (t : Listener N). Dict.get t.sessions id ≡ none) (Dict.get s.sessions id)
      (λ e. e) (λ r e. ground (arith, get-remove s.sessions id id, eq_refl id))

-- After any history, once an instance is detached and until it is attached again, whatever happens it
-- stays detached, and the scenes reported for it are at most one for each answer to a request for the
-- current scene that arrives; without such an answer none is.
pub detached_silent :
    {N : Type 0} (num : Numbers N) (node_id id : String) (es later : List (Event N))
    → AllApart id later
    → let s = handle num node_id (detaches id) (history num node_id es no_sessions) in
      Late id (scenes_of id s.signals) (seeds later) (history num node_id later s)
unfolding handle
detached_silent num node_id id es later a =
    let s = history num node_id es no_sessions in
    let v = history-Inv num node_id es no_sessions no_sessions-Inv in
    let t = handle num node_id (detaches id) s in
    subst (λ m. Late id (scenes_of id t.signals) m (history num node_id later t)) (omega arith)
      (history-Late num node_id id (scenes_of id t.signals) later 0 t
        (handle-Inv num node_id (detaches id) s v) a
        (detach-gone num id s, ([], refl, omega arith)))
