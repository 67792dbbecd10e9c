-- ===== src/Obs/Listener/Laws/Syncing.antt =====
-- What a pass of `syncInstances` leaves attached.
use obs_instance_manager.Prelude.{
  if_cases, ap, ◌∙◌, ℕ, String, ◌≡◌, refl, sym, inl, inr, Bool, true, false, Option, none, some,
  is_some, non_empty, or_else, ◌||◌, ◌&&◌, not, All, List, [], ◌∷◌, arith, any, eq_iff, Bool-cases,
  Option-cases, if◌then◌else◌, ◌==◌,
}
use obs_instance_manager.Prelude.Dict
use obs_instance_manager.Prelude.Dict.{Dict, get-set, get-remove}
use obs_instance_manager.Effects.{InstanceStatus, creating, running, stopped, error}
use obs_instance_manager.Instances.Services.{Instance}
use obs_instance_manager.Instances.Stop.{is_running_status}
use obs_instance_manager.Obs.Stats.{Numbers}
use obs_instance_manager.Obs.Listener.{
  Listener, connect, add_session, attach_instance, detach_session, detach_instance,
}
use obs_instance_manager.Obs.Listener.Events.{
  Event, history, should_watch, watch_map, detach_unwatched, attach_each, sync_instances,
}

-- Whether some row shows the instance as running in a container.
abbrev pub shows_running : InstanceStatus → Bool
shows_running running = true
shows_running creating = false
shows_running stopped = false
shows_running error = false

abbrev pub is_watched : List Instance → String → Bool
is_watched rows id =
    any (λ i. (shows_running i.status && not (or_else i.container_id "" == "")) && (i.id == id))
      rows

status-watched :
    (status : InstanceStatus) (container_id : Option String)
    → (is_running_status status && is_some (non_empty container_id))
      ≡ (shows_running status && not (or_else container_id "" == ""))
status-watched running none = refl
status-watched running (some id) = ground arith
status-watched creating id = refl
status-watched stopped id = refl
status-watched error id = refl

module _ {N : Type 0} (s : Listener N) where
  has-detach :
      (num : Numbers N) (j id : String)
      → Dict.has (detach_instance num j s).sessions id
        ≡ (if j == id then false else Dict.has s.sessions id)
  unfolding detach_instance detach_session
  has-detach num j id = elim (Option-cases (Dict.get s.sessions j)) [
    | inl e ↦ rw (detach_instance, e) (ground (arith, eq_iff j id))
    | inr (r, e) ↦ rw (detach_instance, e) (ground (arith, get-remove s.sessions j id))
  ]

  sessions-connect : (r : ℕ) → (connect r s).sessions ≡ s.sessions
  unfolding connect
  sessions-connect r = ground arith

module _ {N : Type 0} (s : Listener N) where
  has-attach :
      (node_id : String) (i : Instance) (id : String)
      → Dict.has (attach_instance node_id i s).sessions id
        ≡ ((i.id == id) || Dict.has s.sessions id)
  unfolding attach_instance connect add_session
  has-attach node_id i id = ground (arith, get-set s.sessions i.id id s.next, eq_iff i.id id)

module _ {N : Type 0} (num : Numbers N) (node_id : String) where
  -- Whether the list of names holds this one.
  abbrev listed : List String → String → Bool
  listed ids id = any (λ j. j == id) ids

  has-unwatched :
      (m : Dict Instance) (ids : List String) (s : Listener N) (id : String)
      → Dict.has (detach_unwatched num m ids s).sessions id
        ≡ (Dict.has s.sessions id && (Dict.has m id || not (listed ids id)))
  unfolding detach_unwatched
  has-unwatched m [] s id = ground arith
  has-unwatched m (j ∷ ids) s id = ground (
    arith,
    has-unwatched m ids s id,
    has-unwatched m ids (detach_instance num j s) id,
    has-detach s num j id,
    eq_iff j id,
  )

  -- A map in which each instance stands under its own id.
  abbrev Keyed : Dict Instance → Type 0
  Keyed m = All (λ e. e.1.id ≡ e.0) m

  set-Keyed : (m : Dict Instance) (i : Instance) → Keyed m → Keyed (Dict.set m i.id i)
  unfolding Dict.set
  set-Keyed [] i h = (refl, tt)
  set-Keyed ((j, w) ∷ m) i (h, hs) = elim (Bool-cases (j == i.id)) [
    | inl e ↦ rw e (sym ((eq_iff j i.id).0 e), hs)
    | inr e ↦ rw e (h, set-Keyed m i hs)
  ]

  watch_map-Keyed : (rows : List Instance) (m : Dict Instance) → Keyed m → Keyed (watch_map rows m)
  unfolding watch_map
  watch_map-Keyed [] m h = h
  watch_map-Keyed (i ∷ is) m h = elim (Bool-cases (should_watch i)) [
    | inl e ↦ rw e (watch_map-Keyed is (Dict.set m i.id i) (set-Keyed m i h))
    | inr e ↦ rw e (watch_map-Keyed is m h)
  ]

  has-watch_map :
      (rows : List Instance) (m : Dict Instance) (id : String)
      → Dict.has (watch_map rows m) id ≡ (Dict.has m id || is_watched rows id)
  unfolding watch_map
  has-watch_map [] m id = ground arith
  has-watch_map (i ∷ is) m id = ground (
    arith,
    has-watch_map is m id,
    has-watch_map is (Dict.set m i.id i) id,
    get-set m i.id id i,
    eq_iff i.id id,
    status-watched i.status i.container_id,
  )

  -- In every state, what happens while the pass waits leaves the attachment of this instance as it is.
  abbrev pub Keeps : (String → List (Event N)) → String → Type 0
  Keeps meanwhile id =
      (j : String) (t : Listener N)
      → Dict.has (history num node_id (meanwhile j) t).sessions id ≡ Dict.has t.sessions id

  -- One round of the attaches.
  abbrev attached : (String → List (Event N)) → Instance → Listener N → Listener N
  attached meanwhile i s =
      if Dict.has s.sessions i.id
      then s
      else history num node_id (meanwhile i.id) (attach_instance node_id i s)

  has-attached :
      (meanwhile : String → List (Event N)) (i : Instance) (s : Listener N) (id : String)
      → Keeps meanwhile id
      → Dict.has (attached meanwhile i s).sessions id ≡ ((i.id == id) || Dict.has s.sessions id)
  has-attached meanwhile i s id keeps =
      if_cases
        (λ (t : Listener N). Dict.has t.sessions id ≡ ((i.id == id) || Dict.has s.sessions id))
        (Dict.has s.sessions i.id) (λ e. ground (arith, e, eq_iff i.id id))
        (λ e. keeps i.id (attach_instance node_id i s) ∙ has-attach s node_id i id)

  has-attach_each :
      (meanwhile : String → List (Event N)) (m : Dict Instance) (s : Listener N) (id : String)
      → Keeps meanwhile id
      → Keyed m
      → Dict.has (attach_each num node_id meanwhile m s).sessions id
        ≡ (Dict.has s.sessions id || Dict.has m id)
  unfolding attach_each Dict.get
  has-attach_each meanwhile [] s id keeps h = ground arith
  has-attach_each meanwhile ((j, i) ∷ m) s id keeps (h, hs) =
      has-attach_each meanwhile m (attached meanwhile i s) id keeps hs
      ∙ ap (λ c. c || Dict.has m id) (has-attached meanwhile i s id keeps)
      ∙ ground (arith, eq_iff i.id id, eq_iff j id, h)

  listed-keys : {V : Type 0} (m : Dict V) (id : String) → listed (Dict.keys m) id ≡ Dict.has m id
  unfolding Dict.get
  listed-keys [] id = refl
  listed-keys ((j, w) ∷ m) id = ground (arith, listed-keys m id)

  -- Whatever was attached before, a pass of `syncInstances` leaves an instance attached exactly if
  -- some row shows it as running, with a container: provided that what happens while the pass waits
  -- between two attaches would in no state attach or detach that instance.
  pub synced :
      (meanwhile : String → List (Event N)) (rows : List Instance) (s : Listener N) (id : String)
      → Keeps meanwhile id
      → Dict.has (sync_instances num node_id meanwhile rows s).sessions id ≡ is_watched rows id
  unfolding sync_instances Dict.get
  synced meanwhile rows s id keeps =
      let m = watch_map rows Dict.empty in
      ground (
        arith,
        has-attach_each meanwhile m (detach_unwatched num m (Dict.keys s.sessions) s) id keeps
            (watch_map-Keyed rows Dict.empty tt),
        has-unwatched m (Dict.keys s.sessions) s id,
        listed-keys s.sessions id,
        has-watch_map rows Dict.empty id,
      )
