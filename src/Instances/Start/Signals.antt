-- ===== src/Instances/Start/Signals.antt =====
-- What the other devices of the owner are told while an instance starts.
use obs_instance_manager.Prelude.{
  Bool, true, false, String, ◌≡◌, refl, sym, ap, subst, ◌∙◌, ◌⊎◌, inl, inr, Option, none, some,
  List, [], ◌∷◌, arith, Option-cases, Bool-cases,
}
use obs_instance_manager.Effects.{
  Error, Result, ok, err, Effect, broadcast, remove_container, LifecycleAction, is_starting,
  is_started, is_error, World, M, ◌>>=◌,
}
use obs_instance_manager.Effects.Rules.{bind_cases, catch_cases}
use obs_instance_manager.Instances.Services.{
  Instance, Found, Services, find_container_by_name, update_instance,
}
use obs_instance_manager.Instances.Start.{
  StartSecrets, require_stream_key, load_start_secrets, adopt_running_container, prepare_config,
  start_and_record, give_up, find_survivor, settle_failure, launch, after_failure, clean_up,
  run_created, provision, start_fresh, resume, restart_instance, running_id, remove_stale,
}

-- An event and the instance that it tells of.
abbrev pub LifecycleSignal : Type 0
LifecycleSignal = String × LifecycleAction

-- The lifecycle events in a trace, newest first.
abbrev pub signals : List Effect → List LifecycleSignal
signals [] = []
signals (broadcast id action ∷ es) = (id, action) ∷ signals es
signals (e ∷ es) = signals es

abbrev pub IsOk : {A : Type 0} → Result A → Type 0
IsOk (ok a) = Unit
IsOk (err e) = ⊥

abbrev pub IsErr : {A : Type 0} → Result A → Type 0
IsErr (ok a) = ⊥
IsErr (err e) = Unit

-- A property of how a run ends and what it tells, over what had been told before, that a run which
-- throws and tells nothing has.
module _ {E A B : Type 0} (Q : List LifecycleSignal → Result B × World E → Type 0)
    (silent : (before : List LifecycleSignal) (e : Error) (w : World E)
      → signals w.trace ≡ before
      → Q before (err e, w)) where
  -- After a step that tells nothing.
  after_quiet :
      (m : M E A) (f : A → M E B) (w : World E)
      → signals (m w).1.trace ≡ signals w.trace
      → ((a : A) (w' : World E) → Q (signals w'.trace) (f a w'))
      → Q (signals w.trace) ((m >>= f) w)
  after_quiet m f w quiet rest =
      bind_cases (Q (signals w.trace)) m f w
        (λ a w' h. subst (λ s. Q s (f a w')) (same w' h) (rest a w'))
        (λ e w' h. silent (signals w.trace) e w' (same w' h))
    where
      same : {r : Result A} (w' : World E) → m w ≡ (r, w') → signals w'.trace ≡ signals w.trace
      same w' h = sym (ap (λ (p : Result A × World E). signals p.1.trace) h) ∙ quiet

module _ {E : Type 0} (svc : Services E) (instance : Instance) where
  -- How a run ends and what it tells, over what had been told before: `started` if it returns.
  abbrev Ends : List LifecycleSignal → Result Instance × World E → Type 0
  Ends before (r, w) =
      (IsOk r × (signals w.trace ≡ (instance.id, is_started) ∷ before))
      ⊎ (IsErr r
          × ((signals w.trace ≡ before) ⊎ (signals w.trace ≡ (instance.id, is_error) ∷ before)))

  silent_Ends :
      (before : List LifecycleSignal) (e : Error) (w : World E)
      → signals w.trace ≡ before
      → Ends before (err e, w)
  silent_Ends before e w h = inr (tt, inl h)

  -- How the part of a start between the creation and the record ends.
  abbrev Records : List LifecycleSignal → Result Instance × World E → Type 0
  Records before (r, w) =
      (IsOk r × (signals w.trace ≡ (instance.id, is_started) ∷ before))
      ⊎ (IsErr r × (signals w.trace ≡ before))

  adopt-Records :
      (id : String) (w : World E)
      → Records (signals w.trace) (adopt_running_container svc instance id w)
  unfolding adopt_running_container update_instance
  adopt-Records id w = ground arith

  adopt-Ends :
      (id : String) (w : World E)
      → Ends (signals w.trace) (adopt_running_container svc instance id w)
  unfolding adopt_running_container update_instance
  adopt-Ends id w = ground arith

  give_up-Ends : (e : Error) (w : World E) → Ends (signals w.trace) (give_up svc instance e w)
  unfolding give_up update_instance
  give_up-Ends e w = ground arith

  after_failure-Ends :
      (e : Error) (found : Option Found) (w : World E)
      → Ends (signals w.trace) (after_failure svc instance e found w)
  unfolding after_failure
  after_failure-Ends e found w = elim (Option-cases (running_id found)) [
    | inl h ↦ rw (h, after_failure) (give_up-Ends e w)
    | inr (id, h) ↦ rw (h, after_failure) (adopt-Ends id w)
  ]

  find_survivor-quiet : (name : String) (w : World E) → (find_survivor svc name w).1.trace ≡ w.trace
  unfolding find_survivor find_container_by_name
  find_survivor-quiet name w = ground arith

  settle_failure-Ends :
      (e : Error) (w : World E) → Ends (signals w.trace) (settle_failure svc instance e w)
  unfolding settle_failure
  settle_failure-Ends e w =
      after_quiet Ends silent_Ends (find_survivor svc instance.container_name)
        (after_failure svc instance e) w
        (ap signals (find_survivor-quiet instance.container_name w)) (after_failure-Ends e)

  clean_up-Ends :
      (id : String) (e : Error) (w : World E)
      → Ends (signals w.trace) (clean_up svc instance id e w)
  unfolding clean_up
  clean_up-Ends id e w =
      settle_failure-Ends e
        (record w { env = (svc.remove id w.env).1; trace = remove_container id ∷ w.trace })

  start_and_record-Ends :
      (id : String) (w : World E) → Records (signals w.trace) (start_and_record svc instance id w)
  unfolding start_and_record update_instance
  start_and_record-Ends id w = ground arith

  run_created-Ends :
      (created : Result String) (w : World E)
      → Ends (signals w.trace) (run_created svc instance created w)
  unfolding run_created
  run_created-Ends (err e) w = settle_failure-Ends e w
  run_created-Ends (ok id) w =
      catch_cases (Ends (signals w.trace)) (start_and_record svc instance id)
        (clean_up svc instance id) w
        (λ a w' h. ok_case a w' (subst (Records (signals w.trace)) h (start_and_record-Ends id w)))
        (λ e w' h. err_case e w' (subst (Records (signals w.trace)) h (start_and_record-Ends id w)))
    where
      ok_case :
          (a : Instance) (w' : World E)
          → Records (signals w.trace) (ok a, w')
          → Ends (signals w.trace) (ok a, w')
      ok_case a w' r = ground arith

      err_case :
          (e : Error) (w' : World E)
          → Records (signals w.trace) (err e, w')
          → Ends (signals w.trace) (clean_up svc instance id e w')
      err_case e w' (inr (_, h)) =
          subst (λ s. Ends s (clean_up svc instance id e w')) h (clean_up-Ends id e w')
      err_case e w' (inl (h, _)) = absurd h

  launch-Ends :
      (secrets : StartSecrets) (w : World E)
      → Ends (signals w.trace) (launch svc instance secrets w)
  unfolding launch
  launch-Ends secrets w = run_created-Ends _ _

  prepare_config-quiet :
      (secrets : StartSecrets) (key : Option String) (w : World E)
      → signals (prepare_config svc instance secrets key w).1.trace ≡ signals w.trace
  unfolding prepare_config
  prepare_config-quiet secrets key w = ground arith

  -- All that a start may tell over what had been told before, by whether a container runs already.
  abbrev pub Told : Bool → List LifecycleSignal → Result Instance × World E → Type 0
  Told true before (r, w) =
      (IsOk r × (signals w.trace ≡ (instance.id, is_started) ∷ before))
      ⊎ (IsErr r × (signals w.trace ≡ before))
  Told false before (r, w) =
      (IsOk r × (signals w.trace ≡ (instance.id, is_started) ∷ (instance.id, is_starting) ∷ before))
      ⊎ (IsErr r
          × ((signals w.trace ≡ before)
              ⊎ (signals w.trace ≡ (instance.id, is_starting) ∷ before)
              ⊎ (signals w.trace ≡ (instance.id, is_error) ∷ (instance.id, is_starting) ∷ before)))

  silent_Told :
      (runs : Bool) (before : List LifecycleSignal) (e : Error) (w : World E)
      → signals w.trace ≡ before
      → Told runs before (err e, w)
  silent_Told true before e w h = inr (tt, h)
  silent_Told false before e w h = inr (tt, inl h)

  Ends-Told :
      (before : List LifecycleSignal) (p : Result Instance × World E)
      → Ends ((instance.id, is_starting) ∷ before) p
      → Told false before p
  Ends-Told before p h = ground arith

  remove_stale-quiet :
      (existing : Option Found) (w : World E)
      → signals (remove_stale svc existing w).1.trace ≡ signals w.trace
  remove_stale-quiet none w = refl
  remove_stale-quiet (some found) w = refl

  pub load_start_secrets-quiet :
      (id : String) (w : World E) → (load_start_secrets svc id w).1.trace ≡ w.trace
  unfolding load_start_secrets
  load_start_secrets-quiet id w = ground arith

  pub require_stream_key-quiet :
      (id : String) (w : World E) → (require_stream_key svc id w).1.trace ≡ w.trace
  unfolding require_stream_key
  require_stream_key-quiet id w = ground arith

  provision-Ends :
      (existing : Option Found) (secrets : StartSecrets) (key : Option String) (w : World E)
      → Ends (signals w.trace) (provision svc instance existing secrets key w)
  unfolding provision
  provision-Ends existing secrets key w =
      after_quiet Ends silent_Ends (remove_stale svc existing) _ w (remove_stale-quiet existing w)
        (λ _ w'.
          after_quiet Ends silent_Ends (prepare_config svc instance secrets key) _ w'
            (prepare_config-quiet secrets key w') (λ _ w''. launch-Ends secrets w''))

  start_fresh-Told :
      (existing : Option Found) (w : World E)
      → Told false (signals w.trace) (start_fresh svc instance existing w)
  unfolding start_fresh
  start_fresh-Told existing w =
      after_quiet (Told false) (silent_Told false) (load_start_secrets svc instance.id) _ w
        (ap signals (load_start_secrets-quiet instance.id w))
        (λ secrets w'.
          after_quiet (Told false) (silent_Told false) (require_stream_key svc instance.user_id) _
            w' (ap signals (require_stream_key-quiet instance.user_id w'))
            (λ key v.
              let v' : World E = record v { trace = broadcast instance.id is_starting ∷ v.trace } in
              Ends-Told (signals v.trace) (provision svc instance existing secrets key v')
                (provision-Ends existing secrets key v')))

  pub find_container-quiet :
      (name : String) (w : World E) → (find_container_by_name svc name w).1.trace ≡ w.trace
  unfolding find_container_by_name
  find_container-quiet name w = ground arith

-- Whether Docker's answer is a container that runs.
abbrev pub is_up : Result (Option Found) → Bool
is_up (ok (some found)) = found.is_running
is_up (ok none) = false
is_up (err e) = false

module _ {E : Type 0} (svc : Services E) (instance : Instance) where
  choose-Told :
      (existing : Option Found) (w : World E)
      → Told svc instance (is_up (ok existing)) (signals w.trace) (resume svc instance existing w)
  unfolding resume
  choose-Told none w = start_fresh-Told svc instance none w
  choose-Told (some found) w = elim (Bool-cases found.is_running) [
    | inl up ↦ rw (up, resume) (adopt-Records svc instance found.id w)
    | inr down ↦ rw (down, resume) (start_fresh-Told svc instance (some found) w)
  ]

-- Whatever the systems outside answer, a start of an instance ends in one of these ways, and tells
-- nothing else and of no other instance. Where Docker answers that a container of the name runs, it
-- returns and has told `started`, or it throws and has told nothing. Otherwise it returns and has told
-- `starting` and then `started`; or it throws and has told nothing, `starting` alone, or `starting`
-- and then `error`.
pub restart_signals :
    {E : Type 0} (svc : Services E) (instance : Instance) (w : World E)
    → Told svc instance
        (is_up (find_container_by_name svc instance.container_name w).0)
        (signals w.trace)
        (restart_instance svc instance w)
unfolding restart_instance
restart_signals {E} svc instance w =
    let find = find_container_by_name svc instance.container_name in
    bind_cases (Told svc instance (is_up (find w).0) (signals w.trace)) find (resume svc instance) w
      (λ a w' h.
        subst (λ u. Told svc instance u (signals w.trace) (resume svc instance a w'))
          (sym (ap (λ (p : Result (Option Found) × World E). is_up p.0) h))
          (subst (λ s. Told svc instance (is_up (ok a)) s (resume svc instance a w')) (same w' h)
            (choose-Told svc instance a w')))
      (λ e w' h. silent_Told svc instance (is_up (find w).0) (signals w.trace) e w' (same w' h))
  where
    same :
        {r : Result (Option Found)} (w' : World E)
        → find_container_by_name svc instance.container_name w ≡ (r, w')
        → signals w'.trace ≡ signals w.trace
    same w' h =
        sym (ap (λ (p : Result (Option Found) × World E). signals p.1.trace) h)
        ∙ ap signals (find_container-quiet svc instance instance.container_name w)
