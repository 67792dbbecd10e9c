-- ===== src/Instances/Start/Failures.antt =====
-- What a start leaves behind when it fails.
use obs_instance_manager.Prelude.{
  String, ◌≡◌, refl, sym, ap, subst, ◌∙◌, ◌⊎◌, inl, Option, none, some, List, [], ◌∷◌, arith,
}
use obs_instance_manager.Effects.{
  Error, Result, ok, err, Effect, broadcast, remove_container, patch_row, is_starting, World, ◌>>◌,
}
use obs_instance_manager.Effects.Rules.{bind_cases, catch_cases}
use obs_instance_manager.Instances.Services.{
  Instance, Found, Services, find_container_by_name, update_instance,
}
use obs_instance_manager.Instances.Start.{
  StartSecrets, require_stream_key, load_start_secrets, adopt_running_container, prepare_config,
  start_and_record, give_up, find_survivor, settle_failure, launch, after_failure, clean_up,
  run_created, provision, start_fresh, remove_stale, container_options,
}
use obs_instance_manager.Instances.Start.Signals.{
  signals, IsErr, load_start_secrets-quiet, require_stream_key-quiet,
}

-- An effect stands in a trace.
abbrev pub Has : Effect → List Effect → Type 0
Has e [] = ⊥
Has e (x ∷ xs) = (x ≡ e) ⊎ Has e xs

-- A start that is refused before anything is touched throws the reason and leaves the trace as it
-- was: no event, no change of the row, no container, no config.
pub refused_silently :
    {E : Type 0} (svc : Services E) (instance : Instance) (existing : Option Found) (w : World E)
    → ((e : Error) × ((load_start_secrets svc instance.id w).0 ≡ err e))
      ⊎ ((secrets : StartSecrets) × (e : Error) × ((load_start_secrets svc instance.id w).0
            ≡ ok secrets)
          × ((require_stream_key svc instance.user_id (load_start_secrets svc instance.id w).1).0
              ≡ err e))
    → IsErr (start_fresh svc instance existing w).0
      × ((start_fresh svc instance existing w).1.trace ≡ w.trace)
unfolding start_fresh load_start_secrets require_stream_key
refused_silently svc instance existing w h = ground arith

module _ {E : Type 0} (svc : Services E) (instance : Instance) (id : String) where
  settle_failure-Has :
      (e : Error) (w : World E)
      → Has (remove_container id) w.trace
      → Has (remove_container id) (settle_failure svc instance e w).1.trace
  unfolding settle_failure after_failure find_survivor find_container_by_name give_up
      adopt_running_container update_instance
  settle_failure-Has e w h = ground arith

  run_created-Has :
      (w : World E)
      → IsErr (run_created svc instance (ok id) w).0
      → Has (remove_container id) (run_created svc instance (ok id) w).1.trace
  unfolding run_created
  run_created-Has w =
      catch_cases (λ p. IsErr p.0 → Has (remove_container id) p.1.trace)
        (start_and_record svc instance id) (clean_up svc instance id) w (λ a w' h bad. absurd bad)
        (λ e w' h bad. removed e w')
    where
      removed :
          (e : Error) (w' : World E)
          → Has (remove_container id) (clean_up svc instance id e w').1.trace
      removed e w' = unfold clean_up in settle_failure-Has e _ (inl refl)

-- No container is left behind: if Docker created a container and the start then threw, its removal
-- was asked for.
pub launch_removes_orphan :
    {E : Type 0} (svc : Services E) (instance : Instance) (secrets : StartSecrets) (w : World E)
    (id : String)
    → (svc.create (container_options svc instance secrets) w.env).0 ≡ ok id
    → IsErr (launch svc instance secrets w).0
    → Has (remove_container id) (launch svc instance secrets w).1.trace
unfolding launch
launch_removes_orphan svc instance secrets w id created =
    rw created (run_created-Has svc instance id _)

-- The changes of rows in a trace.
abbrev pub row_changes : List Effect → List Effect
row_changes [] = []
row_changes (patch_row id fields ∷ es) = patch_row id fields ∷ row_changes es
row_changes (e ∷ es) = row_changes es

module _ {E : Type 0} (svc : Services E) (instance : Instance)
    (no_injection : (id password : String) (env : E)
      → IsErr (svc.inject_ws_password id password env).0) where
  -- A run that throws, tells nothing and changes no row.
  abbrev Stalls : {A : Type 0} → World E → Result A × World E → Type 0
  Stalls before (r, w) =
      IsErr r
      × (signals w.trace ≡ signals before.trace)
      × (row_changes w.trace ≡ row_changes before.trace)

  prepare_config-Stalls :
      (secrets : StartSecrets) (key : Option String) (w : World E)
      → Stalls w (prepare_config svc instance secrets key w)
  unfolding prepare_config
  prepare_config-Stalls secrets key w = grind (arith, no_injection)

  Stalls-trans :
      {A : Type 0} (v w : World E) (p : Result A × World E)
      → signals w.trace ≡ signals v.trace
      → row_changes w.trace ≡ row_changes v.trace
      → Stalls w p
      → Stalls v p
  Stalls-trans v w p h k (e, s, r) = (e, s ∙ h, r ∙ k)

  configure-Stalls :
      (secrets : StartSecrets) (key : Option String) (w : World E)
      → Stalls w ((prepare_config svc instance secrets key >> launch svc instance secrets) w)
  configure-Stalls secrets key w =
      bind_cases (Stalls w) (prepare_config svc instance secrets key)
        (λ _. launch svc instance secrets) w
        (λ a w' h. absurd (subst (Stalls w) h (prepare_config-Stalls secrets key w)).0)
        (λ e w' h. retype e w' (subst (Stalls w) h (prepare_config-Stalls secrets key w)))
    where
      retype :
          (e : Error) (w' : World E)
          → Stalls {A = Unit {0}} w (err e, w')
          → Stalls {A = Instance} w (err e, w')
      retype e w' s = s

  provision-Stalls :
      (existing : Option Found) (secrets : StartSecrets) (key : Option String) (w : World E)
      → Stalls w (provision svc instance existing secrets key w)
  unfolding provision
  provision-Stalls none secrets key w = configure-Stalls secrets key w
  provision-Stalls (some found) secrets key w =
      bind_cases (Stalls w) (remove_stale svc (some found)) _ w
        (λ a w' h.
          Stalls-trans w w'
            ((prepare_config svc instance secrets key >> launch svc instance secrets) w')
            (sym (ap (λ (p : Result (Unit {0}) × World E). signals p.1.trace) h))
            (sym (ap (λ (p : Result (Unit {0}) × World E). row_changes p.1.trace) h))
            (configure-Stalls secrets key w'))
        (λ e w' h. (
          tt,
          sym (ap (λ (p : Result (Unit {0}) × World E). signals p.1.trace) h),
          sym (ap (λ (p : Result (Unit {0}) × World E). row_changes p.1.trace) h),
        ))

-- The gap in the error handling: whenever a start passes its checks and the password cannot be
-- written into the config dir, it throws with `starting` as the last thing told and no change of
-- the row, so nothing ends the start for the other devices.
pub starting_without_end :
    {E : Type 0} (svc : Services E) (instance : Instance) (existing : Option Found) (w : World E)
    (secrets : StartSecrets) (key : Option String)
    → ((id password : String) (env : E) → IsErr (svc.inject_ws_password id password env).0)
    → (load_start_secrets svc instance.id w).0 ≡ ok secrets
    → (require_stream_key svc instance.user_id (load_start_secrets svc instance.id w).1).0 ≡ ok key
    → IsErr (start_fresh svc instance existing w).0
      × (signals (start_fresh svc instance existing w).1.trace
          ≡ (instance.id, is_starting) ∷ signals w.trace)
      × (row_changes (start_fresh svc instance existing w).1.trace ≡ row_changes w.trace)
unfolding start_fresh
starting_without_end {E} svc instance existing w secrets key h p q =
    rw (p, q)
      (
        stalled.0,
        stalled.1 ∙ ap (λ t. (instance.id, is_starting) ∷ signals t) same,
        stalled.2 ∙ ap row_changes same,
      )
  where
    loaded : World E
    loaded = (load_start_secrets svc instance.id w).1

    checked : World E
    checked = (require_stream_key svc instance.user_id loaded).1

    told : World E
    told = record checked { trace = broadcast instance.id is_starting ∷ checked.trace }

    same : checked.trace ≡ w.trace
    same =
        require_stream_key-quiet svc instance instance.user_id loaded
        ∙ load_start_secrets-quiet svc instance instance.id w

    stalled : Stalls svc instance h told (provision svc instance existing secrets key told)
    stalled = provision-Stalls svc instance h existing secrets key told
