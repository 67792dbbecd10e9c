-- ===== src/Instances/Stop/Laws.antt =====
-- What a stop, a delete and a sweep guarantee.
use mathlib.Core.List.{append_assoc, append-nil}
use obs_instance_manager.Prelude.{
  String, ◌≡◌, refl, sym, ap, ◌∙◌, ◌≢◌, ◌⊎◌, inl, inr, true, false, Option, none, some, List, [],
  ◌∷◌, ◌++◌, arith, if◌then◌else◌, ◌==◌, Option-cases, Bool-cases,
}
use obs_instance_manager.Prelude.Dict
use obs_instance_manager.Prelude.Dict.{get-set, get-remove}
use obs_instance_manager.Effects.{
  Error, ok, err, Effect, broadcast, patch_row, delete_row, stop_container, remove_container,
  clear_stream_key, persist_config, remove_local_config, remove_s3_config, is_stopping, is_stopped,
  World, pure, try_catch,
}
use obs_instance_manager.Effects.Rules.{Result-cases}
use obs_instance_manager.Instances.Services.{
  Instance, Services, update_instance, delete_instance, is_api_stopping,
}
use obs_instance_manager.Instances.Start.{usable}
use obs_instance_manager.Instances.Start.Signals.{signals, IsOk}
use obs_instance_manager.Instances.Start.Failures.{row_changes}
use obs_instance_manager.Instances.Stop.{
  set_stopped, is_running_status, stop_steps, stop_instance, tear_down, clear_container,
  destroy_instance, stop_if_running, sweep_one, skip_locked, sweep_each, sweep_unentitled_instances,
}

stop_steps-marks :
    {E : Type 0} (svc : Services E) (instance : Instance) (container_id : String) (w : World E)
    → (stop_steps svc instance container_id w).1.api_stopping ≡ w.api_stopping
unfolding stop_steps update_instance
stop_steps-marks svc instance container_id w = ground arith

-- However a stop ends, the mark on its container is gone and the marks on all other containers are
-- as before, so that later exits of the container are handled again.
stop_clears_mark :
    {E : Type 0} (svc : Services E) (instance : Instance) (container_id other : String)
    (w : World E)
    → is_api_stopping other (stop_instance svc instance container_id w).1
      ≡ (if container_id == other then false else is_api_stopping other w)
unfolding stop_instance
stop_clears_mark svc instance container_id other w =
    let marked = record w {
      trace = broadcast instance.id is_stopping ∷ w.trace;
      api_stopping = Dict.set w.api_stopping container_id true;
    } in
    rw (stop_steps-marks svc instance container_id marked) (
      ground (
        arith,
        get-remove (Dict.set w.api_stopping container_id true) container_id other,
        get-set w.api_stopping container_id other true,
      ))

-- A stop that returns did these things in this order: it told `stopping`, stopped the container,
-- cleared the stream key, pushed the config, removed the container, marked the row and told
-- `stopped`.
stop_order :
    {E : Type 0} (svc : Services E) (instance : Instance) (container_id : String) (w : World E)
    → IsOk (stop_instance svc instance container_id w).0
    → (stop_instance svc instance container_id w).1.trace
      ≡ broadcast instance.id is_stopped
        ∷ patch_row instance.id set_stopped
        ∷ remove_container container_id
        ∷ persist_config instance.user_id instance.id
        ∷ clear_stream_key instance.id
        ∷ stop_container container_id
        ∷ broadcast instance.id is_stopping
        ∷ w.trace
unfolding stop_instance stop_steps update_instance
stop_order svc instance container_id w h = ground arith

-- The gap in the error handling: whenever Docker refuses to stop the container, the stop throws
-- with `stopping` as the last thing told, no change of the row and the container not removed.
stopping_without_end :
    {E : Type 0} (svc : Services E) (instance : Instance) (container_id : String) (w : World E)
    (e : Error)
    → (svc.stop container_id w.env).0 ≡ err e
    → let (r, w') = stop_instance svc instance container_id w in
      (r ≡ err e)
      × (signals w'.trace ≡ (instance.id, is_stopping) ∷ signals w.trace)
      × (row_changes w'.trace ≡ row_changes w.trace)
unfolding stop_instance stop_steps
stopping_without_end svc instance container_id w e h = ground arith

-- The effects of taking an instance's container away, if it has one, over a trace.
abbrev pub cleared_trace : String → Option String → List Effect → List Effect
cleared_trace id none es = es
cleared_trace id (some container) es =
    remove_container container ∷ remove_local_config id ∷ stop_container container ∷ es

clear_container-ok :
    {E : Type 0} (svc : Services E) (instance : Instance) (container : Option String) (w : World E)
    → ((clear_container svc instance container w).0 ≡ ok tt)
      × ((clear_container svc instance container w).1.trace
          ≡ cleared_trace instance.id container w.trace)
unfolding clear_container tear_down
clear_container-ok svc instance none w = (refl, refl)
clear_container-ok svc instance (some id) w = (refl, refl)

-- A delete always reaches the row, whatever Docker, the disk and S3 answer: it ends as rest-api
-- answers the deletion of the row, which is its last effect.
destroy_reaches_row :
    {E : Type 0} (svc : Services E) (instance : Instance) (w : World E)
    → (env : E) × ((destroy_instance svc instance w).0 ≡ (svc.delete instance.id env).0)
      × ((destroy_instance svc instance w).1.trace
          ≡ delete_row instance.id
            ∷ remove_s3_config instance.user_id instance.id
            ∷ cleared_trace instance.id (usable instance.container_id) w.trace)
unfolding destroy_instance delete_instance
destroy_reaches_row svc instance w =
    let id = usable instance.container_id in
    let env =
      (svc.remove_s3 instance.user_id instance.id (clear_container svc instance id w).1.env).1 in
    (
      env,
      ground (arith, clear_container-ok svc instance id w),
      ground (arith, clear_container-ok svc instance id w),
    )

-- Why the sweep stopped an instance: when it came to it no operation held its lock, and rest-api
-- gave a row that was running and had a container.
pub record Entitles {E : Type 0} (svc : Services E) (id : String) : Type 0 where
  pub env : E
  pub unlocked : svc.is_locked id env ≡ false
  pub row : Instance
  pub looked_up : (svc.get_row id env).0 ≡ ok (some row)
  pub active : is_running_status row.status ≡ true
  pub has_container : usable row.container_id ≢ none

-- The first list is what was stopped of the second, in order, each for that reason.
pub data Picks {E : Type 0} (svc : Services E) : List String → List String → Type 0 where
  end : Picks svc [] []
  skip : {xs ys : List String} (y : String) → Picks svc xs ys → Picks svc xs (y ∷ ys)
  take :
      {xs ys : List String} (x : String)
      → Entitles svc x
      → Picks svc xs ys
      → Picks svc (x ∷ xs) (x ∷ ys)

module _ {E : Type 0} (svc : Services E) where
  row_cases :
      (found : Option Instance) (w : World E)
      → ((try_catch (stop_if_running svc found) (λ e. pure false) w).0 ≡ ok false)
        ⊎ ((row : Instance) × ((try_catch (stop_if_running svc found) (λ e. pure false) w).0
              ≡ ok true)
            × (found ≡ some row)
            × (is_running_status row.status ≡ true)
            × (usable row.container_id ≢ none))
  unfolding stop_if_running
  row_cases none w = inl refl
  row_cases (some row) w = elim (Option-cases (usable row.container_id)) [
    | inl h ↦ inl (ground arith)
    | inr (id, h) ↦ elim (Bool-cases (is_running_status row.status)) [
      | inl active ↦ elim (Result-cases (stop_instance svc row id w).0) [
        | inl (x, q) ↦ inr (row, ground arith, refl, active, λ e. ground arith)
        | inr (e, q) ↦ inl (ground arith)
      ]
      | inr idle ↦ inl (ground arith)
    ]
  ]

  -- One round never throws, and answers true only for that reason.
  round_cases :
      (id : String) (w : World E)
      → ((skip_locked svc id (svc.is_locked id w.env) w).0 ≡ ok false)
        ⊎ (((skip_locked svc id (svc.is_locked id w.env) w).0 ≡ ok true) × Entitles svc id)
  unfolding skip_locked sweep_one
  round_cases id w = elim (Bool-cases (svc.is_locked id w.env)) [
    | inl h ↦ inl (ground arith)
    | inr h ↦ elim (Result-cases (svc.get_row id w.env).0) [
      | inr (e, q) ↦ inl (ground arith)
      | inl (found, q) ↦ elim (row_cases found (record w { env = (svc.get_row id w.env).1 })) [
        | inl r ↦ inl (ground arith)
        | inr (row, r, here, active, has) ↦ inr (
          ground arith,
          record {
            env = w.env;
            unlocked = h;
            row = row;
            looked_up = q ∙ ap ok here;
            active = active;
            has_container = has;
          },
        )
      ]
    ]
  ]

  sweep_each-picks :
      (ids done : List String) (w : World E)
      → (xs : List String) × ((sweep_each svc ids done w).0 ≡ ok (done ++ xs)) × Picks svc xs ids
  unfolding sweep_each
  sweep_each-picks [] done w = ([], ap ok (sym (append-nil done)), end)
  sweep_each-picks (id ∷ ids) done w = elim (round_cases id w) [
    | inl r ↦
        let (xs, q, p) =
          sweep_each-picks ids done (skip_locked svc id (svc.is_locked id w.env) w).1 in
        (xs, rw r q, skip id p)
    | inr (r, why) ↦
        let (xs, q, p) =
          sweep_each-picks ids (done ++ id ∷ [])
            (skip_locked svc id (svc.is_locked id w.env) w).1 in
        (id ∷ xs, rw r (q ∙ ap ok (append_assoc done (id ∷ []) xs)), take id why p)
  ]

  -- Once the list of instances without an entitlement is there, the plan sweep never throws: it
  -- answers a sublist of it, in order, and each instance that it answers was not locked, running and
  -- had a container when the sweep came to it. An instance whose stop fails is left out.
  pub sweep_picks :
      (ids : List String) (w : World E)
      → (svc.list_unentitled w.env).0 ≡ ok ids
      → (xs : List String) × ((sweep_unentitled_instances svc w).0 ≡ ok xs) × Picks svc xs ids
  unfolding sweep_unentitled_instances
  sweep_picks ids w h =
      let listed = record w { env = (svc.list_unentitled w.env).1 } in
      let (xs, q, p) = sweep_each-picks ids [] listed in (xs, rw h q, p)
