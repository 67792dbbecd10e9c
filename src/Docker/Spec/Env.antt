-- ===== src/Docker/Spec/Env.antt =====
-- The environment of a container: what a node's own settings can change in it.
use text.Mathlib.TextEquality.{eq_iff}
use obs_instance_manager.Prelude.{
  String, Bool, true, false, not, ◌≡◌, refl, ap, Option, none, some, List, [], ◌∷◌, ◌++◌, ◌==◌, All,
  All-append, arith, sym, Bool-cases, inl, inr, ℕ, strip_prefix,
}
use obs_instance_manager.Prelude.Sort.{Member, All-mono}
use obs_instance_manager.Prelude.Dict
use obs_instance_manager.Prelude.Dict.{Dict}
use obs_instance_manager.Effects.{ContainerOptions}
use obs_instance_manager.Docker.Spec.{
  InstanceRuntime, is_override, overrides_of, gpu_mode_of, runtime_with, runtime_from_env,
  selkies_defaults, spread, selkies_env, is_xserver, when, container_env, build_container_spec,
}

-- Every entry of the name has the value.
abbrev Only : String → String → List (String × String) → Type 0
Only name value env = All (λ (e : String × String). e.0 ≡ name → e.1 ≡ value) env

-- The name stands in the environment, and with no other value.
abbrev pub Fixed : String → String → List (String × String) → Type 0
Fixed name value env = Member (name, value) env × Only name value env

abbrev Names : (String → Type 0) → List (String × String) → Type 0
Names P env = All (λ (e : String × String). P e.0) env

abbrev Distinct : Dict String → Type 0
Distinct [] = Unit
Distinct ((j, w) ∷ env) = Names (λ k. (j == k) ≡ false) env × Distinct env

set-Names :
    (P : String → Type 0) (env : Dict String) (k v : String)
    → P k
    → Names P env
    → Names P (Dict.set env k v)
unfolding Dict.set
set-Names P [] k v p h = (p, tt)
set-Names P ((j, w) ∷ env) k v p h = elim (Bool-cases (j == k)) [
  | inl same ↦ rw same (h.0, h.1)
  | inr other ↦ rw other (h.0, set-Names P env k v p h.1)
]

spread-Names :
    (P : String → Type 0) (vars overrides : Dict String)
    → Names P vars
    → Names P overrides
    → Names P (spread vars overrides)
unfolding spread
spread-Names P vars [] h k = h
spread-Names P vars ((key, value) ∷ overrides) h k =
    spread-Names P (Dict.set vars key value) overrides (set-Names P vars key value k.0 h) k.1

abbrev IsOverride : String → Type 0
IsOverride key = is_override key ≡ true

overrides-IsOverride : (env : Dict String) → Names IsOverride (overrides_of env)
unfolding overrides_of
overrides-IsOverride [] = tt
overrides-IsOverride ((key, value) ∷ env) = elim (Bool-cases (is_override key)) [
  | inl own ↦ rw own (own, overrides-IsOverride env)
  | inr foreign ↦ rw foreign (overrides-IsOverride env)
]

defaults-IsOverride : (resolution : String) → Names IsOverride (selkies_defaults resolution)
unfolding is_override strip_prefix
defaults-IsOverride resolution = ground arith

selkies-IsOverride :
    (resolution : String) (env : Dict String)
    → Names IsOverride (selkies_env resolution (overrides_of env))
unfolding selkies_env is_override strip_prefix
selkies-IsOverride resolution env = set-Names IsOverride _ "SELKIES_PORT" "8080" refl (
    spread-Names IsOverride (selkies_defaults resolution) (overrides_of env)
      (defaults-IsOverride resolution) (overrides-IsOverride env))

Member-append_left : {A : Type 0} (a : A) (xs ys : List A) → Member a xs → Member a (xs ++ ys)
Member-append_left a [] ys m = absurd m
Member-append_left a (x ∷ xs) ys (inl e) = inl e
Member-append_left a (x ∷ xs) ys (inr m) = inr (Member-append_left a xs ys m)

Member-append_right : {A : Type 0} (a : A) (xs ys : List A) → Member a ys → Member a (xs ++ ys)
Member-append_right a [] ys m = m
Member-append_right a (x ∷ xs) ys m = inr (Member-append_right a xs ys m)

-- No two entries of a dictionary that was built by `set` have the same name.
set-Fixed : (env : Dict String) (k v : String) → Distinct env → Fixed k v (Dict.set env k v)
unfolding Dict.set
set-Fixed [] k v d = (inl refl, (λ e. refl, tt))
set-Fixed ((j, w) ∷ env) k v d = elim (Bool-cases (j == k)) [
  | inl same ↦
      let e : j ≡ k = (eq_iff j k).0 same in
      rw same (
        inl (ap (λ x. (x, v)) (sym e)),
        (
          λ h. refl,
          All-mono (λ (x : String × String). (j == x.0) ≡ false)
              (λ (x : String × String). x.0 ≡ k → x.1 ≡ v) env
              (λ x ne h. ground (arith, eq_iff j x.0, e)) d.0,
        ),
      )
  | inr other ↦
      rw other (
        inr (set-Fixed env k v d.1).0,
        (λ e. ground (arith, eq_iff j k), (set-Fixed env k v d.1).1),
      )
]

set-Distinct : (env : Dict String) (k v : String) → Distinct env → Distinct (Dict.set env k v)
unfolding Dict.set
set-Distinct [] k v d = (tt, tt)
set-Distinct ((j, w) ∷ env) k v d = elim (Bool-cases (j == k)) [
  | inl same ↦ rw same d
  | inr other ↦
      rw other (set-Names (λ x. (j == x) ≡ false) env k v other d.0, set-Distinct env k v d.1)
]

spread-Distinct : (vars overrides : Dict String) → Distinct vars → Distinct (spread vars overrides)
unfolding spread
spread-Distinct vars [] d = d
spread-Distinct vars ((key, value) ∷ overrides) d =
    spread-Distinct (Dict.set vars key value) overrides (set-Distinct vars key value d)

port-Fixed :
    (resolution : String) (overrides : Dict String)
    → Fixed "SELKIES_PORT" "8080" (selkies_env resolution overrides)
unfolding selkies_env
port-Fixed resolution overrides =
    set-Fixed (spread (selkies_defaults resolution) overrides) "SELKIES_PORT" "8080"
      (spread-Distinct (selkies_defaults resolution) overrides (ground arith))

-- A name that is no override does not come from the viewer's settings.
absent :
    (name value resolution : String) (env : Dict String)
    → is_override name ≡ false
    → Only name value (selkies_env resolution (overrides_of env))
absent name value resolution env foreign =
    All-mono (λ (e : String × String). IsOverride e.0)
      (λ (e : String × String). e.0 ≡ name → e.1 ≡ value) _
      (λ e own h. absurd (cc (ap is_override h))) (selkies-IsOverride resolution env)

-- An entry of another name.
named : {name value k v : String} → (k == name) ≡ false → k ≡ name → v ≡ value
named {name} {k} other e = absurd (cc (other, (eq_iff k name).1 e))

module _ (o : ContainerOptions) (rt : InstanceRuntime) (env : Dict String) where
  abbrev before : List (String × String)
  before =
      ("RESOLUTION", o.resolution)
      ∷ ("OBS_WEBSOCKET_PORT", "4455")
      ∷ ("OBS_WEBSOCKET_PASSWORD", o.obs_ws_password)
      ∷ ("DISPLAY_NUM", ":10")
      ∷ []

  abbrev gl : List (String × String)
  gl =
      when (not (is_xserver rt.gpu_mode))
        (("OBS_GL_MODE", rt.gl_mode) ∷ ("NVIDIA_DRIVER_CAPABILITIES", "all") ∷ [])

  gl-Only :
      (name value : String)
      → ("OBS_GL_MODE" == name) ≡ false
      → ("NVIDIA_DRIVER_CAPABILITIES" == name) ≡ false
      → (b : Bool)
      → Only name value
          (when b (("OBS_GL_MODE", rt.gl_mode) ∷ ("NVIDIA_DRIVER_CAPABILITIES", "all") ∷ []))
  gl-Only name value h k true = (named h, (named k, tt))
  gl-Only name value h k false = tt

  env-Only :
      (name value : String)
      → Only name value before
      → ((b : Bool)
          → Only name value
              (when b (("OBS_GL_MODE", rt.gl_mode) ∷ ("NVIDIA_DRIVER_CAPABILITIES", "all") ∷ [])))
      → Only name value (selkies_env o.resolution rt.selkies_overrides)
      → Only name value (("SELKIES_BASIC_AUTH_PASSWORD", o.viewer_password) ∷ [])
      → Only name value (container_env o rt)
  env-Only name value h g s p =
      let P = λ (e : String × String). e.0 ≡ name → e.1 ≡ value in
      All-append P before _ h (
        All-append P gl _ (g (not (is_xserver rt.gpu_mode)))
          (All-append P (selkies_env o.resolution rt.selkies_overrides) _ s p))

overrides_of_runtime :
    (env : Dict String) (rt : InstanceRuntime)
    → runtime_from_env env ≡ some rt
    → rt.selkies_overrides ≡ overrides_of env
unfolding runtime_from_env
overrides_of_runtime env rt h =
    elim (gpu_mode_of (Dict.get env "OBS_GPU_MODE"))
        as (λ m. runtime_with env m ≡ some rt → rt.selkies_overrides ≡ overrides_of env) [
          | none ↦ λ e. absurd (cc)
          | some mode ↦ λ e. ground arith
        ]
      h

-- Whatever the node's own environment sets, the container gets the passwords of its instance and the
-- two ports that the node dials, each under one value.
pub settings-Fixed :
    (env : Dict String) (rt : InstanceRuntime) (o : ContainerOptions) (shm : ℕ) (network : String)
    (cpuset : Option (List ℕ))
    → runtime_from_env env ≡ some rt
    → let e = (build_container_spec o shm network cpuset rt).env in
      Fixed "SELKIES_BASIC_AUTH_PASSWORD" o.viewer_password e
      × Fixed "OBS_WEBSOCKET_PASSWORD" o.obs_ws_password e
      × Fixed "SELKIES_PORT" "8080" e
      × Fixed "OBS_WEBSOCKET_PORT" "4455" e
unfolding build_container_spec is_override strip_prefix
settings-Fixed env rt o shm network cpuset h =
    let only = env-Only o rt env in
    let after_gl =
      λ (x : String × String)
          (m : Member x (
            selkies_env o.resolution rt.selkies_overrides
            ++ (("SELKIES_BASIC_AUTH_PASSWORD", o.viewer_password) ∷ []))).
        Member-append_right x (before o rt env) _ (Member-append_right x (gl o rt env) _ m) in
    let s = selkies_env o.resolution rt.selkies_overrides in
    let port = port-Fixed o.resolution rt.selkies_overrides in
    (
      (
        after_gl _ (Member-append_right _ s _ (inl refl)),
        only "SELKIES_BASIC_AUTH_PASSWORD" o.viewer_password
            (named refl, (named refl, (named refl, (named refl, tt))))
            (gl-Only o rt env "SELKIES_BASIC_AUTH_PASSWORD" o.viewer_password refl refl)
            (unset "SELKIES_BASIC_AUTH_PASSWORD" o.viewer_password refl) (λ e. refl, tt),
      ),
      (
        inr (inr (inl refl)),
        only "OBS_WEBSOCKET_PASSWORD" o.obs_ws_password
            (named refl, (named refl, ((λ e. refl), (named refl, tt))))
            (gl-Only o rt env "OBS_WEBSOCKET_PASSWORD" o.obs_ws_password refl refl)
            (unset "OBS_WEBSOCKET_PASSWORD" o.obs_ws_password refl) (named refl, tt),
      ),
      (
        after_gl _ (Member-append_left _ s _ port.0),
        only "SELKIES_PORT" "8080" (named refl, (named refl, (named refl, (named refl, tt))))
            (gl-Only o rt env "SELKIES_PORT" "8080" refl refl) port.1 (named refl, tt),
      ),
      (
        inr (inl refl),
        only "OBS_WEBSOCKET_PORT" "4455" (named refl, ((λ e. refl), (named refl, (named refl, tt))))
            (gl-Only o rt env "OBS_WEBSOCKET_PORT" "4455" refl refl)
            (unset "OBS_WEBSOCKET_PORT" "4455" refl) (named refl, tt),
      ),
    )
  where
    unset :
        (name value : String)
        → is_override name ≡ false
        → Only name value (selkies_env o.resolution rt.selkies_overrides)
    unset name value foreign =
        rw (overrides_of_runtime env rt h) (absent name value o.resolution env foreign)
