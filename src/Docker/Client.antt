-- ===== src/Docker/Client.antt =====
-- src/clients/docker.ts: `parseShmSize` and the creation of a container. A text is the list of its
-- code units. What a call of Docker answers is a field of the record; the image is pulled, or found
-- among the local ones, before the container is created.
use obs_instance_manager.Prelude.{
  ℕ, ◌+◌, ◌*◌, ◌≡◌, refl, ap, sym, ◌∙◌, ◌↔◌, ◌⊎◌, inl, inr, String, Bool, true, false, ◌||◌, Option,
  none, some, List, [], ◌∷◌, ◌++◌, All, All-append, eqb, arith, if◌then◌else◌,
}
use obs_instance_manager.Prelude.Digits.{
  is_digit, is_space, trim, trim_lem, digits_not_space, decimal, decimal-IsDigits, decimal-cons,
  value_from, value-decimal, IsDigits,
}
use obs_instance_manager.Prelude.Sort.{All-mono}
use obs_instance_manager.Effects.{Result, ok, err, failed, ContainerOptions}
use obs_instance_manager.Media.Types.{codes}
use obs_instance_manager.Docker.Cpuset.{DockerHost, allocate_cpuset}
use obs_instance_manager.Docker.Spec.{InstanceRuntime, ContainerSpec, build_container_spec}

-- `(\d+)`: the digits in front, and the rest.
unfoldable pub digits_run : List ℕ → List ℕ × List ℕ
digits_run [] = ([], [])
digits_run (c ∷ cs) =
    let (digits, rest) = digits_run cs in if is_digit c then (c ∷ digits, rest) else ([], c ∷ cs)

-- A small letter, or its capital.
abbrev pub is_letter : ℕ → ℕ → Bool
is_letter x c = eqb c x || eqb (c + 32) x

-- `b?$`
abbrev pub at_end : List ℕ → Bool
at_end [] = true
at_end (c ∷ []) = is_letter b'b' c
at_end (c ∷ d ∷ cs) = false

abbrev pub scale : ℕ → Option ℕ
scale c =
    if is_letter b'k' c
    then some 1024
    else if is_letter b'm' c
    then some (1024 * 1024)
    else if is_letter b'g' c
    then some (1024 * 1024 * 1024)
    else none

-- `([kmg]?)b?$`, and the multiplier that the unit stands for.
unfoldable pub multiplier : List ℕ → Option ℕ
multiplier [] = some 1
multiplier (c ∷ cs) = elim (scale c) [
  | none ↦ if at_end (c ∷ cs) then some 1 else none
  | some k ↦ if at_end cs then some k else none
]

abbrev pub scaled : List ℕ → Option ℕ → Option ℕ
scaled [] k = none
scaled (d ∷ digits) none = none
scaled (d ∷ digits) (some k) = some (value_from 0 (d ∷ digits) * k)

-- None is the error "Invalid shm_size".
unfoldable pub parse_shm_size : List ℕ → Option ℕ
parse_shm_size shm_size =
    let (digits, rest) = digits_run (trim shm_size) in scaled digits (multiplier rest)

pub record DockerApi : Type 0 where
  pub pull : Result (Unit {0})
  pub inspect_image : Result (Unit {0})
  pub host : DockerHost
  pub create : ContainerSpec → Result String

abbrev pub or_cached : Result (Unit {0}) → Result (Unit {0}) → Result (Unit {0})
or_cached (ok t) local = ok t
or_cached (err e) (ok t) = ok t
or_cached (err e) (err f) = err e

unfoldable pub ensure_image_pulled : DockerApi → Result (Unit {0})
ensure_image_pulled api = or_cached api.pull api.inspect_image

module _ (other : List ℕ → Option ℕ) (api : DockerApi) (rt : InstanceRuntime)
    (network : String) where
  abbrev pub create_with : ContainerOptions → Option ℕ → Result String
  create_with o none = err (failed none "Invalid shm_size")
  create_with o (some bytes) =
      api.create
        (build_container_spec o bytes network (allocate_cpuset other api.host o.cpu_quota) rt)

  abbrev pub create_after : ContainerOptions → Result (Unit {0}) → Result String
  create_after o (err e) = err e
  create_after o (ok t) = create_with o (parse_shm_size (codes o.shm_size))

  unfoldable pub create_container : ContainerOptions → Result String
  create_container o = create_after o (ensure_image_pulled api)

digits_run-append :
    (ds rest : List ℕ)
    → IsDigits ds
    → digits_run rest ≡ ([], rest)
    → digits_run (ds ++ rest) ≡ (ds, rest)
unfolding digits_run
digits_run-append [] rest h r = r
digits_run-append (d ∷ ds) rest h r = rw (digits_run-append ds rest h.1 r) (ground arith)

multiplier_rest :
    (unit : List ℕ) (k : ℕ)
    → multiplier unit ≡ some k
    → (digits_run unit ≡ ([], unit)) × All (λ c. is_space c ≡ false) unit
unfolding multiplier digits_run is_space
multiplier_rest [] k h = (refl, tt)
multiplier_rest (c ∷ []) k h = ground arith
multiplier_rest (c ∷ d ∷ []) k h = ground arith
multiplier_rest (c ∷ d ∷ e ∷ cs) k h = ground arith

read_unit :
    (n : ℕ) (unit : List ℕ) (k : ℕ)
    → multiplier unit ≡ some k
    → parse_shm_size (decimal n ++ unit) ≡ some (n * k)
unfolding parse_shm_size
read_unit n unit k h =
    let (r, spaces) = multiplier_rest unit k h in
    let (d, ds, e) = decimal-cons n in
    let v : value_from 0 (d ∷ ds) ≡ n = ap (value_from 0) (sym e) ∙ value-decimal n in
    let trimmed = trim_lem (decimal n ++ unit) (
      All-append (λ c. is_space c ≡ false) (decimal n) unit
        (digits_not_space (decimal n) (decimal-IsDigits n)) spaces) in
    rw (trimmed, digits_run-append (decimal n) unit (decimal-IsDigits n) r) (rw (e, h) (rw v refl))

-- The units of Docker's sizes in bytes.
abbrev pub units : List (String × ℕ)
units =
    ("", 1)
    ∷ ("b", 1)
    ∷ ("k", 1024)
    ∷ ("K", 1024)
    ∷ ("kb", 1024)
    ∷ ("KB", 1024)
    ∷ ("m", 1048576)
    ∷ ("M", 1048576)
    ∷ ("mb", 1048576)
    ∷ ("MB", 1048576)
    ∷ ("g", 1073741824)
    ∷ ("G", 1073741824)
    ∷ ("gb", 1073741824)
    ∷ ("GB", 1073741824)
    ∷ []

units-multiplier : All (λ (u : String × ℕ). multiplier (codes u.0) ≡ some u.1) units
unfolding multiplier codes
units-multiplier = ground arith

-- A size that is written as a number in decimal and a unit, in small letters or capitals, is read as
-- that many of the unit.
shm_size_value :
    (n : ℕ)
    → All (λ (u : String × ℕ). parse_shm_size (decimal n ++ codes u.0) ≡ some (n * u.1)) units
shm_size_value n =
    All-mono (λ (u : String × ℕ). multiplier (codes u.0) ≡ some u.1) _ units
      (λ u h. read_unit n (codes u.0) u.1 h) units-multiplier

at_hand : (p q : Result (Unit {0})) → (or_cached p q ≡ ok tt) ↔ ((p ≡ ok tt) ⊎ (q ≡ ok tt))
at_hand (ok t) q = ((λ h. inl h), (λ h. refl))
at_hand (err e) (ok t) = ((λ h. inr h), (λ h. refl))
at_hand (err e) (err f) = ((λ h. cc), (λ h. elim h [ inl k ↦ cc | inr k ↦ cc ]))

module _ (other : List ℕ → Option ℕ) (api : DockerApi) (rt : InstanceRuntime) (network : String)
    (o : ContainerOptions) (id : String) where
  abbrev built : ℕ → ContainerSpec
  built bytes = build_container_spec o bytes network (allocate_cpuset other api.host o.cpu_quota) rt

  sized :
      (m : Option ℕ)
      → create_with other api rt network o m ≡ ok id
      → (bytes : ℕ) × (m ≡ some bytes) × (api.create (built bytes) ≡ ok id)
  sized none h = cc
  sized (some bytes) h = (bytes, refl, h)

  with_image :
      (r : Result (Unit {0}))
      → create_after other api rt network o r ≡ ok id
      → (r ≡ ok tt)
        × (create_with other api rt network o (parse_shm_size (codes o.shm_size)) ≡ ok id)
  with_image (ok t) h = (refl, h)
  with_image (err e) h = cc

  -- A container is created exactly when its image is at hand, pulled or in the local cache, its size
  -- is readable and Docker takes the container, pinned or not.
  created_iff : (create_container other api rt network o ≡ ok id) ↔ (
      ((api.pull ≡ ok tt) ⊎ (api.inspect_image ≡ ok tt))
      × ((bytes : ℕ) × (parse_shm_size (codes o.shm_size) ≡ some bytes)
          × (api.create (
                build_container_spec o bytes network
                  (allocate_cpuset other api.host o.cpu_quota)
                  rt)
              ≡ ok id)))
  unfolding create_container ensure_image_pulled
  created_iff = (
    (λ h.
        let (image, rest) = with_image (or_cached api.pull api.inspect_image) h in
        (
          (at_hand api.pull api.inspect_image).0 image,
          sized (parse_shm_size (codes o.shm_size)) rest,
        )),
    (λ h.
        ap (create_after other api rt network o) ((at_hand api.pull api.inspect_image).1 h.0)
        ∙ ap (create_with other api rt network o) h.1.1
        ∙ h.1.2),
  )
