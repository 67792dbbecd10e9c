-- ===== src/Docker/Cpuset.antt =====
-- src/utils/cpuset.ts and `allocateCpuset` of src/clients/docker.ts: the cores that a new container
-- is pinned to. A text is the list of its code units; `other` is what `Number` makes of a text that
-- is not a run of digits. A call of Docker that fails answers `none`.
pub mod Picking
pub mod Parsing
pub mod Allocation
use obs_instance_manager.Prelude.{
  ℕ, zero, suc, ◌+◌, ◌-◌, ◌/◌, String, Bool, true, false, ◌&&◌, ◌||◌, Option, none, some, List, [],
  ◌∷◌, ◌++◌, map, min, take, length, replicate, select, ltb, leb, eqb, if◌then◌else◌, or_else,
}
use obs_instance_manager.Prelude.Digits.{trim, split, join, decimal, number}
use obs_instance_manager.Prelude.Sort.{sort}
use obs_instance_manager.Instances.Services.{Container}
use obs_instance_manager.Docker.Names.{is_instance_container}

-- The numbers from `start` on, `n` of them.
unfoldable pub upto : ℕ → ℕ → List ℕ
upto start zero = []
upto start (suc n) = start ∷ upto (start + 1) n

-- for (let core = start; core <= end && core < total; core++)
abbrev pub cores_between : ℕ → ℕ → ℕ → List ℕ
cores_between start end total = upto start (min (end + 1) total - start)

abbrev pub bounded : ℕ → Option ℕ → Option ℕ → List ℕ
bounded total none end = []
bounded total (some start) none = []
bounded total (some start) (some end) = cores_between start end total

module _ (other : List ℕ → Option ℕ) (total : ℕ) where
  -- A range by the parts between its dashes; those after the second are not looked at.
  unfoldable pub parse_bounds : List (List ℕ) → List ℕ
  parse_bounds [] = []
  parse_bounds ([] ∷ ps) = []
  parse_bounds ((c ∷ cs) ∷ []) = let start = number other (c ∷ cs) in bounded total start start
  parse_bounds ((c ∷ cs) ∷ [] ∷ ps) = []
  parse_bounds ((c ∷ cs) ∷ (d ∷ ds) ∷ ps) =
      bounded total (number other (c ∷ cs)) (number other (d ∷ ds))

  unfoldable pub parse_range : List ℕ → List ℕ
  parse_range [] = []
  parse_range (c ∷ cs) = parse_bounds (split b'-' (c ∷ cs))

  unfoldable pub parse_parts : List (List ℕ) → List ℕ
  parse_parts [] = []
  parse_parts (p ∷ ps) = parse_range (trim p) ++ parse_parts ps

  abbrev pub parse_text : List ℕ → List ℕ
  parse_text [] = []
  parse_text (c ∷ cs) = parse_parts (split b',' (c ∷ cs))

  unfoldable pub parse_cpuset : Option (List ℕ) → List ℕ
  parse_cpuset none = []
  parse_cpuset (some cpuset) = parse_text cpuset

pub record Load : Type 0 where
  pub count : ℕ
  pub core : ℕ

unfoldable pub loads_from : ℕ → List ℕ → List Load
loads_from core [] = []
loads_from core (n ∷ usage) = record { count = n; core = core } ∷ loads_from (core + 1) usage

-- (a, b) => a.count - b.count || a.core - b.core
abbrev pub lighter : Load → Load → Bool
lighter a b = ltb a.count b.count || (eqb a.count b.count && leb a.core b.core)

unfoldable pub pick_least_used_cores : List ℕ → ℕ → List ℕ
pick_least_used_cores usage want =
    sort leb (map (λ (l : Load). l.core) (take want (sort lighter (loads_from 0 usage))))

-- usage[core] = (usage[core] ?? 0) + 1, for a core of the array
unfoldable pub bump : List ℕ → ℕ → List ℕ
bump [] core = []
bump (n ∷ usage) zero = (n + 1) ∷ usage
bump (n ∷ usage) (suc core) = n ∷ bump usage core

unfoldable pub bump_each : List ℕ → List ℕ → List ℕ
bump_each usage [] = usage
bump_each usage (c ∷ cores) = bump_each (bump usage c) cores

-- What Docker answers while the cores are picked.
pub record DockerHost : Type 0 where
  -- `info()`, with NCPU where it is given
  pub info : Option (Option ℕ)
  pub running : Option (List Container)
  -- `inspect()` of a container by its id, with its CpusetCpus
  pub pinned : String → Option (Option (List ℕ))

module _ (other : List ℕ → Option ℕ) (d : DockerHost) where
  -- The rounds over the running containers; the first failed call ends them.
  unfoldable pub add_usage : ℕ → List ℕ → List Container → Option (List ℕ)
  add_usage total usage [] = some usage
  add_usage total usage (c ∷ cs) = elim (d.pinned c.id) [
    | none ↦ none
    | some cpuset ↦ add_usage total (bump_each usage (parse_cpuset other total cpuset)) cs
  ]

  abbrev pub instances_of : List Container → List Container
  instances_of cs = select (λ c. is_instance_container c.names) cs

  abbrev pub pick_text : ℕ → Option (List ℕ) → Option (List ℕ)
  pick_text want none = none
  pick_text want (some usage) = some (join b',' (map decimal (pick_least_used_cores usage want)))

  abbrev pub pick_for : ℕ → ℕ → Option (List Container) → Option (List ℕ)
  pick_for want total none = none
  pick_for want total (some cs) =
      pick_text want (add_usage total (replicate total 0) (instances_of cs))

  abbrev pub allocate_for : ℕ → Option (Option ℕ) → Option (List ℕ)
  allocate_for want none = none
  allocate_for want (some ncpu) =
      let total = or_else ncpu 0 in
      if ltb total 1 || leb total want then none else pick_for want total d.running

  -- `Math.ceil` of a quota in nano-CPUs
  abbrev pub cores_wanted : ℕ → ℕ
  cores_wanted cpu_quota = (cpu_quota + 999999999) / 1000000000

  -- none: the container is not pinned
  unfoldable pub allocate_cpuset : ℕ → Option (List ℕ)
  allocate_cpuset cpu_quota =
      let want = cores_wanted cpu_quota in if ltb want 1 then none else allocate_for want d.info
