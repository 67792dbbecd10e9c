-- ===== src/Docker/Cpuset/Allocation.antt =====
-- `allocateCpuset` of src/clients/docker.ts: what a new container is pinned to.
use obs_instance_manager.Prelude.{
  ℕ, zero, suc, ◌+◌, ◌≤◌, ◌<◌, ◌≡◌, refl, ap, sym, ◌∙◌, subst, String, false, ◌||◌, Option, some,
  List, [], ◌∷◌, map, length, replicate, length-replicate, All, arith, eqb, ltb, leb, if◌then◌else◌,
}
use obs_instance_manager.Prelude.Digits.{join, decimal, safe_bound}
use obs_instance_manager.Instances.Services.{Container}
use obs_instance_manager.Docker.Cpuset.{
  parse_cpuset, pick_least_used_cores, bump, bump_each, DockerHost, add_usage, instances_of,
  cores_wanted, allocate_cpuset, allocate_for, pick_for, pick_text,
}
use obs_instance_manager.Docker.Cpuset.Picking.{Bears, Picks, pick-Picks}
use obs_instance_manager.Docker.Cpuset.Parsing.{parse_cpuset-Below, cpuset_roundtrip}

abbrev hit : ℕ → ℕ → ℕ
hit k c = if eqb k c then 1 else 0

-- How often the list has the core.
abbrev pub count : ℕ → List ℕ → ℕ
count k [] = 0
count k (c ∷ cores) = hit k c + count k cores

Bears-ext :
    (f g : ℕ → ℕ) (j : ℕ) (usage : List ℕ)
    → ((k : ℕ) → j ≤ k → f k ≡ g k)
    → Bears f j usage
    → Bears g j usage
Bears-ext f g j [] same b = tt
Bears-ext f g j (n ∷ usage) same b = (
  sym (same j (omega arith)) ∙ b.0,
  Bears-ext f g (j + 1) usage (λ k h. same k (omega arith)) b.1,
)

bump-Bears :
    (f : ℕ → ℕ) (j c : ℕ) (usage : List ℕ)
    → Bears f j usage
    → c < length usage
    → Bears (λ k. f k + hit k (j + c)) j (bump usage c)
unfolding bump
bump-Bears f j c [] b h = absurd (omega arith)
bump-Bears f j zero (n ∷ usage) b h =
    (ground arith, Bears-ext f (λ k. f k + hit k (j + 0)) (j + 1) usage (λ k le. ground arith) b.1)
bump-Bears f j (suc c) (n ∷ usage) b h = (
  ground arith,
  Bears-ext (λ k. f k + hit k (j + 1 + c)) (λ k. f k + hit k (j + suc c)) (j + 1) (bump usage c)
      (λ k le. ground arith) (bump-Bears f (j + 1) c usage b.1 (omega arith)),
)

length-bump : (usage : List ℕ) (c : ℕ) → length (bump usage c) ≡ length usage
unfolding bump
length-bump [] c = refl
length-bump (n ∷ usage) zero = refl
length-bump (n ∷ usage) (suc c) = ap suc (length-bump usage c)

bump_each-Bears :
    (f : ℕ → ℕ) (total : ℕ) (usage cores : List ℕ)
    → Bears f 0 usage
    → length usage ≡ total
    → All (λ c. c < total) cores
    → Bears (λ k. f k + count k cores) 0 (bump_each usage cores)
unfolding bump_each
bump_each-Bears f total usage [] b l h = Bears-ext f (λ k. f k + 0) 0 usage (λ k le. omega arith) b
bump_each-Bears f total usage (c ∷ cores) b l h =
    Bears-ext (λ k. f k + hit k (0 + c) + count k cores) (λ k. f k + (hit k c + count k cores)) 0
      (bump_each (bump usage c) cores) (λ k le. ground arith)
      (bump_each-Bears (λ k. f k + hit k (0 + c)) total (bump usage c) cores
        (bump-Bears f 0 c usage b (omega (arith, h.0))) (length-bump usage c ∙ l) h.1)

length-bump_each : (usage cores : List ℕ) → length (bump_each usage cores) ≡ length usage
unfolding bump_each
length-bump_each usage [] = refl
length-bump_each usage (c ∷ cores) = length-bump_each (bump usage c) cores ∙ length-bump usage c

replicate-Bears : (j n : ℕ) → Bears (λ k. 0) j (replicate n 0)
replicate-Bears j zero = tt
replicate-Bears j (suc n) = (refl, replicate-Bears (j + 1) n)

module _ (other : List ℕ → Option ℕ) (d : DockerHost) (total : ℕ) (pins : String → Option (List ℕ))
    (answers : (id : String) → d.pinned id ≡ some (pins id)) where
  -- How often the containers are pinned to a core.
  abbrev pub pinned_to : List Container → ℕ → ℕ
  pinned_to [] k = 0
  pinned_to (c ∷ cs) k = count k (parse_cpuset other total (pins c.id)) + pinned_to cs k

  add_usage_step :
      (usage : List ℕ) (c : Container) (cs : List Container)
      → add_usage other d total usage (c ∷ cs)
        ≡ add_usage other d total (bump_each usage (parse_cpuset other total (pins c.id))) cs
  unfolding add_usage
  add_usage_step usage c cs = rw (answers c.id, add_usage) refl

  add_usage-Bears :
      (f : ℕ → ℕ) (usage : List ℕ) (cs : List Container)
      → Bears f 0 usage
      → length usage ≡ total
      → (final : List ℕ) × (add_usage other d total usage cs ≡ some final)
        × Bears (λ k. f k + pinned_to cs k) 0 final
        × (length final ≡ total)
  unfolding add_usage
  add_usage-Bears f usage [] b l =
      (usage, refl, Bears-ext f (λ k. f k + 0) 0 usage (λ k le. omega arith) b, l)
  add_usage-Bears f usage (c ∷ cs) b l =
      let cores = parse_cpuset other total (pins c.id) in
      let rest =
        add_usage-Bears (λ k. f k + count k cores) (bump_each usage cores) cs
          (bump_each-Bears f total usage cores b l (parse_cpuset-Below other total (pins c.id)))
          (length-bump_each usage cores ∙ l) in
      (
        rest.0,
        add_usage_step usage c cs ∙ rest.1,
        Bears-ext (λ k. f k + count k cores + pinned_to cs k)
            (λ k. f k + (count k cores + pinned_to cs k)) 0 rest.0 (λ k le. omega arith) rest.2,
        rest.3,
      )

  -- Where Docker answers every call and the quota leaves cores over, a new container is pinned to as
  -- many of the node's cores as its quota buys, rounded up, and to those that the fewest instance
  -- containers are pinned to. Docker is given their text, from which these cores are read again when
  -- the next container is placed.
  pub allocated_cores :
      (cs : List Container) (cpu_quota : ℕ)
      → d.info ≡ some (some total)
      → d.running ≡ some cs
      → 0 < cpu_quota
      → cores_wanted other d cpu_quota < total
      → total ≤ safe_bound
      → (cores : List ℕ) × (allocate_cpuset other d cpu_quota
          ≡ some (join b',' (map decimal cores)))
        × (parse_cpuset other total (some (join b',' (map decimal cores))) ≡ cores)
        × Picks (pinned_to (instances_of other d cs)) total (cores_wanted other d cpu_quota) cores
  unfolding allocate_cpuset
  allocated_cores cs cpu_quota info running pos few safe =
      let want = cores_wanted other d cpu_quota in
      let used =
        add_usage-Bears (λ k. 0) (replicate total 0) (instances_of other d cs)
          (replicate-Bears 0 total) (length-replicate total 0) in
      let load = pinned_to (instances_of other d cs) in
      let bears : Bears load 0 used.0 =
        Bears-ext (λ k. 0 + load k) load 0 used.0 (λ k le. omega arith) used.2 in
      let picks =
        subst (λ n. Picks load n want (pick_least_used_cores used.0 want)) used.3
          (pick-Picks load want used.0 bears) in
      (
        pick_least_used_cores used.0 want,
        rw enough (
            ap (allocate_for other d want) info
            ∙ rw room
                (ap (pick_for other d want total) running ∙ ap (pick_text other d want) used.1)),
        cpuset_roundtrip other total safe (pick_least_used_cores used.0 want) picks.within,
        picks,
      )
    where
      enough : ltb (cores_wanted other d cpu_quota) 1 ≡ false
      enough = ground arith

      room : (ltb total 1 || leb total (cores_wanted other d cpu_quota)) ≡ false
      room = ground arith
