-- ===== src/Docker/Cpuset/Parsing.antt =====
-- `parseCpuset` of src/utils/cpuset.ts: its range, and the text of picked cores.
use obs_instance_manager.Prelude.{
  ℕ, zero, suc, ◌+◌, ◌-◌, ◌≤◌, ◌<◌, ◌≡◌, ◌≢◌, refl, ap, subst, ◌∙◌, Option, none, some, List, [],
  ◌∷◌, ◌++◌, map, min, All, All-append, arith,
}
use obs_instance_manager.Prelude.Sort.{All-mono}
use obs_instance_manager.Prelude.Digits.{
  trim, split, join, decimal, number, IsDigits, decimal-IsDigits, decimal-cons, number-decimal,
  trim-digits, split-digits, split-join, safe_bound,
}
use obs_instance_manager.Docker.Cpuset.{
  upto, cores_between, bounded, parse_bounds, parse_range, parse_parts, parse_text, parse_cpuset,
}

upto-bounds : (start n : ℕ) → All (λ c. c < start + n) (upto start n)
unfolding upto
upto-bounds start zero = tt
upto-bounds start (suc n) = (
  omega arith,
  All-mono (λ c. c < start + 1 + n) (λ c. c < start + suc n) (upto (start + 1) n)
      (λ c h. omega arith) (upto-bounds (start + 1) n),
)

module _ (other : List ℕ → Option ℕ) (total : ℕ) where
  abbrev Below : List ℕ → Type 0
  Below cores = All (λ c. c < total) cores

  cores_between-Below : (start end : ℕ) → Below (cores_between start end total)
  unfolding upto
  cores_between-Below start end =
      elim (min (end + 1) total - start)
          as (λ n. n ≡ min (end + 1) total - start → Below (upto start n)) [
            | zero ↦ λ e. tt
            | suc n ↦ λ e.
                All-mono (λ c. c < start + suc n) (λ c. c < total) (upto start (suc n))
                  (λ c h. omega arith) (upto-bounds start (suc n))
          ]
        refl

  bounded-Below : (start end : Option ℕ) → Below (bounded total start end)
  bounded-Below none end = tt
  bounded-Below (some start) none = tt
  bounded-Below (some start) (some end) = cores_between-Below start end

  parse_bounds-Below : (ps : List (List ℕ)) → Below (parse_bounds other total ps)
  unfolding parse_bounds
  parse_bounds-Below [] = tt
  parse_bounds-Below ([] ∷ ps) = tt
  parse_bounds-Below ((c ∷ cs) ∷ []) = bounded-Below (number other (c ∷ cs)) (number other (c ∷ cs))
  parse_bounds-Below ((c ∷ cs) ∷ [] ∷ ps) = tt
  parse_bounds-Below ((c ∷ cs) ∷ (d ∷ ds) ∷ ps) =
      bounded-Below (number other (c ∷ cs)) (number other (d ∷ ds))

  parse_range-Below : (p : List ℕ) → Below (parse_range other total p)
  unfolding parse_range
  parse_range-Below [] = tt
  parse_range-Below (c ∷ cs) = parse_bounds-Below (split b'-' (c ∷ cs))

  parse_parts-Below : (ps : List (List ℕ)) → Below (parse_parts other total ps)
  unfolding parse_parts
  parse_parts-Below [] = tt
  parse_parts-Below (p ∷ ps) =
      All-append (λ c. c < total) (parse_range other total (trim p)) (parse_parts other total ps)
        (parse_range-Below (trim p)) (parse_parts-Below ps)

  -- Whatever the text is, each core that is read from it is one of the node's.
  pub parse_cpuset-Below :
      (cpuset : Option (List ℕ)) → All (λ c. c < total) (parse_cpuset other total cpuset)
  unfolding parse_cpuset
  parse_cpuset-Below none = tt
  parse_cpuset-Below (some []) = tt
  parse_cpuset-Below (some (c ∷ cs)) = parse_parts-Below (split b',' (c ∷ cs))

  module _ (safe : total ≤ safe_bound) where
    one_core : (c : ℕ) → c < total → cores_between c c total ≡ c ∷ []
    unfolding upto
    one_core c h = let e : min (c + 1) total - c ≡ 1 = omega arith in rw e refl

    parse_bounds-decimal :
        (c : ℕ) (d : ℕ) (ds : List ℕ)
        → c < total
        → decimal c ≡ d ∷ ds
        → parse_bounds other total ((d ∷ ds) ∷ []) ≡ c ∷ []
    unfolding parse_bounds
    parse_bounds-decimal c d ds h e =
        rw (← e) (rw (number-decimal other c (omega arith)) (one_core c h))

    parse_range-decimal : (c : ℕ) → c < total → parse_range other total (decimal c) ≡ c ∷ []
    unfolding parse_range
    parse_range-decimal c h =
        let (d, ds, e) = decimal-cons c in
        rw e (
          rw (split-digits b'-' (d ∷ ds) (omega arith) (subst IsDigits e (decimal-IsDigits c)))
            (parse_bounds-decimal c d ds h e))

    parse_parts-decimal :
        (cores : List ℕ) → Below cores → parse_parts other total (map decimal cores) ≡ cores
    unfolding parse_parts
    parse_parts-decimal [] h = refl
    parse_parts-decimal (c ∷ cores) h =
        rw (trim-digits (decimal c) (decimal-IsDigits c), parse_range-decimal c h.0)
          (ap (◌∷◌ c) (parse_parts-decimal cores h.1))

    IsDigits-of : (cores : List ℕ) → All IsDigits (map decimal cores)
    IsDigits-of [] = tt
    IsDigits-of (c ∷ cores) = (decimal-IsDigits c, IsDigits-of cores)

    parse_text_lem :
        (t : List ℕ) → t ≢ [] → parse_text other total t ≡ parse_parts other total (split b',' t)
    parse_text_lem [] ne = absurd (ne refl)
    parse_text_lem (c ∷ cs) ne = refl

    join-ne_nil : (c : ℕ) (cores : List ℕ) → join b',' (map decimal (c ∷ cores)) ≢ []
    unfolding join
    join-ne_nil c [] e = let (d, ds, h) = decimal-cons c in cc
    join-ne_nil c (b ∷ cores) e =
        let (d, ds, h) = decimal-cons c in
        let k : (d ∷ ds) ++ (b',' ∷ join b',' (map decimal (b ∷ cores))) ≡ [] =
          subst (λ t. t ++ (b',' ∷ join b',' (map decimal (b ∷ cores))) ≡ []) h e in
        cc

    -- The text of a list of cores is read as these cores.
    pub cpuset_roundtrip :
        (cores : List ℕ)
        → All (λ c. c < total) cores
        → parse_cpuset other total (some (join b',' (map decimal cores))) ≡ cores
    unfolding parse_cpuset
    cpuset_roundtrip [] h = unfold join in refl
    cpuset_roundtrip (c ∷ cores) h =
        parse_text_lem (join b',' (map decimal (c ∷ cores))) (join-ne_nil c cores)
        ∙ ap (parse_parts other total) (
            split-join b',' (decimal c) (map decimal cores) (omega arith) (IsDigits-of (c ∷ cores)))
        ∙ parse_parts-decimal (c ∷ cores) h
