-- ===== src/Concurrency/Tests.antt =====
-- Runs of `mapLimit` over three items with two workers.
use obs_instance_manager.Prelude.{
  ℕ, ◌+◌, ◌≡◌, refl, List, [], ◌∷◌, ◌≤◌, length, arith, eqb, if◌then◌else◌,
}
use obs_instance_manager.Concurrency.{
  Settled, resolved, rejected, mem, take_next, on_settled, begin, spawn, run, land, map_limit,
  outcome,
}
use obs_instance_manager.Concurrency.Laws.{
  Distinct, flights_bounds, Settles, Answers, map_limit-Answers,
}
use obs_instance_manager.Concurrency.Laws.Failing.{rejections, begun_after_failure}

abbrev items : List ℕ
items = 10 ∷ 20 ∷ 30 ∷ []

abbrev double : ℕ → Settled ℕ
double n = resolved (n + n)

-- The call for the first item fails.
abbrev first_fails : ℕ → Settled ℕ
first_fails n = if eqb n 10 then rejected "S3" else resolved n

flights_bounds_example :
    (length (map_limit items double 2 (1 ∷ 0 ∷ [])).flights ≤ 2)
    × Distinct (map_limit items double 2 (1 ∷ 0 ∷ [])).flights
flights_bounds_example = flights_bounds items double 2 (1 ∷ 0 ∷ [])

begun_after_failure_example :
    ((map_limit items first_fails 2 (0 ∷ 1 ∷ 2 ∷ [])).next ≡ 3)
    × (length {A = ℕ} (0 ∷ 1 ∷ 2 ∷ []) ≡ 3)
unfolding on_settled take_next begin spawn run mem land Settles rejections
begun_after_failure_example =
    begun_after_failure items first_fails 2 (0 ∷ 1 ∷ 2 ∷ []) (refl, (refl, (refl, tt))) refl
      (omega arith)

map_limit-Answers_example :
    Answers items double
      (λ n. n + n)
      (λ n. refl)
      (outcome (map_limit items double 2 (1 ∷ 2 ∷ 0 ∷ [])))
      3
unfolding outcome on_settled take_next begin spawn run mem land Settles
map_limit-Answers_example =
    map_limit-Answers items double (λ n. n + n) (λ n. refl) 2 (1 ∷ 2 ∷ 0 ∷ [])
      (refl, (refl, (refl, tt)))
