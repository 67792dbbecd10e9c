-- ===== src/Concurrency.antt =====
-- src/utils/concurrency.ts: `mapLimit`, a map over promises with a bound on the calls in flight. The
-- workers are cut at their one `await`: an event is the settlement of the call for one index, and a
-- history is any order of settlements. What a call settles to is the argument `fn`.
pub mod Laws
mod Tests
use obs_instance_manager.Prelude.{
  ℕ, zero, suc, ◌+◌, String, Bool, true, false, ◌||◌, Option, none, some, List, [], ◌∷◌, length,
  get_elem?, ltb, eqb, if◌then◌else◌, put, min, max,
}

pub data Settled (R : Type 0) : Type 0 where
  resolved : R → Settled R
  rejected : String → Settled R

pub record Pool (R : Type 0) : Type 0 where
  pub next : ℕ
  -- the indices whose calls are begun and not settled, one for each worker that still runs
  pub flights : List ℕ
  pub results : ℕ → Option R
  -- the first rejection, which rejects the whole call
  pub failure : Option String

-- What the promise of the whole call is.
pub data Outcome (R : Type 0) : Type 0 where
  pending : Outcome R
  fulfilled : (ℕ → Option R) → Outcome R
  failed : String → Outcome R

unfoldable pub mem : ℕ → List ℕ → Bool
mem i [] = false
mem i (j ∷ js) = eqb i j || mem i js

unfoldable pub land : ℕ → List ℕ → List ℕ
land i [] = []
land i (j ∷ js) = if eqb i j then js else j ∷ land i js

abbrev pub first_failure : Option String → String → Option String
first_failure none e = some e
first_failure (some e) _ = some e

module _ {A R : Type 0} (items : List A) (fn : A → Settled R) where
  -- A worker's next round: it takes an index and begins its call, or it ends.
  unfoldable pub take_next : Pool R → Pool R
  take_next s =
      if ltb s.next (length items)
      then record s { next = s.next + 1; flights = s.next ∷ s.flights }
      else s

  -- The call for an index settles: its worker stores the result and goes on, or throws.
  abbrev pub settle : ℕ → Option (Settled R) → Pool R → Pool R
  settle i none s = s
  settle i (some (resolved r)) s =
      take_next (record s { flights = land i s.flights; results = put s.results i (some r) })
  settle i (some (rejected e)) s = record s {
    flights = land i s.flights;
    failure = first_failure s.failure e;
  }

  unfoldable pub on_settled : ℕ → Pool R → Pool R
  on_settled i s =
      if mem i s.flights
      then settle i (elim (get_elem? items i) [ none ↦ none | some a ↦ some (fn a) ]) s
      else s

  unfoldable pub spawn : ℕ → Pool R → Pool R
  spawn zero s = s
  spawn (suc w) s = spawn w (take_next s)

  abbrev pub workers : ℕ → ℕ
  workers limit = min (max 1 limit) (length items)

  abbrev pub new_pool : Pool R
  new_pool = record { next = 0; flights = []; results = λ i. none; failure = none }

  unfoldable pub begin : ℕ → Pool R
  begin limit = spawn (workers limit) new_pool

  unfoldable pub run : Pool R → List ℕ → Pool R
  run s [] = s
  run s (i ∷ is) = run (on_settled i s) is

  abbrev pub map_limit : ℕ → List ℕ → Pool R
  map_limit limit history = run (begin limit) history

-- `Promise.all(workers)`, and then `return results`
unfoldable pub outcome : {R : Type 0} → Pool R → Outcome R
outcome s = elim s.failure [
  | some e ↦ failed e
  | none ↦ elim s.flights [ [] ↦ fulfilled s.results | i ∷ is ↦ pending ]
]
