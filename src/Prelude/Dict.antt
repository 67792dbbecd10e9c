-- ===== src/Prelude/Dict.antt =====
-- JavaScript's `Map<string, V>`: an association list in insertion order, one entry for a key.
-- `set` on a present key keeps the entry's place. Clients use the laws `get-set` and `get-remove`.
use Prim.Native.String.{String}
use mathlib.Core.Path.{◌≡◌, refl}
use mathlib.Core.Bool.{Bool}
use mathlib.Core.Option.{Option, none, some}
use mathlib.Core.List.{List, [], ◌∷◌}
use native.Mathlib.Omega.{arith}
use text.Mathlib.Text.{◌==◌}
use text.Mathlib.TextEquality.{eq_iff}
use obs_instance_manager.Prelude.Tests.{if◌then◌else◌, is_some}

abbrev pub Dict {ℓ} : Type ℓ → Type ℓ
Dict V = List (String × V)

module _ {ℓ} {V : Type ℓ} where
  abbrev pub empty : Dict V
  empty = []

  unfoldable pub get : Dict V → String → Option V
  get [] k = none
  get ((j, v) ∷ m) k = if j == k then some v else get m k

  unfoldable pub set : Dict V → String → V → Dict V
  set [] k v = (k, v) ∷ []
  set ((j, w) ∷ m) k v = if j == k then (j, v) ∷ m else (j, w) ∷ set m k v

  unfoldable pub remove : Dict V → String → Dict V
  remove [] k = []
  remove ((j, w) ∷ m) k = if j == k then remove m k else (j, w) ∷ remove m k

  -- for (const [k, v] of m) if (!p(v)) m.delete(k)
  unfoldable pub keep : (V → Bool) → Dict V → Dict V
  keep p [] = []
  keep p ((j, w) ∷ m) = if p w then (j, w) ∷ keep p m else remove (keep p m) j

  abbrev pub has : Dict V → String → Bool
  has m k = is_some (get m k)

  abbrev pub keys : Dict V → List String
  keys [] = []
  keys ((j, w) ∷ m) = j ∷ keys m

  pub get-set :
      (m : Dict V) (k j : String) (v : V) → get (set m k v) j ≡ (if k == j then some v else get m j)
  unfolding get set
  get-set [] k j v = refl
  get-set ((i, w) ∷ m) k j v = ground (arith, eq_iff k j, eq_iff i k, eq_iff i j, get-set m k j v)

  pub get-remove :
      (m : Dict V) (k j : String) → get (remove m k) j ≡ (if k == j then none else get m j)
  unfolding get remove
  get-remove [] k j = ground arith
  get-remove ((i, w) ∷ m) k j = ground (arith, eq_iff k j, eq_iff i k, eq_iff i j, get-remove m k j)

  abbrev pub passing : (V → Bool) → Option V → Option V
  passing p none = none
  passing p (some v) = if p v then some v else none

  pub get-keep : (p : V → Bool) (m : Dict V) (k : String) → get (keep p m) k ≡ passing p (get m k)
  unfolding get keep
  get-keep p [] k = refl
  get-keep p ((i, w) ∷ m) k = ground (arith, eq_iff i k, get-keep p m k, get-remove (keep p m) i k)

pub ruleset dict_laws = (get-set, get-remove, get-keep)
