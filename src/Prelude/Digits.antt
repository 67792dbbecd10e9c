-- ===== src/Prelude/Digits.antt =====
-- Numbers as texts, which are lists of code units: `String(n)`, `Number(s)`, `trim`, `split` and
-- `join`. `Number` reads digits here; what it makes of any other spelling is an argument.
use Prim.Native.Nat.{ℕ, zero, suc, ◌+◌, ◌-◌, ◌*◌, ◌/◌, ◌%◌, ◌≤◌, ◌<◌}
use mathlib.Core.Path.{◌≡◌, refl, sym, ap, ◌∙◌}
use mathlib.Core.Logic.{inl, inr}
use mathlib.Core.Bool.{Bool, true, false, ◌&&◌, ◌||◌}
use mathlib.Core.Option.{Option, some}
use mathlib.Core.List.{List, [], ◌∷◌, ◌++◌}
use native.Mathlib.Omega.{arith}
use obs_instance_manager.Prelude.Tests.{if◌then◌else◌, Bool-cases, leb, ltb, eqb, ltb→lt, lt→ltb}
use obs_instance_manager.Prelude.Lists.{All, All-append, all}

-- 2 ^ 53, below which every integer is a number of its own.
abbrev pub safe_bound : ℕ
safe_bound = 9007199254740992

abbrev pub is_digit : ℕ → Bool
is_digit c = leb b'0' c && leb c b'9'

-- The white space that `trim` removes.
unfoldable pub is_space : ℕ → Bool
is_space c =
    (leb 9 c && leb c 13)
    || (eqb c 32
        || (eqb c 160
            || (eqb c 5760
                || ((leb 8192 c && leb c 8202)
                    || (eqb c 8232
                        || (eqb c 8233
                            || (eqb c 8239 || (eqb c 8287 || (eqb c 12288 || eqb c 65279)))))))))

unfoldable pub trim_start : List ℕ → List ℕ
trim_start [] = []
trim_start (c ∷ cs) = if is_space c then trim_start cs else c ∷ cs

unfoldable pub trim_end : List ℕ → List ℕ
trim_end [] = []
trim_end (c ∷ cs) = elim (trim_end cs) [
  | [] ↦ if is_space c then [] else c ∷ []
  | d ∷ ds ↦ c ∷ d ∷ ds
]

unfoldable pub trim : List ℕ → List ℕ
trim s = trim_end (trim_start s)

abbrev pub onto_head : ℕ → List (List ℕ) → List (List ℕ)
onto_head c [] = (c ∷ []) ∷ []
onto_head c (p ∷ ps) = (c ∷ p) ∷ ps

-- `s.split(sep)` at one code unit
unfoldable pub split : ℕ → List ℕ → List (List ℕ)
split sep [] = [] ∷ []
split sep (c ∷ cs) = let rest = split sep cs in if eqb c sep then [] ∷ rest else onto_head c rest

-- `parts.join(sep)`
unfoldable pub join : ℕ → List (List ℕ) → List ℕ
join sep [] = []
join sep (p ∷ []) = p
join sep (p ∷ q ∷ ps) = p ++ (sep ∷ join sep (q ∷ ps))

unfoldable pub decimal_go : ℕ → ℕ → List ℕ
decimal_go zero n = []
decimal_go (suc f) n =
    let digits = decimal_go f (n / 10) ++ ((b'0' + n % 10) ∷ []) in
    if ltb n 10 then (b'0' + n) ∷ [] else digits

-- The digits of a number; `n` divisions by ten reach zero.
unfoldable pub decimal : ℕ → List ℕ
decimal n = decimal_go (suc n) n

unfoldable pub value_from : ℕ → List ℕ → ℕ
value_from acc [] = acc
value_from acc (c ∷ cs) = value_from (acc * 10 + (c - b'0')) cs

-- The integer that `Number(s)` is, if it is one that is not negative.
unfoldable pub number : (List ℕ → Option ℕ) → List ℕ → Option ℕ
number other [] = other []
number other (c ∷ cs) =
    if all is_digit (c ∷ cs) && ltb (value_from 0 (c ∷ cs)) safe_bound
    then some (value_from 0 (c ∷ cs))
    else other (c ∷ cs)

abbrev pub IsDigits : List ℕ → Type 0
IsDigits cs = All (λ c. (48 ≤ c) × (c ≤ 57)) cs

decimal_go-IsDigits : (f n : ℕ) → IsDigits (decimal_go f n)
unfolding decimal_go
decimal_go-IsDigits zero n = tt
decimal_go-IsDigits (suc f) n = elim (Bool-cases (ltb n 10)) [
  | inl small ↦ rw small ((omega arith, omega (arith, ltb→lt n 10 small)), tt)
  | inr large ↦ rw large (
      All-append (λ c. (48 ≤ c) × (c ≤ 57)) (decimal_go f (n / 10)) _
        (decimal_go-IsDigits f (n / 10)) ((omega arith, omega arith), tt))
]

value_from-snoc :
    (acc : ℕ) (cs : List ℕ) (c : ℕ)
    → value_from acc (cs ++ (c ∷ [])) ≡ value_from acc cs * 10 + (c - 48)
unfolding value_from
value_from-snoc acc [] c = refl
value_from-snoc acc (d ∷ cs) c = value_from-snoc (acc * 10 + (d - 48)) cs c

value-decimal_go : (f n : ℕ) → n < f → value_from 0 (decimal_go f n) ≡ n
unfolding decimal_go value_from
value-decimal_go zero n h = elim h [ ]
value-decimal_go (suc f) n h = elim (Bool-cases (ltb n 10)) [
  | inl small ↦ rw small (omega arith)
  | inr large ↦
      rw (large, value_from-snoc 0 (decimal_go f (n / 10)) (48 + n % 10))
        (ground (arith, value-decimal_go f (n / 10)))
]

pub decimal-IsDigits : (n : ℕ) → IsDigits (decimal n)
unfolding decimal
decimal-IsDigits n = decimal_go-IsDigits (suc n) n

pub value-decimal : (n : ℕ) → value_from 0 (decimal n) ≡ n
unfolding decimal
value-decimal n = value-decimal_go (suc n) n (omega arith)

all_of_IsDigits : (cs : List ℕ) → IsDigits cs → all is_digit cs ≡ true
all_of_IsDigits [] h = refl
all_of_IsDigits (c ∷ cs) h = ground (arith, all_of_IsDigits cs)

append-ne_nil : (cs : List ℕ) (c : ℕ) → (d : ℕ) × (ds : List ℕ) × (cs ++ (c ∷ []) ≡ d ∷ ds)
append-ne_nil [] c = (c, [], refl)
append-ne_nil (b ∷ cs) c = (b, cs ++ (c ∷ []), refl)

pub decimal-cons : (n : ℕ) → (d : ℕ) × (ds : List ℕ) × (decimal n ≡ d ∷ ds)
unfolding decimal decimal_go
decimal-cons n = elim (Bool-cases (ltb n 10)) [
  | inl small ↦ rw small (48 + n, [], refl)
  | inr large ↦ rw large (append-ne_nil (decimal_go n (n / 10)) (48 + n % 10))
]

pub number-decimal :
    (other : List ℕ → Option ℕ) (n : ℕ) → n < safe_bound → number other (decimal n) ≡ some n
unfolding number
number-decimal other n h =
    let (d, ds, e) = decimal-cons n in
    let v : value_from 0 (d ∷ ds) ≡ n = sym (ap (value_from 0) e) ∙ value-decimal n in
    let digits : all is_digit (d ∷ ds) ≡ true =
      sym (ap (all is_digit) e) ∙ all_of_IsDigits (decimal n) (decimal-IsDigits n) in
    rw (e, digits, v, lt→ltb n safe_bound h) refl

not_space : (c : ℕ) → 48 ≤ c → c ≤ 57 → is_space c ≡ false
unfolding is_space
not_space c h k = ground arith

trim_end_lem : (cs : List ℕ) → All (λ c. is_space c ≡ false) cs → trim_end cs ≡ cs
unfolding trim_end
trim_end_lem [] h = refl
trim_end_lem (c ∷ []) h = rw h.0 refl
trim_end_lem (c ∷ d ∷ cs) h = rw (trim_end_lem (d ∷ cs) h.1) refl

-- A text without white space is trimmed already.
pub trim_lem : (cs : List ℕ) → All (λ c. is_space c ≡ false) cs → trim cs ≡ cs
unfolding trim trim_start
trim_lem [] h = trim_end_lem [] h
trim_lem (c ∷ cs) h = rw h.0 (trim_end_lem (c ∷ cs) h)

pub digits_not_space : (cs : List ℕ) → IsDigits cs → All (λ c. is_space c ≡ false) cs
digits_not_space [] h = tt
digits_not_space (c ∷ cs) h = (not_space c h.0.0 h.0.1, digits_not_space cs h.1)

pub trim-digits : (cs : List ℕ) → IsDigits cs → trim cs ≡ cs
trim-digits cs h = trim_lem cs (digits_not_space cs h)

-- A text without the separator is one part.
pub split-digits : (sep : ℕ) (cs : List ℕ) → sep < 48 → IsDigits cs → split sep cs ≡ cs ∷ []
unfolding split
split-digits sep [] low h = refl
split-digits sep (c ∷ cs) low h = rw (split-digits sep cs low h.1) (ground arith)

split-append :
    (sep : ℕ) (cs rest : List ℕ)
    → sep < 48
    → IsDigits cs
    → split sep (cs ++ (sep ∷ rest)) ≡ cs ∷ split sep rest
unfolding split
split-append sep [] rest low h = ground arith
split-append sep (c ∷ cs) rest low h = rw (split-append sep cs rest low h.1) (ground arith)

-- Parts that are all digits are found again.
pub split-join :
    (sep : ℕ) (p : List ℕ) (ps : List (List ℕ))
    → sep < 48
    → All IsDigits (p ∷ ps)
    → split sep (join sep (p ∷ ps)) ≡ p ∷ ps
unfolding join
split-join sep p [] low h = split-digits sep p low h.0
split-join sep p (q ∷ ps) low h =
    split-append sep p (join sep (q ∷ ps)) low h.0 ∙ ap (◌∷◌ p) (split-join sep q ps low h.1)
