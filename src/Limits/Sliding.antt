-- ===== src/Limits/Sliding.antt =====
-- How many requests of one user the sliding window lets through.
use obs_instance_manager.Prelude.{
  ℕ, ◌≤◌, ◌<◌, String, ◌↔◌, ◌⊎◌, ◌≡◌, refl, sym, ap, ◌∙◌, inl, inr, Bool, true, false, ◌&&◌, List,
  [], ◌∷◌, ◌++◌, arith, leb, length, select, length-append, select-append, if◌then◌else◌,
  Bool-cases, eq_iff, ◌==◌, or_else,
}
use mathlib.Core.List.{append-nil, append_assoc}
use obs_instance_manager.Prelude.Dict
use obs_instance_manager.Prelude.Dict.{Dict, get-set}
use obs_instance_manager.Limits.{is_recent, allow_hit, allow_key}

-- The entries in the window that ends at `now`.
abbrev pub in_window : ℕ → ℕ → ℕ → Bool
in_window window_ms now t = leb t now && is_recent window_ms now t

-- The times at which requests of one user are let through, in a history of requests of all users.
pub admitted : ℕ → ℕ → String → List (String × ℕ) → Dict (List ℕ) → List ℕ
admitted limit window_ms user [] hits = []
admitted limit window_ms user ((key, now) ∷ calls) hits =
    let (answer, hits') = allow_key limit window_ms now key hits in
    let rest = admitted limit window_ms user calls hits' in
    if key == user && answer then now ∷ rest else rest

-- A clock that does not go back.
abbrev pub Ascends : ℕ → List (String × ℕ) → Type 0
Ascends from [] = Unit
Ascends from ((key, now) ∷ calls) = (from ≤ now) × Ascends now calls

module _ (window_ms : ℕ) where
  select_later :
      (now later : ℕ) (ts : List ℕ)
      → now ≤ later
      → select (is_recent window_ms later) (select (is_recent window_ms now) ts)
        ≡ select (is_recent window_ms later) ts
  select_later now later [] h = refl
  select_later now later (t ∷ ts) h = ground (arith, select_later now later ts h)

  length_later :
      (now later : ℕ) (ts : List ℕ)
      → now ≤ later
      → length (select (in_window window_ms later) ts)
        ≤ length (select (is_recent window_ms now) ts)
  length_later now later [] h = omega arith
  length_later now later (t ∷ ts) h = ground (arith, length_later now later ts h)

-- What ties the timestamps kept for a key to the log of all requests let through so far.
record Inv (limit window_ms now : ℕ) (log hits : List ℕ) : Type 0 where
  recent :
      (later : ℕ)
      → now ≤ later
      → select (is_recent window_ms later) log ≡ select (is_recent window_ms later) hits
  bounded : (at : ℕ) → length (select (in_window window_ms at) log) ≤ limit

module _ (limit window_ms now next : ℕ) (log hits : List ℕ) (h : now ≤ next)
    (inv : Inv limit window_ms now log hits) where
  kept : List ℕ
  kept = select (is_recent window_ms next) hits

  refused-Inv : Inv limit window_ms next log kept
  unfolding kept
  refused-Inv = record {
    recent =
        λ later k. inv.recent later (omega arith) ∙ sym (select_later window_ms next later hits k);
    bounded = inv.bounded;
  }

  admitted-Inv :
      length kept < limit → Inv limit window_ms next (log ++ next ∷ []) (kept ++ next ∷ [])
  unfolding kept
  admitted-Inv room = record {
    recent = λ later k. rw (
      select-append (is_recent window_ms later) log (next ∷ []),
      select-append (is_recent window_ms later) (select (is_recent window_ms next) hits)
          (next ∷ []),
      inv.recent later (omega arith),
      select_later window_ms next later hits k,
    );
    bounded = λ at.
        rw
          (
            select-append (in_window window_ms at) log (next ∷ []),
            length-append (select (in_window window_ms at) log)
                (select (in_window window_ms at) (next ∷ [])),
          )
          (ground (
            arith,
            inv.bounded at,
            ap length (inv.recent next h),
            length_later window_ms next at log,
          ));
  }

  -- A request of another user changes nothing for this one.
  waits-Inv : Inv limit window_ms next log hits
  waits-Inv = record { recent = λ later k. inv.recent later (omega arith); bounded = inv.bounded }

abbrev pub hits_of : String → Dict (List ℕ) → List ℕ
hits_of user hits = or_else (Dict.get hits user) []

grow : Bool → ℕ → List ℕ → List ℕ
grow true now log = log ++ now ∷ []
grow false now log = log

grow-append :
    (b : Bool) (now : ℕ) (log rest : List ℕ)
    → log ++ (if b then now ∷ rest else rest) ≡ grow b now log ++ rest
unfolding grow
grow-append true now log rest = sym (append_assoc log (now ∷ []) rest)
grow-append false now log rest = refl

module _ (limit window_ms : ℕ) (user : String) where
  -- One request of any user keeps the log and the kept timestamps of this user tied together.
  step-Inv :
      (now next : ℕ) (key : String) (log : List ℕ) (hits : Dict (List ℕ))
      → now ≤ next
      → Inv limit window_ms now log (hits_of user hits)
      → let r = allow_key limit window_ms next key hits in
        Inv limit window_ms next (grow (key == user && r.0) next log) (hits_of user r.1)
  unfolding allow_key allow_hit grow kept
  step-Inv now next key log hits h inv = elim (Bool-cases (key == user)) [
    | inr other ↦
        rw (other, get-set hits key user _, other)
          (waits-Inv limit window_ms now next log (hits_of user hits) h inv)
    | inl same ↦
        rw (same, get-set hits key user _, same, (eq_iff key user).0 same)
          (answered (
            Bool-cases
              (leb limit (length (select (is_recent window_ms next) (hits_of user hits))))))
  ]
    where
      answered :
          (leb limit (length (select (is_recent window_ms next) (hits_of user hits))) ≡ true)
            ⊎ (leb limit (length (select (is_recent window_ms next) (hits_of user hits))) ≡ false)
          → let r = allow_hit limit window_ms next (hits_of user hits) in
            Inv limit window_ms next (grow r.0 next log) r.1
      answered (inl full) =
          rw full (refused-Inv limit window_ms now next log (hits_of user hits) h inv)
      answered (inr room) =
          rw room
            (admitted-Inv limit window_ms now next log (hits_of user hits) h inv (ground arith))

  admitted_bounded :
      (now : ℕ) (calls : List (String × ℕ)) (log : List ℕ) (hits : Dict (List ℕ))
      → Ascends now calls
      → Inv limit window_ms now log (hits_of user hits)
      → (at : ℕ)
      → length (select (in_window window_ms at) (log ++ admitted limit window_ms user calls hits))
        ≤ limit
  unfolding admitted
  admitted_bounded now [] log hits a inv at = rw (append-nil log) (inv.bounded at)
  admitted_bounded now ((key, next) ∷ calls) log hits (h, a) inv at =
      let r = allow_key limit window_ms next key hits in
      rw (grow-append (key == user && r.0) next log (admitted limit window_ms user calls r.1)) (
        admitted_bounded next calls (grow (key == user && r.0) next log) r.1 a
          (step-Inv now next key log hits h inv) at)

-- In every history of requests of all users with a clock that does not go back, and for every
-- moment, at most `limit` requests of one user are let through in the window that ends there.
pub admitted_bounds :
    (limit window_ms : ℕ) (user : String) (calls : List (String × ℕ)) (at : ℕ)
    → Ascends 0 calls
    → length (select (in_window window_ms at) (admitted limit window_ms user calls Dict.empty))
      ≤ limit
unfolding Dict.get
admitted_bounds limit window_ms user calls at a =
    admitted_bounded limit window_ms user 0 calls [] Dict.empty a
      (record { recent = λ later k. refl; bounded = λ t. omega arith }) at

-- A user who has made no more than `limit - 1` requests in the window is let through, whatever the
-- others did; the refusal is exactly for a full window.
pub allow_key_iff :
    (limit window_ms now : ℕ) (key : String) (hits : Dict (List ℕ))
    → ((allow_key limit window_ms now key hits).0 ≡ true)
      ↔ (length (select (is_recent window_ms now) (hits_of key hits)) < limit)
unfolding allow_key allow_hit
allow_key_iff limit window_ms now key hits = ground arith
