-- ===== src/Lock.antt =====
-- src/utils/instance-lock.ts, and `serialize` of src/services/obs/obs-command.ts, which chains
-- promises the same way. A call makes a job; a job's number stands for its tail promise, and
-- `locks` maps an instance to the tail of its last job. What the event loop does is a step
-- relation: a job starts when the promise that it waits for has settled, its function settles
-- (with a value or an error, which the lock treats alike), and its `finally` callback runs later.
pub mod Invariant
mod Phases
pub mod Exclusion
mod Tests
use obs_instance_manager.Prelude.{
  ℕ, ◌+◌, ◌≤◌, ◌<◌, String, ◌≡◌, Bool, Option, none, some, eqb, if◌then◌else◌,
}
use obs_instance_manager.Prelude.Dict
use obs_instance_manager.Prelude.Dict.{Dict}

pub data Phase : Type 0 where
  waiting running settled : Phase

pub record Job : Type 0 where
  pub instance_id : String
  pub previous : Option ℕ
  pub phase : Phase

pub record Locks : Type 0 where
  pub job : ℕ → Option Job
  pub next : ℕ
  pub tails : Dict ℕ

abbrev pub idle : Locks
idle = record { job = λ k. none; next = 0; tails = Dict.empty }

abbrev pub put : (ℕ → Option Job) → ℕ → Job → ℕ → Option Job
put f k j i = if eqb k i then some j else f i

-- `withInstanceLock`, and `serialize`: the new job waits for the tail that the map holds, if any.
pub with_instance_lock : String → Locks → Locks
with_instance_lock id s = record {
  job =
      put s.job s.next
        (record { instance_id = id; previous = Dict.get s.tails id; phase = waiting });
  next = s.next + 1;
  tails = Dict.set s.tails id s.next;
}

pub with_phase : ℕ → Job → Phase → Locks → Locks
with_phase k j phase s = record s { job = put s.job k (record j { phase = phase }) }

-- The `finally` callback of job `k`: the entry goes only if it still is this job's tail.
pub release_tail : ℕ → Job → Locks → Locks
release_tail k j s = elim (Dict.get s.tails j.instance_id) [
  | none ↦ s
  | some t ↦ if eqb t k then record s { tails = Dict.remove s.tails j.instance_id } else s
]

pub is_instance_locked : String → Locks → Bool
is_instance_locked id s = Dict.has s.tails id

-- The promise that a job waits for has settled.
abbrev pub IsReady : Locks → Option ℕ → Type 0
IsReady s none = Unit
IsReady s (some p) = (q : Job) × (s.job p ≡ some q) × (q.phase ≡ settled)

pub data Step (s : Locks) (t : Locks) : Type 0 where
  call : (id : String) → t ≡ with_instance_lock id s → Step s t
  start :
      (k : ℕ) (j : Job)
      → s.job k ≡ some j
      → j.phase ≡ waiting
      → IsReady s j.previous
      → t ≡ with_phase k j running s
      → Step s t
  settle :
      (k : ℕ) (j : Job)
      → s.job k ≡ some j
      → j.phase ≡ running
      → t ≡ with_phase k j settled s
      → Step s t
  clean :
      (k : ℕ) (j : Job) → s.job k ≡ some j → j.phase ≡ settled → t ≡ release_tail k j s → Step s t

pub data Reach : Locks → Type 0 where
  here : Reach idle
  next : {s t : Locks} → Reach s → Step s t → Reach t
