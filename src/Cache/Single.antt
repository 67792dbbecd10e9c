-- ===== src/Cache/Single.antt =====
-- src/services/cache/instance-cache.ts and node-cache.ts, which are one cache of a single value but
-- for `invalidateNodeInstances`, that only the first has. A function runs between two awaits: a
-- reader that has to wait is resumed by `resolve` or `caught`. The clock and the two periods are
-- arguments; requests are numbered.
pub mod Laws
use obs_instance_manager.Prelude.{
  ℕ, ◌+◌, Bool, true, false, Option, none, some, ltb, eqb, not, ◌&&◌, ◌||◌, if◌then◌else◌, is_some,
}

pub record Single (V : Type 0) : Type 0 where
  pub cached : Option V
  pub cached_at : ℕ
  -- 0 stands for no failure
  pub failed_at : ℕ
  pub in_flight : Option ℕ
  pub sent : ℕ

-- How a read goes on: with a value from memory, or waiting for a request.
pub data Read (V : Type 0) : Type 0 where
  served : V → Read V
  waits : ℕ → Read V

module _ {V : Type 0} where
  abbrev pub cold : Single V
  cold = record { cached = none; cached_at = 0; failed_at = 0; in_flight = none; sent = 0 }

  -- `fetchInstances`, `fetchNode`: callers share the request that is on its way.
  unfoldable pub fetch : Single V → ℕ × Single V
  fetch s = elim s.in_flight [
    | some r ↦ (r, s)
    | none ↦ (s.sent, record s { in_flight = some s.sent; sent = s.sent + 1 })
  ]

  -- `now - cachedAt < TTL_MS`
  abbrev pub is_fresh : ℕ → ℕ → Single V → Bool
  is_fresh ttl_ms now s = ltb now (s.cached_at + ttl_ms)

  -- `failedAt && now - failedAt < ERROR_BACKOFF_MS`
  abbrev pub backs_off : ℕ → ℕ → Single V → Bool
  backs_off backoff_ms now s = not (eqb s.failed_at 0) && ltb now (s.failed_at + backoff_ms)

  abbrev pub from_memory : ℕ → ℕ → ℕ → Single V → Option V
  from_memory ttl_ms backoff_ms now s =
      if is_fresh ttl_ms now s || backs_off backoff_ms now s then s.cached else none

  -- `getCachedNodeInstances`, `getCachedNode` up to the await
  unfoldable pub get_cached : ℕ → ℕ → ℕ → Single V → Read V × Single V
  get_cached ttl_ms backoff_ms now s = elim (from_memory ttl_ms backoff_ms now s) [
    | some v ↦ (served v, s)
    | none ↦ (let (r, s') = fetch s in (waits r, s'))
  ]

  -- `refreshNodeInstances`, `refreshNode`
  abbrev pub refresh : Single V → ℕ × Single V
  refresh s = fetch s

  -- The request is answered: `then`, and then `finally`.
  pub resolve : ℕ → V → Single V → Single V
  resolve now v s = record s { cached = some v; cached_at = now; failed_at = 0; in_flight = none }

  -- The request fails: `finally`.
  pub reject : Single V → Single V
  reject s = record s { in_flight = none }

  -- The `catch` of one cached reader: the value that it serves, or none if it throws.
  pub caught : ℕ → Single V → Option V × Single V
  caught now s = (s.cached, record s { failed_at = now })

  pub invalidate : Single V → Single V
  invalidate s = record s { cached = none; cached_at = 0; failed_at = 0 }
