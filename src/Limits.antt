-- ===== src/Limits.antt =====
-- src/utils/rate-limit.ts and src/middleware/rate-limit.ts: a fixed-window limiter for one
-- connection and a sliding-window limiter keyed by user. The clock is an argument, in
-- milliseconds; a test `now - t < w` on numbers of JavaScript is written `now < t + w`.
pub mod Window
pub mod Sliding
mod Tests
use obs_instance_manager.Prelude.{
  ℕ, ◌+◌, String, Bool, true, false, Option, none, some, List, [], ◌∷◌, ◌++◌, ltb, leb, length,
  select, if◌then◌else◌, or_else,
}
use obs_instance_manager.Prelude.Dict
use obs_instance_manager.Prelude.Dict.{Dict}

pub record MessageRateLimiter : Type 0 where
  pub window_start : ℕ
  pub count : ℕ

abbrev pub fresh_limiter : MessageRateLimiter
fresh_limiter = record { window_start = 0; count = 0 }

-- A window that has run out starts again at `now`.
abbrev pub rolled : ℕ → ℕ → MessageRateLimiter → MessageRateLimiter
rolled window_ms now l =
    if leb (l.window_start + window_ms) now then record { window_start = now; count = 0 } else l

pub allow_message : ℕ → ℕ → ℕ → MessageRateLimiter → Bool × MessageRateLimiter
allow_message limit window_ms now l =
    let l' = rolled window_ms now l in
    (leb (l'.count + 1) limit, record l' { count = l'.count + 1 })

-- A timestamp that still counts at `now`.
abbrev pub is_recent : ℕ → ℕ → ℕ → Bool
is_recent window_ms now t = ltb now (t + window_ms)

-- The body of `KeyedRateLimiter.allow` on the timestamps of one key.
pub allow_hit : ℕ → ℕ → ℕ → List ℕ → Bool × List ℕ
allow_hit limit window_ms now hits =
    let timestamps = select (is_recent window_ms now) hits in
    if leb limit (length timestamps) then (false, timestamps) else (true, timestamps ++ now ∷ [])

pub allow_key : ℕ → ℕ → ℕ → String → Dict (List ℕ) → Bool × Dict (List ℕ)
allow_key limit window_ms now key hits =
    let (answer, timestamps) = allow_hit limit window_ms now (or_else (Dict.get hits key) []) in
    (answer, Dict.set hits key timestamps)

-- What the middleware answers: a refusal with its status, or the next handler.
pub data Verdict : Type 0 where
  refuse : ℕ → Verdict
  next : Verdict

pub rate_limit_by_user : ℕ → ℕ → ℕ → String → Dict (List ℕ) → Verdict × Dict (List ℕ)
rate_limit_by_user limit window_ms now user_id hits =
    let (answer, hits') = allow_key limit window_ms now user_id hits in
    (if answer then next else refuse 429, hits')
