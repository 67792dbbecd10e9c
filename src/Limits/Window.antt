-- ===== src/Limits/Window.antt =====
-- How many messages the fixed window lets through.
use obs_instance_manager.Prelude.{
  ℕ, ◌+◌, ◌-◌, ◌*◌, ◌≤◌, ◌<◌, Bool, true, false, List, [], ◌∷◌, arith, All,
}
use obs_instance_manager.Limits.{MessageRateLimiter, allow_message}

abbrev count_if : Bool → ℕ → ℕ
count_if true n = n + 1
count_if false n = n

-- How many of the messages at the given times pass.
pub passed : ℕ → ℕ → List ℕ → MessageRateLimiter → ℕ
passed limit window_ms [] l = 0
passed limit window_ms (now ∷ times) l =
    let (answer, l') = allow_message limit window_ms now l in
    count_if answer (passed limit window_ms times l')

module _ (limit window_ms : ℕ) where
  passed_same_window :
      (times : List ℕ) (l : MessageRateLimiter)
      → All (λ t. t < l.window_start + window_ms) times
      → passed limit window_ms times l ≤ limit - l.count
  unfolding passed allow_message
  passed_same_window [] l h = omega arith
  passed_same_window (now ∷ times) l (h, hs) =
      ground (arith, passed_same_window times (record l { count = l.count + 1 }) hs)

  within :
      (start now : ℕ) (times : List ℕ)
      → start ≤ now
      → All (λ t. (start ≤ t) × (t < start + window_ms)) times
      → All (λ t. t < now + window_ms) times
  within start now [] h hs = tt
  within start now (t ∷ times) h (k, hs) = (omega arith, within start now times h hs)

  -- From any state, at most what is left of the open window and one more window pass in a stretch
  -- of time as long as the window.
  passed_stretch :
      (start : ℕ) (times : List ℕ) (l : MessageRateLimiter)
      → All (λ t. (start ≤ t) × (t < start + window_ms)) times
      → passed limit window_ms times l ≤ (limit - l.count) + limit
  unfolding passed allow_message
  passed_stretch start [] l h = omega arith
  passed_stretch start (now ∷ times) l ((h, k), hs) = ground (
    arith,
    passed_stretch start times (record l { count = l.count + 1 }) hs,
    passed_same_window times (record { window_start = now; count = 1 })
        (within start now times h hs),
  )

-- In any stretch of time as long as the window, at most twice the limit of messages passes, from
-- every state of the limiter and in every order of the times.
passed_bounds :
    (limit window_ms start : ℕ) (times : List ℕ) (l : MessageRateLimiter)
    → All (λ t. (start ≤ t) × (t < start + window_ms)) times
    → passed limit window_ms times l ≤ 2 * limit
passed_bounds limit window_ms start times l h =
    omega (arith, passed_stretch limit window_ms start times l h)
