-- ===== src/Limits/Tests.antt =====
-- The limiters at work: three messages and three requests within one second.
use obs_instance_manager.Prelude.{ℕ, ◌≤◌, String, List, [], ◌∷◌, arith, length, select}
use obs_instance_manager.Prelude.Dict
use obs_instance_manager.Limits.{MessageRateLimiter}
use obs_instance_manager.Limits.Sliding.{admitted, in_window, admitted_bounds}

abbrev limiter : MessageRateLimiter
limiter = record { window_start = 0; count = 2 }

abbrev calls : List (String × ℕ)
calls = ("u1", 5000) ∷ ("u2", 5100) ∷ ("u1", 5200) ∷ []

admitted_bounds_example :
    length (select (in_window 1000 5200) (admitted 1 1000 "u1" calls Dict.empty)) ≤ 1
admitted_bounds_example =
    admitted_bounds 1 1000 "u1" calls 5200 (omega arith, (omega arith, (omega arith, tt)))
