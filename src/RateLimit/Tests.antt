-- ===== src/RateLimit/Tests.antt =====
-- Three logins of one address and one of another, in the time of a window for two.
use transhub.Prelude.{◌≤◌, ◌≡◌, refl, true, false, none, some, List, [], ◌∷◌, arith}
use transhub.RateLimit.{incr_with_expire, rate_limit, RateLimitOptions, ip, Counters}
use transhub.RateLimit.Window.{Hit, admitted, admitted_bound}

abbrev two_a_minute : RateLimitOptions
two_a_minute = record { key_prefix = 0; limit = 2; window_sec = 60 }

abbrev hits : List Hit
hits =
    record { now = 100; identity = ip 1; ttl_up = true }
    ∷ record { now = 110; identity = ip 2; ttl_up = true }
    ∷ record { now = 120; identity = ip 1; ttl_up = true }
    ∷ record { now = 159; identity = ip 1; ttl_up = false }
    ∷ []

abbrev counters : Counters
counters = λ p j. some (record { count = 1; expires_at = 115 })

admitted_three : admitted two_a_minute (ip 1) hits counters ≡ 3
unfolding admitted rate_limit incr_with_expire
admitted_three = refl

admitted_bound_example :
    (admitted two_a_minute (ip 1) hits (λ p j. none) ≤ 2)
    × (admitted two_a_minute (ip 1) hits counters ≤ 4)
admitted_bound_example = admitted_bound two_a_minute (ip 1) 100 hits counters (
  (omega arith, omega arith),
  ((omega arith, omega arith), ((omega arith, omega arith), ((omega arith, omega arith), tt))),
)
