-- ===== src/RateLimit.antt =====
-- The fixed-window counter of backend/src/middleware/rate-limit.ts. Redis is the function from a prefix
-- and an identity to a counter; the script is atomic.
pub mod Window
mod Tests
use transhub.Prelude.{
  ℕ, zero, suc, ◌+◌, ◌-◌, ◌*◌, ◌/◌, ◌%◌, ◌<◌, ◌≤◌, ◌≡◌, ◌≢◌, ◌↔◌, refl, sym, ap, ◌∙◌, ◌⊎◌, inl, inr,
  subst, Bool, true, false, not, ◌&&◌, ◌||◌, Option, none, some, List, [], ◌∷◌, ◌++◌, ◌==◌, ltb,
  leb, if◌then◌else◌, is_some, All, max, arith, Bool-cases, Option-cases, ==_iff, ==_refl,
  update_many, count_where, find_first, find_first-some,
}
use transhub.Errors.{Result, returns, throws, ◌>>=◌, throw_if, Ensures}
use transhub.Errors.{Thrown, app, too_many_requests_error}

pub record RateLimitOptions : Type 0 where
  pub key_prefix : ℕ
  pub limit : ℕ
  pub window_sec : ℕ

-- The user of the token, or else the address of the client.
pub data Identity : Type 0 where
  user_id ip : ℕ → Identity
  unknown : Identity

abbrev pub identity_of : Option ℕ → Option ℕ → Identity
identity_of (some u) address = user_id u
identity_of none (some a) = ip a
identity_of none none = unknown

abbrev pub same_identity : Identity → Identity → Bool
same_identity (user_id a) (user_id b) = a == b
same_identity (ip a) (ip b) = a == b
same_identity unknown unknown = true
same_identity _ _ = false

-- A key with its time to live; Redis drops it at `expires_at`.
pub record Counter : Type 0 where
  pub count : ℕ
  pub expires_at : ℕ

-- What Redis has under each prefix and identity.
abbrev pub Counters : Type 0
Counters = ℕ → Identity → Option Counter

abbrev pub live : ℕ → Option Counter → Option Counter
live now none = none
live now (some c) = if ltb now c.expires_at then some c else none

-- INCR, and EXPIRE at the first hit.
abbrev pub incremented : ℕ → ℕ → Option Counter → Counter
incremented window now none = record { count = 1; expires_at = now + window }
incremented window now (some c) = record c { count = c.count + 1 }

abbrev pub put : ℕ → Identity → Counter → Counters → Counters
put prefix i c counters p j = if p == prefix && same_identity j i then some c else counters p j

unfoldable pub incr_with_expire : ℕ → ℕ → ℕ → Identity → Counters → Counter × Counters
incr_with_expire window now prefix i counters =
    let c = incremented window now (live now (counters prefix i)) in (c, put prefix i c counters)

-- `next()` or the error; the clock counts seconds. Redis may be down, and then again for the TTL.
unfoldable pub rate_limit :
    Bool → Bool → Bool → RateLimitOptions → ℕ → Identity → Counters → Result (Unit {0}) × Counters
unfolding incr_with_expire
rate_limit enabled redis_up ttl_up opts now i counters =
    let r = incr_with_expire opts.window_sec now opts.key_prefix i counters in
    let ttl = if ttl_up then (r.0).expires_at - now else opts.window_sec in
    if not enabled
    then (returns tt, counters)
    else if not redis_up
    then (returns tt, counters)
    else if ltb opts.limit (r.0).count
    then (throws (app (too_many_requests_error (max ttl 1))), r.1)
    else (returns tt, r.1)

abbrev pub auth_limiter : RateLimitOptions
auth_limiter = record { key_prefix = 0; limit = 15; window_sec = 900 }

abbrev pub api_limiter : RateLimitOptions
api_limiter = record { key_prefix = 1; limit = 100; window_sec = 60 }
