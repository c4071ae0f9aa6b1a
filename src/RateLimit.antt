-- ===== src/RateLimit.antt =====
-- The fixed-window rate limiter over the in-memory store: include/rtc/ratelimit/rate_limiter.hpp
-- and src/ratelimit/rate_limiter.cpp. `enabled` is the limiter's flag, `now` the store's clock.
pub mod Window
use realtime_chat.Common.{
  to_string, ℕ, Bool, true, not, ◌||◌, ◌∷◌, ◌++◌, if◌then◌else◌, Bytes, codes, ℤ, ◌-ℤ◌, leb_ℤ,
  max_ℤ, pos,
}
use realtime_chat.Errors.{Result, ok, throw, rate_limited}
use realtime_chat.Cache.Store.{Store, incr}

pub record LimitResult : Type 0 where
  pub allowed : Bool
  pub limit : ℤ
  pub remaining : ℤ
  pub retry_after_seconds : ℤ

unfoldable pub limit_key : Bytes → Bytes → Bytes
limit_key bucket identity = codes "ratelimit:" ++ (bucket ++ (b':' ∷ identity))

counted : ℤ → ℤ → ℤ → LimitResult
counted max window count =
    let allowed = leb_ℤ count max in
    record {
      allowed = allowed;
      limit = max;
      remaining = max_ℤ (pos 0) (max -ℤ count);
      retry_after_seconds = if allowed then pos 0 else window;
    }

unfoldable pub check : Bool → ℕ → Bytes → Bytes → ℤ → ℤ → Store → LimitResult × Store
unfolding counted
check enabled now bucket identity max window st =
    if not enabled || leb_ℤ max (pos 0)
    then (record { allowed = true; limit = max; remaining = max; retry_after_seconds = pos 0 }, st)
    else let (count, st') = incr now (limit_key bucket identity) window st in
      (counted max window count, st')

unfoldable pub enforce : Bool → ℕ → Bytes → Bytes → ℤ → ℤ → Store → Result LimitResult × Store
enforce enabled now bucket identity max window st =
    let (result, st') = check enabled now bucket identity max window st in
    if not result.allowed
    then (
      throw rate_limited "Rate limit exceeded, please retry later"
          (codes "retry_after=" ++ to_string result.retry_after_seconds),
      st',
    )
    else (ok result, st')
