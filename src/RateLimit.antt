-- ===== src/RateLimit.antt =====
-- server/app/ratelimit.py. Moments and durations are natural numbers of clock ticks, where the
-- source has floats from `time.monotonic`; the caller passes `now`, as the tests of the source do.
pub mod Admission
pub mod Backoff
mod Examples
use image_genie.Base.{
  ℕ, ◌+◌, ◌-◌, ◌*◌, ◌/◌, ◌^◌, ◌<◌, min, Bool, true, not, ◌||◌, Option, none, some, arith, leb,
  nat_beq, if◌then◌else◌, Text, Dict, get, put, remove, empty, text_eq, nat_eq,
}

pub record RateLimitRule : Type 0 where
  pub max_hits : ℕ
  pub window_seconds : ℕ

pub record Window : Type 0 where
  pub hits : ℕ
  pub resets_at : ℕ

pub record FixedWindowRateLimiter : Type 0 where
  pub key_to_window : Dict Text Window

abbrev pub new_limiter : FixedWindowRateLimiter
new_limiter = record { key_to_window = empty }

-- One hit on the key's current entry: whether it is allowed, and the entry that is stored.
hit : RateLimitRule → ℕ → Option Window → Bool × Window
hit rule moment none = (true, record { hits = 1; resets_at = moment + rule.window_seconds })
hit rule moment (some window) =
    if leb window.resets_at moment
    then (true, record { hits = 1; resets_at = moment + rule.window_seconds })
    else (leb (window.hits + 1) rule.max_hits, record window { hits = window.hits + 1 })

unfoldable pub check :
    FixedWindowRateLimiter → Text → RateLimitRule → ℕ → Bool × FixedWindowRateLimiter
unfolding hit
check limiter key rule moment =
    let (allowed, window) = hit rule moment (get limiter.key_to_window key) in
    (allowed, record { key_to_window = put limiter.key_to_window key window })

unfoldable pub retry_after : FixedWindowRateLimiter → Text → ℕ → ℕ
retry_after limiter key moment = elim (get limiter.key_to_window key) [
  | none ↦ 0
  | some window ↦ window.resets_at - moment
]

unfoldable pub reset : FixedWindowRateLimiter → FixedWindowRateLimiter
reset limiter = new_limiter

pub record BackoffRule : Type 0 where
  pub free_retries : ℕ
  pub base_seconds : ℕ
  pub max_seconds : ℕ

pub record Streak : Type 0 where
  pub failures : ℕ
  pub locked_until : ℕ

pub record LoginBackoff : Type 0 where
  pub rule : BackoffRule
  pub key_to_streak : Dict Text Streak

abbrev pub new_backoff : BackoffRule → LoginBackoff
new_backoff rule = record { rule = rule; key_to_streak = empty }

-- `setdefault(key, _Streak())`
unfoldable pub or_fresh : Option Streak → Streak
or_fresh none = record { failures = 0; locked_until = 0 }
or_fresh (some streak) = streak

abbrev pub streak_of : LoginBackoff → Text → Streak
streak_of backoff key = or_fresh (get backoff.key_to_streak key)

-- `base_seconds * 2 ** (penalized - 1)` converts the power to a float, which raises from 2 ^ 1024 on.
abbrev pub overflows : BackoffRule → Streak → Bool
overflows rule streak = leb 1024 (streak.failures + 1 - rule.free_retries - 1)

-- The streak after one more failure; `penalized <= 0` is a truncated difference of 0. Where the power overflows, the
-- failure has been counted and the lockout is not renewed.
unfoldable pub fail_streak : BackoffRule → ℕ → Streak → Streak
fail_streak rule moment streak =
    let failures = streak.failures + 1 in
    let penalized = failures - rule.free_retries in
    if nat_beq penalized 0 || overflows rule streak
    then record streak { failures = failures }
    else record {
      failures = failures;
      locked_until = moment + min (rule.base_seconds * 2 ^ (penalized - 1)) rule.max_seconds;
    }

unfoldable pub record_failure : LoginBackoff → Text → ℕ → LoginBackoff
record_failure backoff key moment = record backoff {
  key_to_streak =
      put backoff.key_to_streak key (fail_streak backoff.rule moment (streak_of backoff key));
}

-- Whether `record_failure` raises an OverflowError.
abbrev pub failure_raises : LoginBackoff → Text → Bool
failure_raises backoff key = overflows backoff.rule (streak_of backoff key)

unfoldable pub record_success : LoginBackoff → Text → LoginBackoff
record_success backoff key = record backoff { key_to_streak = remove backoff.key_to_streak key }

-- `retry_after` of the class LoginBackoff
unfoldable pub locked_for : LoginBackoff → Text → ℕ → ℕ
locked_for backoff key moment = elim (get backoff.key_to_streak key) [
  | none ↦ 0
  | some streak ↦ streak.locked_until - moment
]
