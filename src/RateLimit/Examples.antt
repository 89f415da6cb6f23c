-- ===== src/RateLimit/Examples.antt =====
-- Runs of the limiter and of the backoff, and the theorems at concrete inputs.
use image_genie.Base.{
  true, suc, ◌<◌, none, get-empty, ℕ, ◌≤◌, ◌≡◌, refl, false, List, [], ◌∷◌, arith, All, Text, codes,
  text_beq, get, put, text_eq, nat_eq,
}
use image_genie.RateLimit.{
  RateLimitRule, FixedWindowRateLimiter, new_limiter, check, retry_after, BackoffRule, new_backoff,
  Streak, overflows, fail_streak, record_failure, locked_for,
}
use image_genie.RateLimit.Backoff.{fail_all, failures_of, ladder, locked_for-record_failure}
use image_genie.RateLimit.Admission.{Hit, InSpan, admitted, admitted-le_twice}

abbrev resend : RateLimitRule
resend = record { max_hits = 2; window_seconds = 600 }

abbrev alice : Text
alice = codes "a@x"

abbrev at : ℕ → Hit
at t = record { key = alice; rule = resend; moment = t }

abbrev burst : List Hit
burst = at 100 ∷ at 150 ∷ at 160 ∷ []

burst-InSpan : All (InSpan alice resend 100) burst
burst-InSpan = (
  λ _. (refl, omega arith, omega arith),
  (λ _. (refl, omega arith, omega arith), (λ _. (refl, omega arith, omega arith), tt)),
)

admitted-le_twice_example : admitted alice new_limiter burst ≤ 4
admitted-le_twice_example = admitted-le_twice alice resend 100 new_limiter burst burst-InSpan

abbrev spent : FixedWindowRateLimiter
spent = (check (check new_limiter alice resend 100).1 alice resend 150).1

refused : (check spent alice resend 160).0 ≡ false
unfolding check get put text_beq
refused = refl

waits_540 : retry_after (check spent alice resend 160).1 alice 160 ≡ 540
unfolding check retry_after get put text_beq
waits_540 = refl

-- LOGIN_BACKOFF_RULE of server/app/api.py, in seconds.
abbrev login_rule : BackoffRule
login_rule = record { free_retries = 3; base_seconds = 1; max_seconds = 900 }

abbrev four_failures : List (Text × ℕ)
four_failures = (alice, 1) ∷ (alice, 2) ∷ (codes "b@x", 3) ∷ (alice, 4) ∷ (alice, 5) ∷ []

fresh_start : get (new_backoff login_rule).key_to_streak alice ≡ none
fresh_start = get-empty alice

few_failures : failures_of alice four_failures < 1027
unfolding text_beq
few_failures = omega arith

locked_for-record_failure_example :
    locked_for (record_failure (fail_all (new_backoff login_rule) four_failures) alice 9) alice 9
    ≡ ladder login_rule (suc (failures_of alice four_failures))
locked_for-record_failure_example =
    locked_for-record_failure (new_backoff login_rule) alice four_failures 9 fresh_start
      few_failures

-- The 1,028th failure of a streak raises, and renews no lockout.
abbrev many : Streak
many = record { failures = 1027; locked_until = 5 }

raises_at_last : overflows login_rule many ≡ true
raises_at_last = refl

not_renewed : fail_streak login_rule 9 many ≡ record { failures = 1028; locked_until = 5 }
unfolding fail_streak
not_renewed = refl
