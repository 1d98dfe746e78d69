-- ===== src/RateLimit/Tests.antt =====
-- A bucket of two requests a minute.
use composer.Base.{◌+◌, ◌*◌, ◌≤◌, ◌≡◌, refl, none, [], ◌∷◌, ok, arith}
use composer.RateLimit.{
  token, BucketConfig, allowed, denied, TokenBucket, too_many_requests, enforce, retry_seconds,
  refusal, try_consume, refilled, consume, verdicts, row_verdicts, per_minute_config,
}
use composer.RateLimit.Bounds.{passed_count, passed-bounded, retry_after_enough}
use composer.RateLimit.Agree.{limiters_agree}

abbrev two_a_minute : BucketConfig
two_a_minute = record { capacity = 2; refill = 2 }

two_a_minute_made : per_minute_config 2 ≡ two_a_minute
unfolding per_minute_config
two_a_minute_made = refl

passed-bounded_example :
    passed_count (verdicts two_a_minute (0 ∷ 5 ∷ 9 ∷ []) none) * token + 0 * 2 ≤ 2 * token + 9 * 2
passed-bounded_example = passed-bounded two_a_minute 0 (5 ∷ 9 ∷ []) (omega arith, (omega arith, tt))

limiters_agree_example :
    verdicts two_a_minute (0 ∷ 5 ∷ 9 ∷ []) none ≡ row_verdicts two_a_minute (0 ∷ 5 ∷ 9 ∷ []) none
limiters_agree_example =
    limiters_agree two_a_minute 0 (5 ∷ 9 ∷ []) (omega arith) (omega arith, (omega arith, tt))

abbrev spent : TokenBucket
spent = record { config = two_a_minute; tokens = 10; last_refill = 0 }

spent_denied : (try_consume 1 5 spent).0 ≡ denied 59999980
unfolding try_consume refilled consume
spent_denied = refl

half_minute : enforce two_a_minute (denied 59999980) ≡ ok (too_many_requests 30)
unfolding enforce retry_seconds refusal
half_minute = refl

retry_after_enough_example : (try_consume 1 30000005 (try_consume 1 5 spent).1).0 ≡ allowed
retry_after_enough_example =
    retry_after_enough spent 5 30000005 59999980 30 (omega arith) spent_denied half_minute
      (omega arith)
