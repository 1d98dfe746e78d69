-- ===== src/RateLimit.antt =====
-- The token buckets of src/security/rate_limit.py, in memory, and of src/security/rate_limit_pg.py, a row
-- of the table rate_limit_buckets, each at one pair of a route and a client. Times are in microseconds,
-- and tokens in units of 1/60000000, so that a bucket of per_minute_config refills by a whole number of
-- units: the floats of the source are exact here. Products of a time and a rate are compared before they
-- are subtracted, so no elapsed time is cut off at 0.
pub mod Bounds
pub mod Agree
mod Tests
use composer.Base.{
  ℕ, suc, ◌+◌, ◌-◌, ◌*◌, ◌/◌, min, Bool, true, false, Option, none, some, List, [], ◌∷◌, Result, ok,
  err, leb, if◌then◌else◌,
}

abbrev pub token : ℕ
token = 60000000

-- `refill` is in units for each microsecond.
pub record BucketConfig : Type 0 where
  pub capacity : ℕ
  pub refill : ℕ

unfoldable pub per_minute_config : ℕ → BucketConfig
per_minute_config max_per_minute = record { capacity = max_per_minute; refill = max_per_minute }

-- A denial says how many units are missing.
pub data Verdict : Type 0 where
  allowed : Verdict
  denied : ℕ → Verdict

pub record TokenBucket : Type 0 where
  pub config : BucketConfig
  pub tokens : ℕ
  pub last_refill : ℕ

unfoldable pub new_bucket : BucketConfig → ℕ → TokenBucket
new_bucket config now = record {
  config = config;
  tokens = config.capacity * token;
  last_refill = now;
}

-- `_refill`; `time.monotonic` never goes back.
unfoldable pub refilled : TokenBucket → ℕ → TokenBucket
refilled bucket now = record bucket {
  tokens =
      min (bucket.config.capacity * token)
        ((bucket.tokens + now * bucket.config.refill) - bucket.last_refill * bucket.config.refill);
  last_refill = now;
}

unfoldable pub consume : ℕ → TokenBucket → Verdict × TokenBucket
consume cost bucket =
    if leb (cost * token) bucket.tokens
    then (allowed, record bucket { tokens = bucket.tokens - cost * token })
    else (denied (cost * token - bucket.tokens), bucket)

unfoldable pub try_consume : ℕ → ℕ → TokenBucket → Verdict × TokenBucket
unfolding refilled consume
try_consume cost now bucket = consume cost (refilled bucket now)

-- `RateLimiter.check` under its lock; `none` when the registry has no bucket for the pair yet.
unfoldable pub check : BucketConfig → ℕ → Option TokenBucket → Verdict × TokenBucket
unfolding try_consume new_bucket
check config now none = try_consume 1 now (new_bucket config now)
check config now (some bucket) = try_consume 1 now bucket

-- `tokens_and_one` is the column `tokens` and one token more: the first request of a bucket of capacity 0
-- stores -1.
pub record BucketRow : Type 0 where
  pub tokens_and_one : ℕ
  pub last_refill : ℕ

-- The units of the row at `now` and one token more. Where the clock of another instance is behind, the
-- elapsed time is negative, and what falls below 0 here is denied as it is there.
unfoldable pub refilled_row : BucketConfig → ℕ → BucketRow → ℕ
refilled_row config now row =
    min (config.capacity * token + token)
      ((row.tokens_and_one + now * config.refill) - row.last_refill * config.refill)

-- What a denied request lacks: one token less what the capacity or the refill leaves of it.
unfoldable pub missing_row : BucketConfig → ℕ → BucketRow → ℕ
missing_row config now row =
    if leb (config.capacity * token + token + row.last_refill * config.refill)
      (row.tokens_and_one + now * config.refill)
    then 2 * token - (config.capacity * token + token)
    else (2 * token + row.last_refill * config.refill) - (row.tokens_and_one + now * config.refill)

-- `_consume`: a denial does not write.
unfoldable pub consume_row : BucketConfig → ℕ → BucketRow → Verdict × BucketRow
unfolding refilled_row missing_row
consume_row config now row =
    if leb (2 * token) (refilled_row config now row)
    then (
      allowed,
      record { tokens_and_one = refilled_row config now row - token; last_refill = now },
    )
    else (denied (missing_row config now row), row)

-- `PostgresRateLimiter.check`: `seen` is the row of the first read, `there` the row at the insertion,
-- which violates the unique constraint if another request has made one.
unfoldable pub check_row :
    BucketConfig → ℕ → Option BucketRow → Option BucketRow → Verdict × BucketRow
unfolding consume_row
check_row config now none none =
    (allowed, record { tokens_and_one = config.capacity * token; last_refill = now })
check_row config now none (some row) = consume_row config now row
check_row config now (some row) there = consume_row config now row

-- `int(retry_after) + 1`, in seconds. A bucket that does not refill raises ZeroDivisionError.
pub data RetryError : Type 0 where
  zero_division : RetryError

unfoldable pub retry_seconds : BucketConfig → ℕ → Result RetryError ℕ
retry_seconds config missing =
    if leb config.refill 0 then err zero_division else ok (missing / (config.refill * 1000000) + 1)

-- The 429 of `enforce`, with its Retry-After header.
pub data Enforced : Type 0 where
  passed : Enforced
  too_many_requests : ℕ → Enforced

unfoldable pub refusal : Result RetryError ℕ → Result RetryError Enforced
refusal (err e) = err e
refusal (ok seconds) = ok (too_many_requests seconds)

unfoldable pub enforce : BucketConfig → Verdict → Result RetryError Enforced
unfolding retry_seconds refusal
enforce config allowed = ok passed
enforce config (denied missing) = refusal (retry_seconds config missing)

-- Requests of one client on one route, one after the other.
unfoldable pub verdicts : BucketConfig → List ℕ → Option TokenBucket → List Verdict
unfolding check
verdicts config [] bucket = []
verdicts config (now ∷ times) bucket =
    (check config now bucket).0 ∷ verdicts config times (some (check config now bucket).1)

unfoldable pub row_verdicts : BucketConfig → List ℕ → Option BucketRow → List Verdict
unfolding check_row
row_verdicts config [] row = []
row_verdicts config (now ∷ times) row =
    (check_row config now row row).0
    ∷ row_verdicts config times (some (check_row config now row row).1)
