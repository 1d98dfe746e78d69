-- ===== src/RateLimit/Bounds.antt =====
-- How many requests a bucket lets pass.
use native.Mathlib.Nat.{mul-le-mul_right, lt-mul-div-succ}
use composer.Base.{
  ap, ℕ, suc, ◌+◌, ◌-◌, ◌*◌, ◌/◌, ◌≤◌, ◌<◌, ◌≡◌, refl, none, some, List, [], ◌∷◌, leb, arith,
  Bool-cases, ◌⊎◌, inl, inr, ok,
}
use composer.RateLimit.{
  token, BucketConfig, Verdict, allowed, denied, TokenBucket, new_bucket, refilled, consume,
  try_consume, check, verdicts, too_many_requests, enforce, retry_seconds, refusal,
}

-- The times never go back.
abbrev pub Ascending : ℕ → List ℕ → Type 0
Ascending from [] = Unit
Ascending from (now ∷ times) = (from ≤ now) × Ascending now times

abbrev pub last_time : ℕ → List ℕ → ℕ
last_time from [] = from
last_time from (now ∷ times) = last_time now times

abbrev pub passed_count : List Verdict → ℕ
passed_count [] = 0
passed_count (allowed ∷ answers) = suc (passed_count answers)
passed_count (denied missing ∷ answers) = passed_count answers

-- A request that passes costs one token of what the bucket holds and gains since.
abbrev cost_of : Verdict → ℕ
cost_of allowed = token
cost_of (denied missing) = 0

-- Either way of a request, by what the refilled bucket holds.
pub try_consume-cases :
    (now : ℕ) (bucket : TokenBucket)
    → let after = refilled bucket now in
      ((token ≤ after.tokens)
        × (try_consume 1 now bucket ≡ (allowed, record after { tokens = after.tokens - token })))
      ⊎ ((after.tokens < token)
          × (try_consume 1 now bucket ≡ (denied (token - after.tokens), after)))
unfolding try_consume consume
try_consume-cases now bucket = elim (Bool-cases (leb (1 * token) (refilled bucket now).tokens)) [
  | inl enough ↦ inl (ground arith, rw enough refl)
  | inr short ↦ inr (ground arith, rw short refl)
]

refilled-tokens :
    (now : ℕ) (bucket : TokenBucket)
    → bucket.last_refill ≤ now
    → (refilled bucket now).tokens + bucket.last_refill * bucket.config.refill
      ≤ bucket.tokens + now * bucket.config.refill
unfolding refilled
refilled-tokens now bucket le = ground (arith, mul-le-mul_right bucket.config.refill le)

-- Requests that pass take no more than the bucket holds and gains.
verdicts-bound :
    (times : List ℕ) (bucket : TokenBucket)
    → Ascending bucket.last_refill times
    → passed_count (verdicts bucket.config times (some bucket)) * token
        + bucket.last_refill * bucket.config.refill
      ≤ bucket.tokens + last_time bucket.last_refill times * bucket.config.refill
unfolding verdicts check
verdicts-bound [] bucket h = omega arith
verdicts-bound (now ∷ times) bucket h =
    let after = refilled bucket now in
    let gain = refilled-tokens now bucket h.0 in
    elim (try_consume-cases now bucket) [
      | inl (enough, e) ↦
          let left : TokenBucket = record after { tokens = after.tokens - token } in
          rw e (omega (arith, verdicts-bound times left h.1, gain, enough))
      | inr (short, e) ↦ rw e (omega (arith, verdicts-bound times after h.1, gain))
    ]

new_bucket-first :
    (config : BucketConfig) (now : ℕ) (times : List ℕ)
    → verdicts config (now ∷ times) none
      ≡ verdicts config (now ∷ times) (some (new_bucket config now))
unfolding verdicts check
new_bucket-first config now times = refl

-- The requests of a client on a route that pass, from the first one on, are at most the capacity and what
-- is refilled from the first to the last request, for the limiter in memory and times that do not go back.
pub passed-bounded :
    (config : BucketConfig) (now : ℕ) (times : List ℕ)
    → Ascending now times
    → passed_count (verdicts config (now ∷ times) none) * token + now * config.refill
      ≤ config.capacity * token + last_time now times * config.refill
unfolding new_bucket
passed-bounded config now times h =
    rw (new_bucket-first config now times)
      (verdicts-bound (now ∷ times) (new_bucket config now) (omega arith, h))

refilled-enough :
    (later : ℕ) (bucket : TokenBucket)
    → 1 ≤ bucket.config.capacity
    → token + bucket.last_refill * bucket.config.refill
      ≤ bucket.tokens + later * bucket.config.refill
    → token ≤ (refilled bucket later).tokens
unfolding refilled
refilled-enough later bucket room gain = ground arith

-- The header covers what is missing.
retry_seconds-covers :
    (config : BucketConfig) (missing seconds : ℕ)
    → enforce config (denied missing) ≡ ok (too_many_requests seconds)
    → missing ≤ config.refill * 1000000 * seconds
unfolding enforce retry_seconds refusal
retry_seconds-covers config missing seconds header = elim (Bool-cases (leb config.refill 0)) [
  | inl none_left ↦ cc (rw none_left at header)
  | inr refills ↦
      let shown = rw refills at header in
      let is : missing / (config.refill * 1000000) + 1 ≡ seconds = cc shown in
      let positive : 0 < config.refill * 1000000 = ground arith in
      omega (arith, is, ap (λ n. config.refill * 1000000 * n) is, lt-mul-div-succ missing positive)
]

waited :
    (refill now later seconds : ℕ)
    → now + seconds * 1000000 ≤ later
    → now * refill + refill * 1000000 * seconds ≤ later * refill
waited refill now later seconds wait = omega (arith, mul-le-mul_right refill wait)

-- A request is denied, and Retry-After says `seconds`. The next request of the client on the route passes
-- if it comes no sooner, where the capacity is at least 1: for the limiter in memory.
pub retry_after_enough :
    (bucket : TokenBucket) (now later missing seconds : ℕ)
    → 1 ≤ bucket.config.capacity
    → (try_consume 1 now bucket).0 ≡ denied missing
    → enforce bucket.config (denied missing) ≡ ok (too_many_requests seconds)
    → now + seconds * 1000000 ≤ later
    → (try_consume 1 later (try_consume 1 now bucket).1).0 ≡ allowed
unfolding refilled
retry_after_enough bucket now later missing seconds room refused header wait =
    let after = refilled bucket now in
    elim (try_consume-cases now bucket) [
      | inl (enough, e) ↦ cc (refused, ap (λ p. p.0) e)
      | inr (short, e) ↦
          let lacks : missing ≡ token - after.tokens = cc (refused, ap (λ p. p.0) e) in
          let gain = refilled-enough later after room (
            omega (
              arith,
              lacks,
              short,
              retry_seconds-covers bucket.config missing seconds header,
              waited bucket.config.refill now later seconds wait,
            )) in
          elim (try_consume-cases later after) [
            | inl (enough, passes) ↦ rw e (ap (λ p. p.0) passes)
            | inr (less, fails) ↦ ground (arith, gain, less)
          ]
    ]
