-- ===== src/RateLimit/Agree.antt =====
-- The limiter over the database against the one in memory, for requests one after the other.
use native.Mathlib.Nat.{mul-le-mul_right}
use composer.Base.{
  ℕ, ◌+◌, ◌-◌, ◌*◌, ◌≤◌, ◌<◌, ◌≡◌, refl, none, some, List, [], ◌∷◌, leb, arith, Bool-cases, ◌⊎◌,
  inl, inr,
}
use composer.RateLimit.{
  token, BucketConfig, allowed, denied, TokenBucket, new_bucket, refilled, check, BucketRow,
  refilled_row, missing_row, consume_row, check_row, verdicts, row_verdicts,
}
use composer.RateLimit.Bounds.{Ascending, try_consume-cases}

-- The row is behind the bucket, and has gained since what the bucket has.
abbrev Agrees : TokenBucket → BucketRow → Type 0
Agrees bucket row =
    (row.last_refill ≤ bucket.last_refill)
    × (bucket.tokens + token ≡ refilled_row bucket.config bucket.last_refill row)

-- A refill in two parts, each with the cap, is the refill at once.
refilled-row :
    (now : ℕ) (bucket : TokenBucket) (row : BucketRow)
    → Agrees bucket row
    → bucket.last_refill ≤ now
    → (refilled bucket now).tokens + token ≡ refilled_row bucket.config now row
unfolding refilled refilled_row
refilled-row now bucket row h le = ground (
  arith,
  h.1,
  mul-le-mul_right bucket.config.refill h.0,
  mul-le-mul_right bucket.config.refill le,
)

missing-row :
    (now : ℕ) (bucket : TokenBucket) (row : BucketRow)
    → (refilled bucket now).tokens + token ≡ refilled_row bucket.config now row
    → (refilled bucket now).tokens < token
    → token - (refilled bucket now).tokens ≡ missing_row bucket.config now row
unfolding refilled refilled_row missing_row
missing-row now bucket row e short = ground (arith, e, short)

consume_row-cases :
    (config : BucketConfig) (now : ℕ) (row : BucketRow)
    → ((2 * token ≤ refilled_row config now row)
        × (consume_row config now row ≡ (
          allowed,
          record { tokens_and_one = refilled_row config now row - token; last_refill = now },
        )))
      ⊎ ((refilled_row config now row < 2 * token)
          × (consume_row config now row ≡ (denied (missing_row config now row), row)))
unfolding consume_row
consume_row-cases config now row =
    elim (Bool-cases (leb (2 * token) (refilled_row config now row))) [
      | inl enough ↦ inl (ground arith, rw enough refl)
      | inr short ↦ inr (ground arith, rw short refl)
    ]

Agrees-spent :
    (now : ℕ) (bucket : TokenBucket) (row : BucketRow)
    → (refilled bucket now).tokens + token ≡ refilled_row bucket.config now row
    → token ≤ (refilled bucket now).tokens
    → Agrees
        (record (refilled bucket now) { tokens = (refilled bucket now).tokens - token })
        (record { tokens_and_one = refilled_row bucket.config now row - token; last_refill = now })
unfolding refilled refilled_row
Agrees-spent now bucket row e enough = (omega arith, ground (arith, e, enough))

Agrees-denied :
    (now : ℕ) (bucket : TokenBucket) (row : BucketRow)
    → (refilled bucket now).tokens + token ≡ refilled_row bucket.config now row
    → row.last_refill ≤ now
    → Agrees (refilled bucket now) row
unfolding refilled
Agrees-denied now bucket row e le = (le, e)

verdicts-row :
    (times : List ℕ) (bucket : TokenBucket) (row : BucketRow)
    → Agrees bucket row
    → Ascending bucket.last_refill times
    → verdicts bucket.config times (some bucket) ≡ row_verdicts bucket.config times (some row)
unfolding verdicts row_verdicts check check_row refilled
verdicts-row [] bucket row h up = refl
verdicts-row (now ∷ times) bucket row h up =
    let e = refilled-row now bucket row h up.0 in
    elim (try_consume-cases now bucket) [
      | inl (enough, passes) ↦ elim (consume_row-cases bucket.config now row) [
        | inl (there, too) ↦ rw passes (
            rw too (
              cc (
                verdicts-row times
                  (record (refilled bucket now) { tokens = (refilled bucket now).tokens - token })
                  (record {
                    tokens_and_one = refilled_row bucket.config now row - token;
                    last_refill = now;
                  })
                  (Agrees-spent now bucket row e enough) up.1)))
        | inr (less, too) ↦ ground (arith, e, enough, less)
      ]
      | inr (short, fails) ↦ elim (consume_row-cases bucket.config now row) [
        | inl (there, too) ↦ ground (arith, e, short, there)
        | inr (less, too) ↦ rw fails (
            rw too (
              cc (
                missing-row now bucket row e short,
                verdicts-row times (refilled bucket now) row
                    (Agrees-denied now bucket row e (omega (arith, h.0, up.0))) up.1,
              )))
      ]
    ]

first-tokens :
    (config : BucketConfig) (now : ℕ)
    → (refilled (new_bucket config now) now).tokens ≡ config.capacity * token
unfolding refilled new_bucket
first-tokens config now = ground arith

Agrees-first :
    (config : BucketConfig) (now : ℕ)
    → 1 ≤ config.capacity
    → let after = refilled (new_bucket config now) now in
      Agrees
        (record after { tokens = after.tokens - token })
        (record { tokens_and_one = config.capacity * token; last_refill = now })
unfolding refilled new_bucket refilled_row
Agrees-first config now room = (omega arith, ground (arith, first-tokens config now))

-- Requests of one client on one route get the same answers, with the same units missing, from the limiter
-- in memory and from the one over the database, where the capacity is at least 1, the times do not go
-- back, and no two requests overlap.
pub limiters_agree :
    (config : BucketConfig) (now : ℕ) (times : List ℕ)
    → 1 ≤ config.capacity
    → Ascending now times
    → verdicts config (now ∷ times) none ≡ row_verdicts config (now ∷ times) none
unfolding verdicts row_verdicts check check_row refilled new_bucket
limiters_agree config now times room up =
    let bucket = new_bucket config now in
    let full = first-tokens config now in
    elim (try_consume-cases now bucket) [
      | inl (enough, passes) ↦ rw passes (
          cc (
            verdicts-row times
              (record (refilled bucket now) { tokens = (refilled bucket now).tokens - token })
              (record { tokens_and_one = config.capacity * token; last_refill = now })
              (Agrees-first config now room) up))
      | inr (short, fails) ↦ ground (arith, full, short, room)
    ]
