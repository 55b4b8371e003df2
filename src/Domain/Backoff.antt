-- ===== src/Domain/Backoff.antt =====
-- app/domain/jobs.py: ranks of provider statuses, the delay before a retry, and which HTTP answers
-- may be tried again.
use native.Mathlib.Nat.{pow-suc}
use poolbrian_sms_automation.Prelude.{
  ℕ, zero, suc, ◌+◌, ◌-◌, ◌*◌, ◌^◌, ◌≤◌, min, ◌≡◌, Bool, ◌||◌, String, Option, none, some, arith,
  if◌then◌else◌, str_eq, leb, ◌==◌,
}

-- TWILIO_STATUS_RANK, with 0 for a text that is no key; the argument is in lower case.
unfoldable pub rank_of : String → ℕ
rank_of status =
    if str_eq status "accepted"
    then 10
    else (if str_eq status "scheduled"
        then 15
        else (if str_eq status "queued"
            then 20
            else (if str_eq status "sending"
                then 30
                else (if str_eq status "sent"
                    then 40
                    else (if str_eq status "delivered"
                          || (str_eq status "undelivered"
                              || (str_eq status "failed" || str_eq status "canceled"))
                        then 100
                        else 0)))))

-- `lower` is `str.lower`.
unfoldable pub provider_status_rank : (String → String) → Option String → ℕ
unfolding rank_of
provider_status_rank lower none = rank_of (lower "")
provider_status_rank lower (some status) = rank_of (lower status)

-- In seconds. `-` stops at 0, as `max(0, attempt_count - 1)` does.
unfoldable pub retry_delay : ℕ → ℕ
retry_delay attempt_count = min 3600 (30 * 2 ^ (attempt_count - 1))

unfoldable pub is_retryable_http_status : ℕ → Bool
is_retryable_http_status code =
    code == 408 || (code == 409 || (code == 425 || (code == 429 || leb 500 code)))

pow_step : (n : ℕ) → 2 ^ suc n ≡ 2 * 2 ^ n
pow_step n = rw pow-suc (omega arith)

pow_pos : (n : ℕ) → 1 ≤ 2 ^ n
pow_pos zero = omega arith
pow_pos (suc n) = omega (arith, pow_step n, pow_pos n)

pow_large : (n : ℕ) → 128 ≤ 2 ^ (7 + n)
pow_large zero = omega arith
pow_large (suc n) =
    let e : 7 + suc n ≡ suc (7 + n) = omega arith in
    rw (e, pow_step (7 + n)) (omega (arith, pow_large n))

-- The delay is half a minute after the first attempt, and where none was made; it doubles from one
-- attempt to the next until it reaches an hour, and is an hour from the eighth attempt on. It is
-- never less than half a minute or more than an hour.
pub retry_delay_lem :
    (n : ℕ)
    → (retry_delay 0 ≡ 30)
      × (retry_delay 1 ≡ 30)
      × (30 ≤ retry_delay n)
      × (retry_delay n ≤ 3600)
      × (retry_delay (suc (suc n)) ≡ min 3600 (2 * retry_delay (suc n)))
      × (retry_delay (8 + n) ≡ 3600)
unfolding retry_delay
retry_delay_lem n = (
  omega arith,
  omega arith,
  omega (arith, pow_pos (n - 1)),
  omega arith,
  doubled n,
  hour (8 + n) (omega arith),
)
  where
    doubled :
        (k : ℕ)
        → min 3600 (30 * 2 ^ (suc (suc k) - 1)) ≡ min 3600 (2 * min 3600 (30 * 2 ^ (suc k - 1)))
    doubled k =
        let e : suc (suc k) - 1 ≡ suc k = omega arith in
        let f : suc k - 1 ≡ k = omega arith in rw (e, f) (omega (arith, pow_step k))

    hour : (k : ℕ) → 8 ≤ k → min 3600 (30 * 2 ^ (k - 1)) ≡ 3600
    hour k h = let e : k - 1 ≡ 7 + (k - 8) = omega arith in rw e (omega (arith, pow_large (k - 8)))
