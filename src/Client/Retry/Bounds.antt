-- ===== src/Client/Retry/Bounds.antt =====
-- How long retryWait waits.
use terraform_provider_uapi.Base.{
  ℕ, ℤ, pos, negsuc, zero, suc, ◌+◌, ◌-◌, ◌*◌, ◌^◌, ◌≤◌, ◌<◌, ◌≡◌, ◌≢◌, refl, String, false, some,
  arith, Option, none, Bool-cases, inl, inr, wrap_int64,
}
use terraform_provider_uapi.Base.Text.{trim_space, is_empty}
use terraform_provider_uapi.Base.Decimal.{atoi}
use terraform_provider_uapi.Client.Retry.{
  second, base, max_wait, backoff, retry_wait, or_backoff, honored,
}

backoff_bounds : (attempt : ℕ) → (base ≤ backoff attempt) × (backoff attempt ≤ max_wait)
unfolding backoff
backoff_bounds zero = omega arith
backoff_bounds (suc zero) = omega arith
backoff_bounds (suc (suc zero)) = omega arith
backoff_bounds (suc (suc (suc zero))) = omega arith
backoff_bounds (suc (suc (suc (suc zero)))) = omega arith
backoff_bounds (suc (suc (suc (suc (suc n))))) = ground arith

-- The header is no whole number of seconds, as when it is absent.
abbrev pub IsUnusable : String → Type 0
IsUnusable header = (secs : ℕ) → atoi (trim_space header) ≢ some (pos secs)

or_backoff_of_unusable :
    (o : Option ℤ) (attempt jitter : ℕ)
    → ((secs : ℕ) → o ≢ some (pos secs))
    → or_backoff (honored o) attempt jitter ≡ pos (backoff attempt + jitter)
or_backoff_of_unusable none attempt jitter h = refl
or_backoff_of_unusable (some (pos n)) attempt jitter h = absurd (h n refl)
or_backoff_of_unusable (some (negsuc n)) attempt jitter h = refl

retry_wait_of_unusable :
    (header : String) (attempt jitter : ℕ)
    → IsUnusable header
    → retry_wait header attempt jitter ≡ pos (backoff attempt + jitter)
unfolding retry_wait
retry_wait_of_unusable header attempt jitter h = elim (Bool-cases (is_empty header)) [
  | inl e ↦ rw e
  | inr e ↦ rw e (or_backoff_of_unusable (atoi (trim_space header)) attempt jitter h)
]

-- Without a usable Retry-After header, and with the jitter that is drawn below 200 ms, the wait is
-- at least 200 ms and less than 5.2 s, whatever the attempt.
pub retry_wait_bounds :
    (header : String) (attempt jitter : ℕ)
    → IsUnusable header
    → jitter < base
    → (n : ℕ) × (retry_wait header attempt jitter ≡ pos n) × (base ≤ n) × (n < max_wait + base)
retry_wait_bounds header attempt jitter h j = (
  backoff attempt + jitter,
  retry_wait_of_unusable header attempt jitter h,
  omega (arith, backoff_bounds attempt),
  omega (arith, backoff_bounds attempt),
)

is_empty-trim :
    (header : String) (z : ℤ) → atoi (trim_space header) ≡ some z → is_empty header ≡ false
unfolding atoi trim_space
is_empty-trim String.[] z h = cc h
is_empty-trim (String.◌∷◌ c s) z h = refl

retry_wait_of_usable :
    (header : String) (attempt jitter secs : ℕ)
    → atoi (trim_space header) ≡ some (pos secs)
    → retry_wait header attempt jitter ≡ wrap_int64 (secs * second)
unfolding retry_wait
retry_wait_of_usable header attempt jitter secs h = rw (is_empty-trim header _ h, h)

-- A Retry-After of at least 2 ^ 63 and less than 2 ^ 64 nanoseconds gives a negative wait.
pub retry_wait_overflow :
    (header : String) (attempt jitter secs : ℕ)
    → atoi (trim_space header) ≡ some (pos secs)
    → 2 ^ 63 ≤ secs * second
    → secs * second < 2 ^ 64
    → (n : ℕ) × (retry_wait header attempt jitter ≡ negsuc n)
retry_wait_overflow header attempt jitter secs h large small = (
  2 ^ 64 - 1 - secs * second,
  rw (retry_wait_of_usable header attempt jitter secs h) (ground arith),
)
