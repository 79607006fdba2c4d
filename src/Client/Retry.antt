-- ===== src/Client/Retry.antt =====
-- client.go: the retry budget, retryWait and replayPost.
pub mod Bounds
use terraform_provider_uapi.Base.{
  ℕ, ℤ, pos, ◌+◌, ◌*◌, ◌^◌, String, Bool, true, false, ◌||◌, not, Option, none, some, if◌then◌else◌,
  ltb, wrap_int64, is_some,
}
use terraform_provider_uapi.Base.Text.{trim_space, is_empty}
use terraform_provider_uapi.Base.Decimal.{atoi}
use terraform_provider_uapi.Client.World.{Method, post, Failure, Attempt}

-- Durations are nanoseconds.
abbrev pub second : ℕ
second = 1000000000

abbrev pub retry_budget : ℕ
retry_budget = 45 * second

abbrev pub max_attempts : ℕ
max_attempts = 50

-- 200 ms
abbrev pub base : ℕ
base = 200000000

abbrev pub max_wait : ℕ
max_wait = 5 * second

abbrev pub is_post : Method → Bool
is_post post = true
is_post _ = false

backoff : ℕ → ℕ
backoff attempt = if ltb attempt 5 then base * 2 ^ attempt else max_wait

-- The server's wait: a multiplication of int64 durations, which wraps around.
abbrev honored : Option ℤ → Option ℤ
honored (some (pos secs)) = some (wrap_int64 (secs * second))
honored _ = none

abbrev or_backoff : Option ℤ → ℕ → ℕ → ℤ
or_backoff (some d) attempt jitter = d
or_backoff none attempt jitter = pos (backoff attempt + jitter)

-- retryWait
unfoldable pub retry_wait : String → ℕ → ℕ → ℤ
unfolding backoff
retry_wait header attempt jitter =
    if is_empty header
    then pos (backoff attempt + jitter)
    else or_backoff (honored (atoi (trim_space header))) attempt jitter

-- `if deadline.IsZero() { deadline = time.Now().Add(retryBudget) }`
abbrev pub set_deadline : Option ℕ → ℕ → ℕ
set_deadline none now = now + retry_budget
set_deadline (some d) now = d

-- replayPost: none if the attempt is not replayed, or the deadline with the wait that was made
unfoldable pub replay_post : Method → Failure → Option ℕ → ℕ → Attempt → Option (ℕ × ℤ)
unfolding retry_wait
replay_post method f deadline attempt a =
    if not (is_post method) || is_some f.ended
    then none
    else (let d = set_deadline deadline a.now in
        if not (ltb attempt max_attempts) || not (ltb a.later d)
        then none
        else if is_some a.ended
        then none
        else some (d, retry_wait "" attempt a.jitter))
