-- ===== src/Client/Request/Replays.antt =====
-- Which attempts the request loop replays.
use terraform_provider_uapi.Base.{ℕ, ℤ, ◌<◌, ◌≡◌, ◌↔◌, ◌⊎◌, refl, Bool, true, Option, none, arith}
use terraform_provider_uapi.Platform.{Platform}
use terraform_provider_uapi.Client.World.{Method, Outcome, no_answer, no_body, answered, Attempt}
use terraform_provider_uapi.Client.Retry.{max_attempts, is_post, set_deadline, retry_wait}
use terraform_provider_uapi.Client.Request.{retry, settle}

-- A failure after which a replay is safe: the server refused for now, or the answer to a POST,
-- which carries an idempotency key, was lost while the context was alive.
abbrev pub IsReplayable : Method → Outcome → Type 0
IsReplayable method (no_answer f) = (is_post method ≡ true) × (f.ended ≡ none)
IsReplayable method (no_body status f) = (is_post method ≡ true) × (f.ended ≡ none)
IsReplayable method (answered r) = (r.status ≡ 423) ⊎ (r.status ≡ 429)

-- Nothing stops the next round: attempts are left, the deadline has not passed, and the context
-- lives through the wait.
abbrev pub HasBudget : ℕ → Option ℕ → Attempt → Type 0
HasBudget attempt deadline a =
    (attempt < max_attempts) × (a.later < set_deadline deadline a.now) × (a.ended ≡ none)

module _ (p : Platform) (warned : Bool) (method : Method) (attempt : ℕ) (deadline : Option ℕ) where
  -- A round is followed by another one only behind a replayable outcome and within the budget,
  -- and the deadline that is set at the first failure stays.
  settle-retry :
      (a : Attempt) (d : ℕ) (wait : ℤ)
      → settle p warned method attempt deadline a ≡ retry d wait
      → IsReplayable method a.outcome
        × HasBudget attempt deadline a
        × (d ≡ set_deadline deadline a.now)
  unfolding settle
  settle-retry a d wait h = go a.outcome refl
    where
      go :
          (o : Outcome)
          → a.outcome ≡ o
          → IsReplayable method a.outcome
            × HasBudget attempt deadline a
            × (d ≡ set_deadline deadline a.now)
      go (no_answer f) e = rw e (ground arith)
      go (no_body s f) e = rw e (ground arith)
      go (answered r) e = rw e (ground arith)

  pub retry_of_replayable :
      (a : Attempt)
      → IsReplayable method a.outcome
      → HasBudget attempt deadline a
      → (wait : ℤ) × (settle p warned method attempt deadline a
          ≡ retry (set_deadline deadline a.now) wait)
  unfolding settle
  retry_of_replayable a r b = go a.outcome refl
    where
      go :
          (o : Outcome)
          → a.outcome ≡ o
          → (wait : ℤ) × (settle p warned method attempt deadline a
              ≡ retry (set_deadline deadline a.now) wait)
      go (no_answer f) e =
          let r' = rw e at r in (retry_wait "" attempt a.jitter, rw e (ground arith))
      go (no_body s f) e =
          let r' = rw e at r in (retry_wait "" attempt a.jitter, rw e (ground arith))
      go (answered x) e =
          let r' = rw e at r in (retry_wait x.retry_after attempt a.jitter, rw e (ground arith))

  -- The request loop goes round again exactly if the outcome is a 423, a 429 or a lost answer to a
  -- POST whose context is alive, attempts are left, the retry deadline has not passed and the
  -- context lives through the wait; the deadline is the one set at the first such failure.
  pub settle_retry_iff :
      (a : Attempt) (d : ℕ)
      → ((wait : ℤ) × (settle p warned method attempt deadline a ≡ retry d wait)) ↔ (
          IsReplayable method a.outcome
          × HasBudget attempt deadline a
          × (d ≡ set_deadline deadline a.now))
  settle_retry_iff a d = (
    λ h. settle-retry a d h.0 h.1,
    λ h. let (wait, e) = retry_of_replayable a h.0 h.1 in (wait, rw h.2 e),
  )
