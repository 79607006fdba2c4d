-- ===== src/Client/Request/Recovers.antt =====
-- A call outlasts a server that is busy for a while.
use terraform_provider_uapi.Base.{
  ℕ, zero, suc, ◌+◌, ◌≤◌, ◌≡◌, refl, String, Bool, false, Option, none, some, List, ◌∷◌, ◌++◌,
  arith,
}
use terraform_provider_uapi.Any.{Object}
use terraform_provider_uapi.Platform.{Platform, ok}
use terraform_provider_uapi.Client.World.{Method, Request, Response, answered, Attempt, Env, World}
use terraform_provider_uapi.Client.Retry.{max_attempts, set_deadline}
use terraform_provider_uapi.Client.Request.{
  Client, Reply, done, settle, request_loop, do_request, is_throttled, final_reply, final_warnings,
  encode,
}
use terraform_provider_uapi.Client.Request.Ends.{repeated, sent_request, payload}
use terraform_provider_uapi.Client.Request.Replays.{IsReplayable, HasBudget, retry_of_replayable}

-- The environment answers the request with `r`, no 423 and no 429, behind `k` attempts that may be
-- replayed, each within the budget that the first one sets.
abbrev pub Recovers : Env → Request → Response → ℕ → ℕ → Option ℕ → List Request → Type 0
Recovers env req r zero attempt deadline sent =
    ((env.respond (req ∷ sent)).outcome ≡ answered r) × (is_throttled r.status ≡ false)
Recovers env req r (suc k) attempt deadline sent =
    IsReplayable req.method (env.respond (req ∷ sent)).outcome
    × HasBudget attempt deadline (env.respond (req ∷ sent))
    × Recovers env req r k (attempt + 1)
        (some (set_deadline deadline (env.respond (req ∷ sent)).now)) (req ∷ sent)

-- The call ends with the answer, behind one request more than were replayed.
abbrev pub IsAnsweredBy : Platform → Bool → Request → Response → ℕ → World → Reply × World → Type 0
IsAnsweredBy p warned req r k w res =
    (res.0 ≡ final_reply p r)
    × (res.1.sent ≡ repeated (suc k) req w.sent)
    × (res.1.diags ≡ w.diags ++ final_warnings p warned r)

module _ (p : Platform) (warned : Bool) (env : Env) (req : Request) (r : Response) where
  settle-calm :
      (attempt : ℕ) (deadline : Option ℕ) (a : Attempt)
      → a.outcome ≡ answered r
      → is_throttled r.status ≡ false
      → settle p warned req.method attempt deadline a
        ≡ done (final_reply p r) (final_warnings p warned r)
  unfolding settle
  settle-calm attempt deadline a e calm = rw (e, calm, settle)

  request_loop-Recovers :
      (k fuel attempt : ℕ) (deadline : Option ℕ) (w : World)
      → attempt ≤ max_attempts
      → fuel + attempt ≡ max_attempts + 1
      → p.request_error req.target ≡ none
      → Recovers env req r k attempt deadline w.sent
      → IsAnsweredBy p warned req r k w (request_loop p warned req fuel attempt deadline env w)
  unfolding request_loop
  request_loop-Recovers k zero attempt deadline w small whole target h = absurd (omega arith)
  request_loop-Recovers zero (suc fuel) attempt deadline w small whole target h =
      rw (target, settle-calm attempt deadline (env.respond (req ∷ w.sent)) h.0 h.1, request_loop)
        (refl, refl, refl)
  request_loop-Recovers (suc k) (suc fuel) attempt deadline w small whole target h =
      let (wait, v) =
        retry_of_replayable p warned req.method attempt deadline (env.respond (req ∷ w.sent)) h.0
          h.1 in
      rw (target, v, request_loop)
        (request_loop-Recovers k fuel (attempt + 1) _
          (record w { sent = req ∷ w.sent; waits = wait ∷ w.waits }) (omega (arith, h.1.0))
          (omega arith) target h.2)

-- A call that the server refuses for a while with 423 or 429, or whose answers get lost while it is
-- a POST, returns the first other answer, if attempts and time are left at each refusal and the
-- context stays alive. Each attempt sends the same request. The body encodes, and net/http accepts
-- the target.
pub do_request-Recovers :
    (p : Platform) (c : Client) (warned : Bool) (method : Method) (path : String)
    (body : Option Object) (if_match : String) (text : Option String) (env : Env) (w : World)
    (r : Response) (k : ℕ)
    → encode p body ≡ ok text
    → p.request_error (sent_request p c method path body if_match env w).target ≡ none
    → Recovers env (sent_request p c method path body if_match env w) r k 0 none w.sent
    → IsAnsweredBy p warned
        (sent_request p c method path body if_match env w)
        r
        k
        w
        (do_request p c warned method path body if_match env w)
unfolding do_request
do_request-Recovers p c warned method path body if_match text env w r k enc target h =
    let target' = rw (enc, payload) at target in
    let h' = rw (enc, payload) at h in
    rw (enc, do_request, payload)
      (request_loop-Recovers p warned env _ r k (max_attempts + 1) 0 none w (omega arith)
        (omega arith) target' h')
