-- ===== src/Client/Request/Ends.antt =====
-- The request loop ends: it sends one request at most 51 times, and never runs out of fuel.
use terraform_provider_uapi.Base.{
  ℕ, ℤ, zero, suc, ◌+◌, ◌≤◌, ◌<◌, ◌≡◌, ◌≢◌, refl, String, Bool, Option, none, some, List, ◌∷◌,
  arith, inl, inr, Option-cases, ◌⊎◌,
}
use terraform_provider_uapi.Any.{Object}
use terraform_provider_uapi.Framework.{Diagnostic}
use terraform_provider_uapi.Platform.{Platform, ok, failed, Called-cases}
use terraform_provider_uapi.Client.Error.{out_of_fuel}
use terraform_provider_uapi.Client.World.{Method, Request, Attempt, Env, World}
use terraform_provider_uapi.Client.Retry.{max_attempts}
use terraform_provider_uapi.Client.Request.{
  Client, Reply, Verdict, retry, done, final_reply, settle, request_loop, do_request, fresh_key,
  build_request, encode,
}

-- `k` copies of a request in front of a history.
abbrev pub repeated : ℕ → Request → List Request → List Request
repeated zero req sent = sent
repeated (suc k) req sent = repeated k req (req ∷ sent)

module _ (p : Platform) where
  -- A verdict to go round again comes before the last attempt.
  retry-lt-max_attempts :
      (warned : Bool) (method : Method) (attempt : ℕ) (deadline : Option ℕ) (a : Attempt) {d : ℕ}
      {wait : ℤ}
      → settle p warned method attempt deadline a ≡ retry d wait
      → attempt < max_attempts
  unfolding settle
  retry-lt-max_attempts warned method attempt deadline a h = ground arith

  settle-ne-out_of_fuel :
      (warned : Bool) (method : Method) (attempt : ℕ) (deadline : Option ℕ) (a : Attempt)
      {r : Reply} {ds : List Diagnostic}
      → settle p warned method attempt deadline a ≡ done r ds
      → r.err ≢ some out_of_fuel
  unfolding settle final_reply
  settle-ne-out_of_fuel warned method attempt deadline a h = ground arith

pub Verdict-cases :
    (v : Verdict)
    → ((d : ℕ) × (wait : ℤ) × (v ≡ retry d wait))
      ⊎ ((r : Reply) × (ds : List Diagnostic) × (v ≡ done r ds))
Verdict-cases (retry d wait) = inl (d, wait, refl)
Verdict-cases (done r ds) = inr (r, ds, refl)

-- The loop ends by itself, behind at most `fuel` copies of the request.
abbrev pub Ends : ℕ → Request → World → Reply × World → Type 0
Ends fuel req w res =
    (k : ℕ) × (k ≤ fuel) × (res.1.sent ≡ repeated k req w.sent) × (res.0.err ≢ some out_of_fuel)

module _ (p : Platform) (warned : Bool) (req : Request) where
  request_loop-Ends :
      (fuel attempt : ℕ) (deadline : Option ℕ) (env : Env) (w : World)
      → attempt ≤ max_attempts
      → fuel + attempt ≡ max_attempts + 1
      → Ends fuel req w (request_loop p warned req fuel attempt deadline env w)
  unfolding request_loop
  request_loop-Ends zero attempt deadline env w small whole = absurd (omega arith)
  request_loop-Ends (suc fuel) attempt deadline env w small whole =
      elim (Option-cases (p.request_error req.target)) [
        | inr (text, e) ↦ rw (e, request_loop) (0, omega arith, refl, λ q. cc)
        | inl e ↦
            elim (Verdict-cases
              (settle p warned req.method attempt deadline (env.respond (req ∷ w.sent)))) [
                | inl (d, wait, v) ↦
                    let w' : World = record w { sent = req ∷ w.sent; waits = wait ∷ w.waits } in
                    let (k, few, same, ended) =
                      request_loop-Ends fuel (attempt + 1) (some d) env w'
                        (omega
                          (arith, retry-lt-max_attempts p warned req.method attempt deadline _ v))
                        (omega arith) in
                    rw (e, v, request_loop) (suc k, omega arith, same, ended)
                | inr (r, ds, v) ↦
                    rw (e, v, request_loop)
                      (
                        1,
                        omega arith,
                        refl,
                        settle-ne-out_of_fuel p warned req.method attempt deadline _ v,
                      )
              ]
      ]

module _ (p : Platform) (c : Client) where
  -- The payload that is sent, none if the body does not encode.
  abbrev pub payload : Option Object → Option String
  payload body = elim (encode p body) [ ok s ↦ s | failed t ↦ none ]

  -- The request that a call sends, with the payload and the key of the call.
  abbrev pub sent_request : Method → String → Option Object → String → Env → World → Request
  sent_request method path body if_match env w =
      build_request p c method path (payload body) if_match (fresh_key p method env w).0

  -- Every call of `do` returns behind at most 51 attempts, whatever the server, the network and the
  -- clock do, and all of its attempts send one and the same request, the idempotency key included.
  pub do_request-Ends :
      (warned : Bool) (method : Method) (path : String) (body : Option Object) (if_match : String)
      (env : Env) (w : World)
      → Ends
          (max_attempts + 1)
          (sent_request method path body if_match env w)
          w
          (do_request p c warned method path body if_match env w)
  unfolding do_request
  do_request-Ends warned method path body if_match env w = elim (Called-cases (encode p body)) [
    | inl (s, e) ↦
        rw (e, do_request, payload)
          (request_loop-Ends p warned _ (max_attempts + 1) 0 none env w (omega arith) (omega arith))
    | inr (t, e) ↦ rw (e, do_request, payload) (0, omega arith, refl, λ q. cc)
  ]
