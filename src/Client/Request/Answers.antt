-- ===== src/Client/Request/Answers.antt =====
-- What one definite answer does, and that a call shows warnings only.
use terraform_provider_uapi.Base.{
  ℕ, zero, suc, ◌+◌, ◌≡◌, refl, String, Bool, false, ◌||◌, Option, none, some, List, [], ◌∷◌, ◌++◌,
  arith, inl, inr, Option-cases,
}
use terraform_provider_uapi.Any.{Object}
use terraform_provider_uapi.Framework.{Diagnostic, has_error}
use terraform_provider_uapi.Platform.{Platform, ok, Called-cases}
use terraform_provider_uapi.Client.World.{Method, Request, Response, answered, Attempt, Env, World}
use terraform_provider_uapi.Client.Retry.{max_attempts}
use terraform_provider_uapi.Client.Request.{
  Client, Reply, done, settle, request_loop, do_request, is_throttled, final_reply, final_warnings,
  fresh_key, encode, build_request,
}
use terraform_provider_uapi.Client.Request.Ends.{Verdict-cases}

pub has_error-append :
    (xs ys : List Diagnostic) → has_error (xs ++ ys) ≡ (has_error xs || has_error ys)
unfolding has_error
has_error-append [] ys = refl
has_error-append (x ∷ xs) ys = rw (has_error-append xs ys) (ground arith)

module _ (p : Platform) where
  -- A response that is neither a 423 nor a 429 ends the loop at once.
  answered-once :
      (warned : Bool) (req : Request) (fuel : ℕ) (r : Response) (env : Env) (w : World)
      → is_throttled r.status ≡ false
      → p.request_error req.target ≡ none
      → (env.respond (req ∷ w.sent)).outcome ≡ answered r
      → request_loop p warned req (suc fuel) 0 none env w ≡ (
        final_reply p r,
        record w { sent = req ∷ w.sent; diags = w.diags ++ final_warnings p warned r },
      )
  unfolding request_loop settle
  answered-once warned req fuel r env w calm target answer =
      rw (target, answer, calm, request_loop, settle)

  -- A call whose first attempt is answered, with neither 423 nor 429, sends one request and
  -- returns what that answer says. Its body encodes, and net/http accepts its target.
  pub do_request-answered :
      (c : Client) (warned : Bool) (method : Method) (path : String) (body : Option Object)
      (if_match : String) (payload : Option String) (r : Response) (env : Env) (w : World)
      → encode p body ≡ ok payload
      → p.request_error
          (build_request p c method path payload if_match (fresh_key p method env w).0).target
        ≡ none
      → (env.respond (
          build_request p c method path payload if_match (fresh_key p method env w).0
          ∷ w.sent)).outcome
        ≡ answered r
      → is_throttled r.status ≡ false
      → do_request p c warned method path body if_match env w ≡ (
        final_reply p r,
        record w {
          sent =
              build_request p c method path payload if_match (fresh_key p method env w).0 ∷ w.sent;
          diags = w.diags ++ final_warnings p warned r;
        },
      )
  unfolding do_request
  do_request-answered c warned method path body if_match payload r env w enc target answer calm =
      rw (enc, do_request)
        (answered-once warned
          (build_request p c method path payload if_match (fresh_key p method env w).0) max_attempts
          r env w calm target answer)

  settle-quiet :
      (warned : Bool) (method : Method) (attempt : ℕ) (deadline : Option ℕ) (a : Attempt)
      {r : Reply} {ds : List Diagnostic}
      → settle p warned method attempt deadline a ≡ done r ds
      → has_error ds ≡ false
  unfolding settle has_error final_warnings
  settle-quiet warned method attempt deadline a h = ground arith

  request_loop-quiet :
      (warned : Bool) (req : Request) (fuel attempt : ℕ) (deadline : Option ℕ) (env : Env)
      (w : World)
      → has_error (request_loop p warned req fuel attempt deadline env w).1.diags
        ≡ has_error w.diags
  unfolding request_loop
  request_loop-quiet warned req zero attempt deadline env w = refl
  request_loop-quiet warned req (suc fuel) attempt deadline env w =
      elim (Option-cases (p.request_error req.target)) [
        | inr (text, e) ↦ rw (e, request_loop)
        | inl e ↦
            elim (Verdict-cases
              (settle p warned req.method attempt deadline (env.respond (req ∷ w.sent)))) [
                | inl (d, wait, v) ↦
                    rw (e, v, request_loop)
                      (request_loop-quiet warned req fuel (attempt + 1) (some d) env
                        (record w { sent = req ∷ w.sent; waits = wait ∷ w.waits }))
                | inr (r, ds, v) ↦
                    rw (e, v, request_loop)
                      (rw
                        (
                          has_error-append w.diags ds,
                          settle-quiet warned req.method attempt deadline _ v,
                        )
                        (ground arith))
              ]
      ]

  -- A call changes nothing about whether an error is shown: it shows warnings only.
  pub do_request-quiet :
      (c : Client) (warned : Bool) (method : Method) (path : String) (body : Option Object)
      (if_match : String) (env : Env) (w : World)
      → has_error (do_request p c warned method path body if_match env w).1.diags
        ≡ has_error w.diags
  unfolding do_request
  do_request-quiet c warned method path body if_match env w = elim (Called-cases (encode p body)) [
    | inl (s, e) ↦ rw (e, do_request) (request_loop-quiet warned _ _ 0 none env w)
    | inr (t, e) ↦ rw (e, do_request)
  ]
