-- ===== src/Client/Request.antt =====
-- client.go: the request loop `do`.
pub mod Ends
pub mod Replays
pub mod Answers
pub mod Recovers
pub use terraform_provider_uapi.Client.Message.{Client}
unfoldable pub use terraform_provider_uapi.Client.Message.{
  new_client, idempotency_key, decode_error, add_query, build_request,
}
use terraform_provider_uapi.Base.{
  ℕ, ℤ, zero, suc, ◌+◌, String, Bool, ◌&&◌, ◌||◌, not, Option, none, some, List, [], ◌∷◌, ◌++◌,
  if◌then◌else◌, ltb, leb, nat_eq,
}
use terraform_provider_uapi.Base.Text.{is_empty}
use terraform_provider_uapi.Any.{Object}
use terraform_provider_uapi.Framework.{Diagnostic, warning}
use terraform_provider_uapi.Platform.{Platform, Called, ok, failed}
use terraform_provider_uapi.Client.Error.{Error, api, context, other, wrapped, out_of_fuel}
use terraform_provider_uapi.Client.World.{
  Method, Request, Response, no_answer, no_body, answered, Attempt, Action,
}
use terraform_provider_uapi.Client.Retry.{
  is_post, max_attempts, retry_wait, set_deadline, replay_post,
}

-- The five results of `do`.
pub record Reply : Type 0 where
  pub raw : String
  pub status : ℕ
  pub etag : String
  pub next_cursor : String
  pub err : Option Error

abbrev pub reply_error : ℕ → Error → Reply
reply_error status e = record {
  raw = "";
  status = status;
  etag = "";
  next_cursor = "";
  err = some e;
}

-- What the loop does behind one attempt: go round again with the deadline set, behind a wait, or
-- return.
pub data Verdict : Type 0 where
  retry : ℕ → ℤ → Verdict
  done : Reply → List Diagnostic → Verdict

unfoldable pub is_throttled : ℕ → Bool
is_throttled status = nat_eq status 423 || nat_eq status 429

unfoldable pub is_success : ℕ → Bool
is_success status = leb 200 status && ltb status 300

module _ (p : Platform) where
  -- what the call returns for a response that is not retried
  unfoldable pub final_reply : Response → Reply
  unfolding is_success
  final_reply r =
      let e = if is_success r.status then none else some (api (decode_error p r.status r.body)) in
      record {
        raw = if is_success r.status then r.body else "";
        status = r.status;
        etag = r.etag;
        next_cursor = r.next_cursor;
        err = e;
      }

  -- the advisory header, surfaced whatever the status
  unfoldable pub final_warnings : Bool → Response → List Diagnostic
  final_warnings warned r =
      if warned && not (is_empty r.mgmt_path_warning)
      then warning "This write affects the interface uapi was reached through" r.mgmt_path_warning
        ∷ []
      else []

  finish : Bool → Response → Verdict
  finish warned r = done (final_reply r) (final_warnings warned r)

  abbrev replayed : Option (ℕ × ℤ) → Reply → Verdict
  replayed none original = done original []
  replayed (some (d, wait)) original = retry d wait

  -- the wait in front of the next round, unless the context ends in it
  throttled : ℕ → Attempt → ℕ → ℕ → String → Verdict
  throttled status a attempt d header = elim a.ended [
    | some e ↦ done (reply_error status (context e)) []
    | none ↦ retry d (retry_wait header attempt a.jitter)
  ]

  -- the loop's body behind c.http.Do
  unfoldable pub settle : Bool → Method → ℕ → Option ℕ → Attempt → Verdict
  unfolding is_throttled finish throttled replay_post
  settle warned method attempt deadline a = elim a.outcome [
    | no_answer f ↦
        replayed (replay_post method f deadline attempt a) (reply_error 0 (other f.text))
    | no_body status f ↦
        replayed (replay_post method f deadline attempt a)
          (reply_error status (wrapped "reading response body" (other f.text)))
    | answered r ↦
        let d = set_deadline deadline a.now in
        if is_throttled r.status && (ltb attempt max_attempts && ltb a.later d)
        then throttled r.status a attempt d r.retry_after
        else finish warned r
  ]

  -- the loop of `do`
  unfoldable pub request_loop : Bool → Request → ℕ → ℕ → Option ℕ → Action Reply
  request_loop warned req zero attempt deadline env w = (reply_error 0 out_of_fuel, w)
  request_loop warned req (suc fuel) attempt deadline env w = elim (p.request_error req.target) [
    | some text ↦ (reply_error 0 (other text), w)
    | none ↦
        let sent = req ∷ w.sent in
        elim (settle warned req.method attempt deadline (env.respond sent)) [
          | retry d wait ↦
              request_loop warned req fuel (attempt + 1) (some d) env
                (record w { sent = sent; waits = wait ∷ w.waits })
          | done r ds ↦ (r, record w { sent = sent; diags = w.diags ++ ds })
        ]
  ]

  -- json.Marshal of the body; no payload without a body
  abbrev pub encode : Option Object → Called (Option String)
  encode none = ok none
  encode (some b) = elim (p.marshal b) [ ok s ↦ ok (some s) | failed t ↦ failed t ]

  abbrev pub fresh_key : Method → Action String
  fresh_key method env w = (if is_post method then idempotency_key (env.random w.sent) else "", w)

  -- `do`, with `warned` for a context that carries a Warner
  unfoldable pub do_request :
      Client → Bool → Method → String → Option Object → String → Action Reply
  do_request c warned method path body if_match env w = elim (encode body) [
    | failed t ↦ (reply_error 0 (wrapped "encoding request body" (other t)), w)
    | ok payload ↦
        let (key, w') = fresh_key method env w in
        request_loop warned (build_request p c method path payload if_match key) (max_attempts + 1)
          0 none env w'
  ]
