-- ===== src/Provider/Crud/Refused.antt =====
-- A write that the router refuses.
use terraform_provider_uapi.Base.{
  String, true, false, ◌≡◌, none, some, Option, List, [], ◌∷◌, ◌++◌, arith,
}
use terraform_provider_uapi.Base.Text.{◌<>◌}
use terraform_provider_uapi.Any.{Object}
use terraform_provider_uapi.Framework.{
  Diagnostic, error, warning, attribute_error, has_error, value_string,
}
use terraform_provider_uapi.Platform.{Platform, ok}
use terraform_provider_uapi.Client.Error.{api, ApiError}
use terraform_provider_uapi.Client.World.{Method, put, Request, Response, answered, Env, World}
use terraform_provider_uapi.Client.Request.{
  Client, build_request, is_throttled, is_success, final_reply, final_warnings, decode_error,
  encode, fresh_key,
}
use terraform_provider_uapi.Client.Request.Answers.{do_request-answered}
use terraform_provider_uapi.Client.Objects.{Written, write_object}
use terraform_provider_uapi.Provider.WriteError.{write_err}
use terraform_provider_uapi.Provider.Crud.{
  Resource, kept, save_written, write_update, update_planned, item_path,
}

abbrev pub summary : Diagnostic → String
summary (error s t) = s
summary (warning s t) = s
summary (attribute_error a s t) = s

module _ {M : Type 0} (set_state : M → List Diagnostic) (p : Platform) (res : Resource M)
    (c : Client) where
  -- the PUT of an update
  abbrev pub put_request : M → M → String → Request
  put_request plan state payload =
      build_request p c put (item_path set_state p res plan) (some payload)
        (value_string (res.etag state)) ""

  write_object-refused :
      (method : Method) (path : String) (body : Option Object) (if_match : String)
      (payload : Option String) (r : Response) (env : Env) (w : World)
      → encode p body ≡ ok payload
      → p.request_error
          (build_request p c method path payload if_match (fresh_key p method env w).0).target
        ≡ none
      → (env.respond (
          build_request p c method path payload if_match (fresh_key p method env w).0
          ∷ w.sent)).outcome
        ≡ answered r
      → is_throttled r.status ≡ false
      → is_success r.status ≡ false
      → write_object p c true method path body if_match env w ≡ (
        Written.failure (api (decode_error p r.status r.body)),
        record w {
          sent =
              build_request p c method path payload if_match (fresh_key p method env w).0 ∷ w.sent;
          diags = w.diags ++ final_warnings p true r;
        },
      )
  unfolding write_object final_reply
  write_object-refused method path body if_match payload r env w enc target answer calm refused =
      rw (
        write_object,
        do_request-answered p c true method path body if_match payload r env w enc target answer
            calm,
        final_reply,
        refused,
      )

  -- An update that meets no error before its PUT, and whose PUT is answered at once by an error
  -- other than 423 and 429, sends that one request, with the ETag of the state, leaves the state
  -- as it was and shows the error.
  pub update_planned-refused :
      (plan state : M) (payload : String) (r : Response) (env : Env) (w : World)
      → res.patches plan state ≡ false
      → has_error (w.diags ++ (res.body p plan false).1) ≡ false
      → p.marshal (res.body p plan false).0 ≡ ok payload
      → p.request_error (put_request plan state payload).target ≡ none
      → (env.respond (put_request plan state payload ∷ w.sent)).outcome ≡ answered r
      → is_throttled r.status ≡ false
      → is_success r.status ≡ false
      → update_planned set_state p res c plan state env w ≡ (
        kept,
        record w {
          sent = put_request plan state payload ∷ w.sent;
          diags =
              ((w.diags ++ (res.body p plan false).1) ++ final_warnings p true r)
              ++ write_err "updating" res.label (api (decode_error p r.status r.body)) ∷ [];
        },
      )
  unfolding update_planned write_update save_written
  update_planned-refused plan state payload r env w np quiet enc target answer calm refused =
      let w' : World = record w { diags = w.diags ++ (res.body p plan false).1 } in
      let sent =
        write_object-refused put (item_path set_state p res plan) (some (res.body p plan false).0)
          (value_string (res.etag state)) (some payload) r env w' (rw (enc, encode)) target answer
          calm refused in
      rw (quiet, np, update_planned, write_update, sent, save_written)

  write_err-stale :
      (status : String) (e : ApiError)
      → e.status ≡ 412
      → summary (write_err status res.label (api e)) ≡ res.label <> " changed outside Terraform"
  unfolding write_err
  write_err-stale action e s = ground arith

  -- An update that meets no error before its PUT, and whose PUT is answered at once by a 412,
  -- leaves the state as it was, sends that one request and shows one error more, which says that
  -- the object changed outside Terraform. The body of the answer names no other status than 412,
  -- the planned body encodes, and net/http accepts the target.
  pub update_planned-stale :
      (plan state : M) (payload : String) (r : Response) (env : Env) (w : World)
      → res.patches plan state ≡ false
      → has_error (w.diags ++ (res.body p plan false).1) ≡ false
      → p.marshal (res.body p plan false).0 ≡ ok payload
      → p.request_error (put_request plan state payload).target ≡ none
      → (env.respond (put_request plan state payload ∷ w.sent)).outcome ≡ answered r
      → r.status ≡ 412
      → (decode_error p r.status r.body).status ≡ 412
      → (d : Diagnostic) × (summary d ≡ res.label <> " changed outside Terraform")
        × (update_planned set_state p res c plan state env w ≡ (
          kept,
          record w {
            sent = put_request plan state payload ∷ w.sent;
            diags = ((w.diags ++ (res.body p plan false).1) ++ final_warnings p true r) ++ d ∷ [];
          },
        ))
  unfolding is_throttled is_success
  update_planned-stale plan state payload r env w np quiet enc target answer stale named = (
    write_err "updating" res.label (api (decode_error p r.status r.body)),
    write_err-stale "updating" _ named,
    update_planned-refused plan state payload r env w np quiet enc target answer (rw stale)
        (rw stale),
  )
