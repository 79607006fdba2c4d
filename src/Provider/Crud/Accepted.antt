-- ===== src/Provider/Crud/Accepted.antt =====
-- A create that the router accepts.
use terraform_provider_uapi.Base.{String, true, false, ◌≡◌, none, some, Option, List, ◌∷◌, ◌++◌}
use terraform_provider_uapi.Base.Text.{◌<>◌, is_empty}
use terraform_provider_uapi.Any.{Object}
use terraform_provider_uapi.Framework.{known, Diagnostic, has_error}
use terraform_provider_uapi.Platform.{Platform, ok}
use terraform_provider_uapi.Client.World.{Method, post, Request, Response, answered, Env, World}
use terraform_provider_uapi.Client.Request.{
  Client, build_request, is_throttled, is_success, final_reply, final_warnings, encode, fresh_key,
}
use terraform_provider_uapi.Client.Request.Answers.{do_request-answered}
use terraform_provider_uapi.Client.Objects.{written, write_object}
use terraform_provider_uapi.Provider.Crud.{
  Resource, Decoded, stored, save, save_written, create_planned, create,
}

module _ (p : Platform) (c : Client) where
  write_object-accepted :
      (method : Method) (path : String) (body : Option Object) (payload : Option String)
      (r : Response) (obj : Object) (env : Env) (w : World)
      → encode p body ≡ ok payload
      → p.request_error
          (build_request p c method path payload "" (fresh_key p method env w).0).target
        ≡ none
      → (env.respond
          (build_request p c method path payload "" (fresh_key p method env w).0 ∷ w.sent)).outcome
        ≡ answered r
      → is_throttled r.status ≡ false
      → is_success r.status ≡ true
      → is_empty r.body ≡ false
      → p.unmarshal_object r.body ≡ ok obj
      → write_object p c true method path body "" env w ≡ (
        written obj r.etag,
        record w {
          sent = build_request p c method path payload "" (fresh_key p method env w).0 ∷ w.sent;
          diags = w.diags ++ final_warnings p true r;
        },
      )
  unfolding write_object final_reply
  write_object-accepted method path body payload r obj env w enc target answer calm success full
        decoded =
      rw (
        write_object,
        do_request-answered p c true method path body "" payload r env w enc target answer calm,
        final_reply,
        success,
        full,
        decoded,
      )

module _ {M : Type 0} (set_state : M → List Diagnostic) (p : Platform) (res : Resource M)
    (c : Client) where
  -- the POST of a create, under the key that the random source gives
  abbrev pub post_request : String → Env → World → Request
  post_request payload env w =
      build_request p c post ("/" <> res.collection) (some payload) "" (fresh_key p post env w).0

  -- the model that a create stores
  abbrev pub created : M → Object → String → M
  created plan obj etag = res.with_etag (res.fill p obj plan).0 (known etag)

  -- A create that meets no error before its POST, and whose POST is answered at once by a 2xx with
  -- an object, sends that one request and stores the model that is filled from the answer, with
  -- the answer's ETag. The body encodes, net/http accepts the target, and the framework accepts
  -- the state.
  pub create-stored :
      (plan : Decoded M) (payload : String) (r : Response) (obj : Object) (env : Env) (w : World)
      → has_error (w.diags ++ plan.1) ≡ false
      → has_error ((w.diags ++ plan.1) ++ (res.body p plan.0 true).1) ≡ false
      → p.marshal (res.body p plan.0 true).0 ≡ ok payload
      → p.request_error (post_request payload env w).target ≡ none
      → (env.respond (post_request payload env w ∷ w.sent)).outcome ≡ answered r
      → is_throttled r.status ≡ false
      → is_success r.status ≡ true
      → is_empty r.body ≡ false
      → p.unmarshal_object r.body ≡ ok obj
      → has_error (set_state (created plan.0 obj r.etag)) ≡ false
      → ((create set_state p res c plan env w).0 ≡ stored (created plan.0 obj r.etag))
        × ((create set_state p res c plan env w).1.sent ≡ post_request payload env w ∷ w.sent)
  unfolding create create_planned save_written save
  create-stored plan payload r obj env w quiet clean enc target answer calm success full decoded
        accepted =
      let w' : World = record w { diags = (w.diags ++ plan.1) ++ (res.body p plan.0 true).1 } in
      let sent =
        write_object-accepted p c post ("/" <> res.collection) (some (res.body p plan.0 true).0)
          (some payload) r obj env w' (rw (enc, encode)) target answer calm success full decoded in
      (
        rw (quiet, clean, create, create_planned, sent, save_written, save, accepted),
        rw (quiet, clean, create, create_planned, sent, save_written, save),
      )
