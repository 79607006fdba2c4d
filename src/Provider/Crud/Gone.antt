-- ===== src/Provider/Crud/Gone.antt =====
-- A delete of what is no longer there.
use terraform_provider_uapi.Base.{true, false, ◌≡◌, refl, none, List, ◌∷◌, ◌++◌}
use terraform_provider_uapi.Framework.{Diagnostic, has_error, value_string}
use terraform_provider_uapi.Platform.{Platform}
use terraform_provider_uapi.Client.World.{delete, Request, Response, answered, Env, World}
use terraform_provider_uapi.Client.Request.{
  Client, build_request, is_throttled, is_success, final_reply, final_warnings, decode_error,
}
use terraform_provider_uapi.Client.Request.Answers.{do_request-answered}
use terraform_provider_uapi.Client.Objects.{delete_object, deleted}
use terraform_provider_uapi.Provider.Crud.{Resource, Decoded, removed, destroy, item_path}
use terraform_provider_uapi.Provider.Crud as Crud

module _ {M : Type 0} (set_state : M → List Diagnostic) (p : Platform) (res : Resource M)
    (c : Client) where
  abbrev pub delete_request : M → Request
  delete_request m =
      build_request p c delete (item_path set_state p res m) none (value_string (res.etag m)) ""

  delete_object-gone :
      (m : M) (r : Response) (env : Env) (w : World)
      → p.request_error (delete_request m).target ≡ none
      → (env.respond (delete_request m ∷ w.sent)).outcome ≡ answered r
      → r.status ≡ 404
      → (decode_error p r.status r.body).status ≡ 404
      → delete_object p c true (item_path set_state p res m) (value_string (res.etag m)) env w ≡ (
        none,
        record w { sent = delete_request m ∷ w.sent; diags = w.diags ++ final_warnings p true r },
      )
  unfolding delete_object deleted final_reply is_throttled is_success
  delete_object-gone m r env w target answer gone named =
      rw
        (
          delete_object,
          do_request-answered p c true delete (item_path set_state p res m) none
              (value_string (res.etag m)) none r env w refl target answer (rw gone),
        )
        (rw (gone, rw gone at named))

  -- A delete that meets no error before its request, and whose request is answered at once by a
  -- 404, drops the state and shows no error more, behind that one request. The answer's body names
  -- no other status, and net/http accepts the target.
  pub destroy-gone :
      (state : Decoded M) (r : Response) (env : Env) (w : World)
      → has_error (w.diags ++ state.1) ≡ false
      → p.request_error (delete_request state.0).target ≡ none
      → (env.respond (delete_request state.0 ∷ w.sent)).outcome ≡ answered r
      → r.status ≡ 404
      → (decode_error p r.status r.body).status ≡ 404
      → destroy set_state p res c state env w ≡ (
        removed,
        record w {
          sent = delete_request state.0 ∷ w.sent;
          diags = (w.diags ++ state.1) ++ final_warnings p true r;
        },
      )
  unfolding destroy Crud.deleted
  destroy-gone state r env w quiet target answer gone named = rw (
    quiet,
    destroy,
    delete_object-gone state.0 r env (record w { diags = w.diags ++ state.1 }) target answer gone
        named,
    Crud.deleted,
  )
