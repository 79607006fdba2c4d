-- ===== src/Provider/Import/Adoption.antt =====
-- What an import sends: the GET, and an adoption of an unmanaged section alone.
use terraform_provider_uapi.Base.{
  String, Bool, true, false, ◌≡◌, none, some, [], ◌∷◌, ◌++◌, ◌==◌, if◌then◌else◌, arith, refl, inl,
  inr, Bool-cases,
}
use terraform_provider_uapi.Base.Text.{◌<>◌, is_empty}
use terraform_provider_uapi.Any.{Object}
use terraform_provider_uapi.Platform.{Platform}
use terraform_provider_uapi.Client.World.{post, Env, World}
use terraform_provider_uapi.Client.Request.{Client}
use terraform_provider_uapi.Client.Objects.{
  Fetched, missing, found, written, get_object, write_object,
}
use terraform_provider_uapi.Provider.Import.{
  Resolved, unresolved, resolved, is_unmanaged, object_id, adopted, resolve_fetched,
  resolve_import_id, import_resolved, import_by_id, renamed,
}

-- The answer of the GET asks for an adoption.
abbrev pub needs_adoption : Fetched → Bool
needs_adoption (found obj etag) = is_unmanaged obj
needs_adoption _ = false

module _ (p : Platform) (c : Client) (collection label : String) where
  resolve_fetched-sent :
      (id : String) (r : Fetched) (env : Env) (w : World)
      → needs_adoption r ≡ false
      → (resolve_fetched p c collection id r env w).1 ≡ w
  unfolding resolve_fetched
  resolve_fetched-sent id (Fetched.failure e) env w h = refl
  resolve_fetched-sent id missing env w h = refl
  resolve_fetched-sent id (found obj etag) env w h = elim (Bool-cases (is_empty (object_id obj))) [
    | inl e ↦ rw (h, e, resolve_fetched)
    | inr e ↦ rw (h, e, resolve_fetched)
  ]

  import_resolved-sent :
      (id : String) (r : Resolved) (env : Env) (w : World)
      → (import_resolved p label id r env w).1.sent ≡ w.sent
  unfolding import_resolved
  import_resolved-sent id (unresolved e) env w = refl
  import_resolved-sent id (resolved i a) env w = ground arith

  -- Unless the GET finds an object that says it is unmanaged, an import sends its GET and nothing
  -- else: it does not change the router.
  pub import_by_id-sent :
      (id : String) (env : Env) (w : World)
      → needs_adoption (get_object p c false ("/" <> collection <> "/" <> id) env w).0 ≡ false
      → (import_by_id p c collection label id env w).1.sent
        ≡ (get_object p c false ("/" <> collection <> "/" <> id) env w).1.sent
  unfolding import_by_id resolve_import_id
  import_by_id-sent id env w h =
      rw (import_by_id, resolve_import_id, import_resolved-sent, resolve_fetched-sent _ _ env _ h)

  -- An import of an unmanaged section whose adoption is answered with an id gives the state that
  -- id, and warns exactly if it is not the one asked for.
  pub import_by_id-adopted :
      (id etag etag' : String) (obj answer : Object) (env : Env) (w w1 w2 : World)
      → get_object p c false ("/" <> collection <> "/" <> id) env w ≡ (found obj etag, w1)
      → is_unmanaged obj ≡ true
      → write_object p c false post ("/" <> collection <> "/" <> id <> "/adopt") none "" env w1
        ≡ (written answer etag', w2)
      → is_empty (object_id answer) ≡ false
      → import_by_id p c collection label id env w ≡ (
        some (object_id answer),
        if object_id answer == id
            then w2
            else record w2 { diags = w2.diags ++ renamed p label id (object_id answer) ∷ [] },
      )
  unfolding import_by_id resolve_import_id resolve_fetched adopted import_resolved
  import_by_id-adopted id etag etag' obj answer env w w1 w2 got un wrote given =
      elim (Bool-cases (object_id answer == id)) [
        | inl e ↦ rw (
          import_by_id, resolve_import_id, got, resolve_fetched, un, wrote, adopted, given,
          import_resolved, e,
        )
        | inr e ↦ rw (
          import_by_id, resolve_import_id, got, resolve_fetched, un, wrote, adopted, given,
          import_resolved, e,
        )
      ]
