-- ===== src/Resources/AuthorizedKey.antt =====
-- internal/provider/authorized_key_resource.go: an SSH key of a login on the router.
use terraform_provider_uapi.Base.{String, false, none, some, List, [], ◌∷◌, if◌then◌else◌, Option}
use terraform_provider_uapi.Base.Text.{◌<>◌}
use terraform_provider_uapi.Any.{str, Object, end, entry}
use terraform_provider_uapi.Framework.{Attr, Diagnostic, value_string}
use terraform_provider_uapi.Platform.{Platform}
use terraform_provider_uapi.Client.Error.{Error, error_text}
use terraform_provider_uapi.Client.World.{
  post, Action, pure, ◌>>=◌, ◌>>◌, append, add_error, has_errors,
}
use terraform_provider_uapi.Client.Request.{Client}
use terraform_provider_uapi.Client.Objects.{
  Fetched, missing, found, Written, written, get_object, write_object, delete_object,
}
use terraform_provider_uapi.Provider.Values.{str_val}
use terraform_provider_uapi.Provider.WriteError.{write_err}
use terraform_provider_uapi.Provider.Crud.{StateChange, kept, removed, Decoded, save}

pub record Model : Type 0 where
  pub id : Attr String
  pub key : Attr String
  pub type : Attr String
  pub comment : Attr String

abbrev pub collection : String
collection = "system/authorized_keys"

module _ (set_state : Model → List Diagnostic) (p : Platform) where
  -- The key itself is not read: the router never returns it.
  unfoldable pub fill : Object → Model → Model
  fill obj m = record m {
    id = str_val p obj "id";
    type = str_val p obj "type";
    comment = str_val p obj "comment";
  }

  -- Create behind its POST
  unfoldable pub save_created : Model → Written → Action (StateChange Model)
  save_created plan (Written.failure err) = do
    append (write_err "creating" "authorized key" err ∷ [])
    pure kept
  save_created plan (written obj etag) = save set_state (fill obj plan)

  unfoldable pub create : Client → Decoded Model → Action (StateChange Model)
  create c plan = do
    append plan.1
    failed ← has_errors
    if failed then pure kept else (do
      r ←
          write_object p c false post ("/" <> collection)
            (some (entry "key" (str (value_string plan.0.key)) end)) ""
      save_created plan.0 r)

  -- Read behind its GET
  unfoldable pub save_fetched : Model → Fetched → Action (StateChange Model)
  save_fetched m (Fetched.failure err) = do
    add_error "Error reading authorized key" (error_text err)
    pure kept
  save_fetched m missing = pure removed
  save_fetched m (found obj etag) = save set_state (fill obj m)

  unfoldable pub refresh : Client → Decoded Model → Action (StateChange Model)
  refresh c state = do
    append state.1
    failed ← has_errors
    if failed then pure kept else (do
      r ← get_object p c false ("/" <> collection <> "/" <> value_string state.0.id)
      save_fetched state.0 r)

  -- Update sends nothing: a change of the key replaces the resource.
  unfoldable pub update : Decoded Model → Action (StateChange Model)
  update plan = do
    append plan.1
    failed ← has_errors
    if failed then pure kept else save set_state plan.0

  unfoldable pub deleted : Option Error → Action (StateChange Model)
  deleted none = pure removed
  deleted (some err) = do append (write_err "deleting" "authorized key" err ∷ []); pure kept

  unfoldable pub destroy : Client → Decoded Model → Action (StateChange Model)
  destroy c state = do
    append state.1
    failed ← has_errors
    if failed then pure kept else (do
      r ← delete_object p c false ("/" <> collection <> "/" <> value_string state.0.id) ""
      deleted r)

  -- ImportState: the id that the state gets, without a look at the router
  unfoldable pub import_state : String → Action (Option String)
  import_state id = pure (some id)
