-- ===== src/Resources/PackageFeed.antt =====
-- internal/provider/package_feed_resource.go: a package feed.
use terraform_provider_uapi.Base.{String, Bool, false, none, some, List, if◌then◌else◌, Option}
use terraform_provider_uapi.Base.Text.{◌<>◌}
use terraform_provider_uapi.Any.{str, Object, end, entry}
use terraform_provider_uapi.Framework.{Attr, Diagnostic, value_string}
use terraform_provider_uapi.Platform.{Platform}
use terraform_provider_uapi.Client.Error.{Error, error_text}
use terraform_provider_uapi.Client.World.{
  post, Action, pure, ◌>>=◌, ◌>>◌, append, add_error, has_errors,
}
use terraform_provider_uapi.Client.Request.{Client}
use terraform_provider_uapi.Client.Objects.{
  Fetched, missing, found, Written, written, get_object, write_object, delete_object,
}
use terraform_provider_uapi.Provider.Values.{str_val, bool_val}
use terraform_provider_uapi.Provider.Crud.{StateChange, kept, removed, Decoded, save}

pub record Model : Type 0 where
  pub id : Attr String
  pub managed : Attr Bool
  pub name : Attr String
  pub url : Attr String
  pub filename : Attr String
  pub enabled : Attr Bool
  pub update_status : Attr String

abbrev pub collection : String
collection = "packages/feeds"

module _ (set_state : Model → List Diagnostic) (p : Platform) where
  unfoldable pub fill : Object → Model → Model
  fill obj m = record {
    id = str_val p obj "id";
    managed = bool_val obj "managed";
    name = str_val p obj "name";
    url = str_val p obj "url";
    filename = str_val p obj "filename";
    enabled = bool_val obj "enabled";
    update_status = str_val p obj "update_status";
  }

  -- Create behind its POST
  unfoldable pub save_created : Model → Written → Action (StateChange Model)
  save_created plan (Written.failure err) = do
    add_error "Error creating package feed" (error_text err)
    pure kept
  save_created plan (written obj etag) = save set_state (fill obj plan)

  unfoldable pub create : Client → Decoded Model → Action (StateChange Model)
  create c plan = do
    append plan.1
    failed ← has_errors
    if failed then pure kept else (do
      r ←
          write_object p c false post ("/" <> collection)
            (some (
              entry "name" (str (value_string plan.0.name))
                (entry "url" (str (value_string plan.0.url)) end)))
            ""
      save_created plan.0 r)

  -- Read and Update behind their GET
  unfoldable pub save_fetched : Model → Fetched → Action (StateChange Model)
  save_fetched m (Fetched.failure err) = do
    add_error "Error reading package feed" (error_text err)
    pure kept
  save_fetched m missing = pure removed
  save_fetched m (found obj etag) = save set_state (fill obj m)

  unfoldable pub refresh : Client → Decoded Model → Action (StateChange Model)
  refresh c state = do
    append state.1
    failed ← has_errors
    if failed then pure kept else (do
      r ← get_object p c false ("/" <> collection <> "/" <> value_string state.0.id)
      save_fetched state.0 r)

  -- Update only reads again.
  unfoldable pub update : Client → Decoded Model → Action (StateChange Model)
  update c plan = do
    append plan.1
    failed ← has_errors
    if failed then pure kept else (do
      r ← get_object p c false ("/" <> collection <> "/" <> value_string plan.0.id)
      save_fetched plan.0 r)

  unfoldable pub deleted : Option Error → Action (StateChange Model)
  deleted none = pure removed
  deleted (some err) = do add_error "Error deleting package feed" (error_text err); pure kept

  unfoldable pub destroy : Client → Decoded Model → Action (StateChange Model)
  destroy c state = do
    append state.1
    failed ← has_errors
    if failed then pure kept else (do
      r ← delete_object p c false ("/" <> collection <> "/" <> value_string state.0.id) ""
      deleted r)

  -- ImportState: the id that the state gets, without a look at the router
  unfoldable pub import_state : String → Action (Option String)
  import_state id = pure (some id)
