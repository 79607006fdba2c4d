-- ===== src/Resources/Package.antt =====
-- internal/provider/package_resource.go: an installed package, which a destroy leaves alone where
-- it was there before.
pub mod Lifecycle
use terraform_provider_uapi.Base.{
  String, Bool, true, false, none, some, List, [], ◌∷◌, if◌then◌else◌, Option,
}
use terraform_provider_uapi.Base.Text.{◌<>◌}
use terraform_provider_uapi.Any.{Any, str, Object, end, entry}
use terraform_provider_uapi.Framework.{Attr, known, Diagnostic, value_string, value_bool}
use terraform_provider_uapi.Platform.{Platform}
use terraform_provider_uapi.Client.Error.{Error, error_text}
use terraform_provider_uapi.Client.World.{
  post, Action, pure, ◌>>=◌, ◌>>◌, append, add_error, has_errors,
}
use terraform_provider_uapi.Client.Request.{Client}
use terraform_provider_uapi.Client.Objects.{
  Fetched, missing, found, Written, written, get_object, write_object, delete_object,
}
use terraform_provider_uapi.Provider.Values.{str_val, bool_val}
use terraform_provider_uapi.Provider.Crud.{StateChange, kept, removed, Decoded, save}

pub record Model : Type 0 where
  pub id : Attr String
  pub managed : Attr Bool
  pub name : Attr String
  pub version : Attr String
  pub installed : Attr Bool
  pub pre_existed : Attr Bool

abbrev pub collection : String
collection = "/packages/installed"

module _ (set_state : Model → List Diagnostic) (p : Platform) where
  unfoldable pub fill : Object → Model → Model
  fill obj m = record m {
    id = str_val p obj "id";
    managed = bool_val obj "managed";
    name = str_val p obj "name";
    version = str_val p obj "version";
    installed = bool_val obj "installed";
  }

  -- Create behind its POST
  unfoldable pub save_installed : Model → Bool → Written → Action (StateChange Model)
  save_installed plan found_before (Written.failure err) = do
    add_error "Error installing package" (error_text err)
    pure kept
  save_installed plan found_before (written obj etag) =
      save set_state (record (fill obj plan) { pre_existed = known found_before })

  -- Create behind the look at what is there
  unfoldable pub install : Client → Model → Fetched → Action (StateChange Model)
  install c plan (Fetched.failure err) = do
    add_error "Error checking package" (error_text err)
    pure kept
  install c plan missing = do
    r ←
        write_object p c false post collection
          (some (entry "name" (str (value_string plan.name)) end)) ""
    save_installed plan false r
  install c plan (found obj etag) = do
    r ←
        write_object p c false post collection
          (some (entry "name" (str (value_string plan.name)) end)) ""
    save_installed plan true r

  unfoldable pub create : Client → Decoded Model → Action (StateChange Model)
  create c plan = do
    append plan.1
    failed ← has_errors
    if failed then pure kept else (do
      r ← get_object p c false (collection <> "/" <> value_string plan.0.name)
      install c plan.0 r)

  -- Read and Update behind their GET
  unfoldable pub save_fetched : Model → Fetched → Action (StateChange Model)
  save_fetched m (Fetched.failure err) = do
    add_error "Error reading package" (error_text err)
    pure kept
  save_fetched m missing = pure removed
  save_fetched m (found obj etag) = save set_state (fill obj m)

  unfoldable pub refresh : Client → Decoded Model → Action (StateChange Model)
  refresh c state = do
    append state.1
    failed ← has_errors
    if failed then pure kept else (do
      r ← get_object p c false (collection <> "/" <> value_string state.0.id)
      save_fetched state.0 r)

  -- Update only reads again.
  unfoldable pub update : Client → Decoded Model → Action (StateChange Model)
  update c plan = do
    append plan.1
    failed ← has_errors
    if failed then pure kept else (do
      r ← get_object p c false (collection <> "/" <> value_string plan.0.id)
      save_fetched plan.0 r)

  unfoldable pub uninstalled : Option Error → Action (StateChange Model)
  uninstalled none = pure removed
  uninstalled (some err) = do add_error "Error removing package" (error_text err); pure kept

  unfoldable pub destroy : Client → Decoded Model → Action (StateChange Model)
  destroy c state = do
    append state.1
    failed ← has_errors
    if failed then pure kept else if value_bool state.0.pre_existed then pure removed else (do
      r ← delete_object p c false (collection <> "/" <> value_string state.0.id) ""
      uninstalled r)

  -- ImportState: the id that the state gets, without a look at the router
  unfoldable pub import_state : String → Action (Option String)
  import_state id = pure (some id)
