-- ===== src/Resources/SystemPassword.antt =====
-- internal/provider/system_password_resource.go: the password of a local user.
use terraform_provider_uapi.Base.{String, false, some, List, [], ◌∷◌, if◌then◌else◌}
use terraform_provider_uapi.Any.{str, end, entry}
use terraform_provider_uapi.Framework.{Attr, Diagnostic, value_string}
use terraform_provider_uapi.Platform.{Platform}
use terraform_provider_uapi.Client.World.{post, Action, pure, ◌>>=◌, ◌>>◌, append, has_errors}
use terraform_provider_uapi.Client.Request.{Client}
use terraform_provider_uapi.Client.Objects.{Written, written, write_object}
use terraform_provider_uapi.Provider.WriteError.{write_err}
use terraform_provider_uapi.Provider.Crud.{StateChange, kept, removed, Decoded, save}

pub record Model : Type 0 where
  pub id : Attr String
  pub user : Attr String
  pub password_wo : Attr String
  pub password_wo_version : Attr String

module _ (set_state : Model → List Diagnostic) (p : Platform) where
  -- Create and Update behind their POST
  unfoldable pub save_set : Model → Written → Action (StateChange Model)
  save_set plan (Written.failure err) = do
    append (write_err "setting" "system password" err ∷ [])
    pure kept
  save_set plan (written obj etag) = save set_state (record plan { id = plan.user })

  -- Create and Update, which are the same: the password comes from the configuration
  unfoldable pub set_password : Client → Decoded Model → Decoded Model → Action (StateChange Model)
  set_password c plan config = do
    append plan.1
    append config.1
    failed ← has_errors
    if failed then pure kept else (do
      r ←
          write_object p c false post "/system/password"
            (some (
              entry "user" (str (value_string plan.0.user))
                (entry "password" (str (value_string config.0.password_wo)) end)))
            ""
      save_set plan.0 r)

  unfoldable pub refresh : Decoded Model → Action (StateChange Model)
  refresh state = do
    append state.1
    failed ← has_errors
    if failed then pure kept else save set_state state.0

  -- Delete does nothing, and the framework drops the state.
  unfoldable pub destroy : Decoded Model → Action (StateChange Model)
  destroy state = pure removed
