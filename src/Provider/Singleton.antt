-- ===== src/Provider/Singleton.antt =====
-- The Create, Read, Update and Delete that internal/gen writes into the resource file of a
-- singleton: one section that always exists, configured by PATCH and never deleted.
pub mod Outcomes
use terraform_provider_uapi.Base.{Option, String, true, false, some, List, [], ◌∷◌, if◌then◌else◌}
use terraform_provider_uapi.Base.Text.{◌<>◌}
use terraform_provider_uapi.Any.{Object}
use terraform_provider_uapi.Framework.{Attr, known, Diagnostic, value_string}
use terraform_provider_uapi.Platform.{Platform}
use terraform_provider_uapi.Client.Error.{error_text}
use terraform_provider_uapi.Client.World.{
  patch, Action, pure, ◌>>=◌, ◌>>◌, append, add_error, has_errors,
}
use terraform_provider_uapi.Client.Request.{Client}
use terraform_provider_uapi.Client.Objects.{
  Fetched, missing, found, Written, written, get_object, write_object,
}
use terraform_provider_uapi.Provider.Values.{Read, Body}
use terraform_provider_uapi.Provider.WriteError.{write_err}
use terraform_provider_uapi.Provider.Crud.{StateChange, kept, removed, Decoded, save}

pub record Singleton (M : Type 0) : Type 0 where
  pub path : String
  pub label : String
  pub body : Platform → M → Body
  pub fill : Platform → Object → M → Read M
  pub etag : M → Attr String
  pub with_etag : M → Attr String → M

module _ {M : Type 0} (set_state : M → List Diagnostic) (p : Platform) (res : Singleton M) where
  unfoldable pub save_written : String → M → Written → Action (StateChange M)
  save_written action m (Written.failure err) = do
    append (write_err action res.label err ∷ [])
    pure kept
  save_written action m (written obj etag) = do
    append (res.fill p obj m).1
    save set_state (res.with_etag (res.fill p obj m).0 (known etag))

  -- the write of Create and of Update, which differ in the action and in the ETag that guards it
  unfoldable pub write_planned : Client → String → M → String → Action (StateChange M)
  write_planned c action plan if_match = do
    append (res.body p plan).1
    failed ← has_errors
    if failed then pure kept else (do
      r ← write_object p c true patch res.path (some (res.body p plan).0) if_match
      save_written action plan r)

  unfoldable pub create : Client → Decoded M → Action (StateChange M)
  create c plan = do
    append plan.1
    failed ← has_errors
    if failed then pure kept else write_planned c "configuring" plan.0 ""

  unfoldable pub save_fetched : M → Fetched → Action (StateChange M)
  save_fetched m (Fetched.failure err) = do
    add_error ("Error reading " <> res.label) (error_text err)
    pure kept
  save_fetched m missing = pure removed
  save_fetched m (found obj etag) = do
    append (res.fill p obj m).1
    save set_state (res.with_etag (res.fill p obj m).0 (known etag))

  unfoldable pub refresh : Client → Decoded M → Action (StateChange M)
  refresh c state = do
    append state.1
    failed ← has_errors
    if failed then pure kept else (do r ← get_object p c false res.path; save_fetched state.0 r)

  unfoldable pub update : Client → Decoded M → Decoded M → Action (StateChange M)
  update c plan state = do
    append plan.1
    append state.1
    failed ← has_errors
    if failed
        then pure kept
        else write_planned c "updating" plan.0 (value_string (res.etag state.0))

  -- Delete does nothing, and the framework drops the state.
  unfoldable pub destroy : Client → Decoded M → Action (StateChange M)
  destroy c state = pure removed

  -- ImportState: the id that the state gets, without a look at the router
  unfoldable pub import_state : String → Action (Option String)
  import_state id = pure (some id)
