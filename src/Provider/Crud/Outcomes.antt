-- ===== src/Provider/Crud/Outcomes.antt =====
-- What the handlers of a generated resource do to its state, against what they report.
use terraform_provider_uapi.Base.{
  String, Bool, true, false, ◌≡◌, ◌||◌, ◌&&◌, some, is_some, Option, List,
}
use terraform_provider_uapi.Base.Text.{◌<>◌}
use terraform_provider_uapi.Framework.{Diagnostic, has_error, value_string}
use terraform_provider_uapi.Platform.{Platform}
use terraform_provider_uapi.Client.Error.{Error}
use terraform_provider_uapi.Client.World.{Env, World, post}
use terraform_provider_uapi.Client.Request.{Client}
use terraform_provider_uapi.Client.Objects.{Fetched, get_object, write_object, delete_object}
use terraform_provider_uapi.Provider.Reported.{is_refused, is_unread, is_missing}
use terraform_provider_uapi.Provider.Crud.{Resource, item_path, write_update}

-- An import gives an id or shows an error, and gives none where its GET gives no object.
abbrev pub IsImported : Fetched → Option String × World → Type 0
IsImported answer r =
    ((is_some r.0 || has_error r.1.diags) ≡ true)
    × (((is_unread answer || is_missing answer) && is_some r.0) ≡ false)

module _ {M : Type 0} (set_state : M → List Diagnostic) (p : Platform) (res : Resource M)
    (c : Client) where
  -- The POST of a create is refused.
  abbrev pub create_refused : M → Env → World → Bool
  create_refused plan env w =
      is_refused
        (write_object p c true post ("/" <> res.collection) (some (res.body p plan true).0) "" env
          w).0

  -- The write of an update is refused.
  abbrev pub update_refused : M → M → Env → World → Bool
  update_refused plan state env w = is_refused (write_update set_state p res c plan state env w).0

  -- The DELETE of a destroy is refused.
  abbrev pub delete_refused : M → Env → World → Bool
  delete_refused state env w =
      is_some
        (delete_object p c true (item_path set_state p res state) (value_string (res.etag state))
          env w).0

  -- The answer to the GET of a refresh.
  abbrev pub fetched_for : M → Env → World → Fetched
  fetched_for state env w = (get_object p c false (item_path set_state p res state) env w).0
