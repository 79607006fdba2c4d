-- ===== src/DataSources/AuthorizedKey.antt =====
-- internal/provider/authorized_key_data_source.go: the data source of an authorized key.
use terraform_provider_uapi.Base.{String, List, []}
use terraform_provider_uapi.Base.Text.{◌<>◌}
use terraform_provider_uapi.Framework.{Attr, Diagnostic, value_string}
use terraform_provider_uapi.Platform.{Platform}
use terraform_provider_uapi.Client.World.{Action}
use terraform_provider_uapi.Client.Request.{Client}
use terraform_provider_uapi.Provider.Values.{str_val}
use terraform_provider_uapi.Provider.Crud.{StateChange, Decoded}
use terraform_provider_uapi.Provider.DataSource
use terraform_provider_uapi.Provider.DataSource.{Source}
use terraform_provider_uapi.Resources.AuthorizedKey

pub record Model : Type 0 where
  pub id : Attr String
  pub type : Attr String
  pub comment : Attr String

abbrev pub source : Source Model Model
source = record {
  path = λ m. "/" <> AuthorizedKey.collection <> "/" <> value_string m.id;
  failure = "Error reading authorized key";
  missing_summary = "Authorized key not found";
  missing_detail = λ m. "No authorized key with id " <> value_string m.id;
  fill = λ p o etag m. (
    record { id = str_val p o "id"; type = str_val p o "type"; comment = str_val p o "comment" },
    [],
  );
}

-- Read
unfoldable pub look_up :
    (Model → List Diagnostic) → Platform → Client → Decoded Model → Action (StateChange Model)
look_up set_state p c config = DataSource.look_up set_state p source c config
