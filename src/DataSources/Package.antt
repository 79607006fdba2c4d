-- ===== src/DataSources/Package.antt =====
-- internal/provider/package_data_source.go: the data source of an installed package, into the resource's model.
pub mod Refused
use terraform_provider_uapi.Base.{String, ◌∷◌, List, []}
use terraform_provider_uapi.Base.Text.{◌<>◌}
use terraform_provider_uapi.Framework.{Diagnostic, value_string}
use terraform_provider_uapi.Platform.{Platform}
use terraform_provider_uapi.Client.World.{Action}
use terraform_provider_uapi.Client.Request.{Client}
use terraform_provider_uapi.Provider.Crud.{StateChange, Decoded}
use terraform_provider_uapi.Provider.DataSource
use terraform_provider_uapi.Provider.DataSource.{Source}
use terraform_provider_uapi.Resources.Package

-- the names of the attributes of the data source's schema, and those of the model's fields
abbrev pub schema_attributes : List String
schema_attributes = "id" ∷ "managed" ∷ "name" ∷ "version" ∷ "installed" ∷ []

abbrev pub model_fields : List String
model_fields = "id" ∷ "managed" ∷ "name" ∷ "version" ∷ "installed" ∷ "pre_existed" ∷ []

abbrev pub source : Source Package.Model Package.Model
source = record {
  path = λ m. Package.collection <> "/" <> value_string m.id;
  failure = "Error reading package";
  missing_summary = "Package not found";
  missing_detail = λ m. "No installed package named " <> value_string m.id;
  fill = λ p o etag m. (Package.fill (λ _. []) p o m, []);
}

-- Read
unfoldable pub look_up :
    (Package.Model → List Diagnostic)
    → Platform
    → Client
    → Decoded Package.Model
    → Action (StateChange Package.Model)
look_up set_state p c config = DataSource.look_up set_state p source c config
