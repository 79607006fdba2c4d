-- ===== src/DataSources/PackageFeed.antt =====
-- internal/provider/package_feed_data_source.go: the data source of a package feed, into the resource's model.
use terraform_provider_uapi.Base.{List, []}
use terraform_provider_uapi.Base.Text.{◌<>◌}
use terraform_provider_uapi.Framework.{Diagnostic, value_string}
use terraform_provider_uapi.Platform.{Platform}
use terraform_provider_uapi.Client.World.{Action}
use terraform_provider_uapi.Client.Request.{Client}
use terraform_provider_uapi.Provider.Crud.{StateChange, Decoded}
use terraform_provider_uapi.Provider.DataSource
use terraform_provider_uapi.Provider.DataSource.{Source}
use terraform_provider_uapi.Resources.PackageFeed

abbrev pub source : Source PackageFeed.Model PackageFeed.Model
source = record {
  path = λ m. "/" <> PackageFeed.collection <> "/" <> value_string m.id;
  failure = "Error reading package feed";
  missing_summary = "Package feed not found";
  missing_detail = λ m. "No package feed with id " <> value_string m.id;
  fill = λ p o etag m. (PackageFeed.fill (λ _. []) p o m, []);
}

-- Read
unfoldable pub look_up :
    (PackageFeed.Model → List Diagnostic)
    → Platform
    → Client
    → Decoded PackageFeed.Model
    → Action (StateChange PackageFeed.Model)
look_up set_state p c config = DataSource.look_up set_state p source c config
