-- ===== src/DataSources/Whoami.antt =====
-- internal/provider/whoami_data_source.go: the identity of the bearer token.
use terraform_provider_uapi.Base.{ℤ, String, List, ◌++◌}
use terraform_provider_uapi.Any.{Object}
use terraform_provider_uapi.Framework.{Attr, ListAttr, Diagnostic}
use terraform_provider_uapi.Platform.{Platform}
use terraform_provider_uapi.Client.World.{Action}
use terraform_provider_uapi.Client.Request.{Client}
use terraform_provider_uapi.Provider.Values.{str_val, int64_val, list_val}
use terraform_provider_uapi.Provider.Crud.{StateChange}
use terraform_provider_uapi.Provider.DataSource
use terraform_provider_uapi.Provider.DataSource.{Source}

pub record Model : Type 0 where
  pub token_id : Attr String
  pub scopes : ListAttr
  pub source_ip : Attr String
  pub expires_at : Attr ℤ
  pub allowed_cidrs : ListAttr
  pub last_used_at : Attr ℤ
  pub last_used_ip : Attr String

module _ (p : Platform) where
  abbrev model_of : Object → Model
  model_of m = record {
    token_id = str_val p m "token_id";
    scopes = (list_val p m "scopes").0;
    source_ip = str_val p m "source_ip";
    expires_at = int64_val p m "expires_at";
    allowed_cidrs = (list_val p m "allowed_cidrs").0;
    last_used_at = int64_val p m "last_used_at";
    last_used_ip = str_val p m "last_used_ip";
  }

abbrev pub source : Source (Unit {0}) Model
source = record {
  path = λ _. "/auth/whoami";
  failure = "Error reading whoami";
  missing_summary = "Error reading whoami";
  missing_detail = λ _. "endpoint returned not found";
  fill =
      λ p m etag _. (model_of p m, (list_val p m "scopes").1 ++ (list_val p m "allowed_cidrs").1);
}

-- Read
unfoldable pub look_up : (Model → List Diagnostic) → Platform → Client → Action (StateChange Model)
look_up set_state p c = DataSource.fetch set_state p source c tt
