-- ===== src/DataSources/Healthz.antt =====
-- internal/provider/healthz_data_source.go: the health of the uapi service.
use terraform_provider_uapi.Base.{String, Option, none, some, List}
use terraform_provider_uapi.Any.{Any, obj, Object, lookup}
use terraform_provider_uapi.Framework.{Attr, ListAttr, Diagnostic}
use terraform_provider_uapi.Platform.{Platform}
use terraform_provider_uapi.Client.World.{Action}
use terraform_provider_uapi.Client.Request.{Client}
use terraform_provider_uapi.Provider.Values.{str_val, list_val}
use terraform_provider_uapi.Provider.Crud.{StateChange}
use terraform_provider_uapi.Provider.DataSource
use terraform_provider_uapi.Provider.DataSource.{Source}

pub record Checks : Type 0 where
  pub ubus : Attr String
  pub uci : Attr String
  pub lock_dir : Attr String
  pub time_sync : Attr String

pub record Model : Type 0 where
  pub status : Attr String
  pub version : Attr String
  pub checks : Option Checks
  pub errors : ListAttr

module _ (p : Platform) where
  abbrev checks_of : Option Any → Option Checks
  checks_of (some (obj m)) = some (record {
    ubus = str_val p m "ubus";
    uci = str_val p m "uci";
    lock_dir = str_val p m "lock_dir";
    time_sync = str_val p m "time_sync";
  })
  checks_of _ = none

  abbrev model_of : Object → Model
  model_of m = record {
    status = str_val p m "status";
    version = str_val p m "version";
    checks = checks_of (lookup "checks" m);
    errors = (list_val p m "errors").0;
  }

abbrev pub source : Source (Unit {0}) Model
source = record {
  path = λ _. "/healthz";
  failure = "Error reading healthz";
  missing_summary = "Error reading healthz";
  missing_detail = λ _. "endpoint returned not found";
  fill = λ p m etag _. (model_of p m, (list_val p m "errors").1);
}

-- Read
unfoldable pub look_up : (Model → List Diagnostic) → Platform → Client → Action (StateChange Model)
look_up set_state p c = DataSource.fetch set_state p source c tt
