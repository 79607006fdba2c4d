-- ===== src/DataSources/CronJob.antt =====
-- internal/provider/cron_job_data_source.go: the data source of a cron job, with its live state.
use terraform_provider_uapi.Base.{String, Bool, Option, some, List, []}
use terraform_provider_uapi.Base.Text.{◌<>◌}
use terraform_provider_uapi.Any.{Object}
use terraform_provider_uapi.Framework.{Attr, Diagnostic, value_string}
use terraform_provider_uapi.Platform.{Platform}
use terraform_provider_uapi.Client.World.{Action}
use terraform_provider_uapi.Client.Request.{Client}
use terraform_provider_uapi.Provider.Values.{str_val, bool_val, object_at}
use terraform_provider_uapi.Provider.Crud.{StateChange, Decoded}
use terraform_provider_uapi.Provider.DataSource
use terraform_provider_uapi.Provider.DataSource.{Source}
use terraform_provider_uapi.Resources.CronJob

pub record CronJobRuntime : Type 0 where
  pub crond_running : Attr Bool
  pub runs_as_written : Attr Bool

pub record Model : Type 0 where
  pub id : Attr String
  pub schedule : Attr String
  pub command : Attr String
  pub runtime : Option CronJobRuntime

module _ (p : Platform) where
  -- a runtime that is no object is a nil map, in which nothing is found
  abbrev runtime_of : Object → CronJobRuntime
  runtime_of rt = record {
    crond_running = bool_val rt "crond_running";
    runs_as_written = bool_val rt "runs_as_written";
  }

  abbrev model_of : Object → Model
  model_of m = record {
    id = str_val p m "id";
    schedule = str_val p m "schedule";
    command = str_val p m "command";
    runtime = some (runtime_of (object_at m "runtime"));
  }

abbrev pub source : Source Model Model
source = record {
  path = λ m. CronJob.collection <> "/" <> value_string m.id;
  failure = "Error reading cron job";
  missing_summary = "Cron job not found";
  missing_detail = λ m. "No cron job with id " <> value_string m.id;
  fill = λ p o etag m. (model_of p o, []);
}

-- Read
unfoldable pub look_up :
    (Model → List Diagnostic) → Platform → Client → Decoded Model → Action (StateChange Model)
look_up set_state p c config = DataSource.look_up set_state p source c config
