-- ===== src/Tests/DataSources.antt =====
-- The data sources at work.
use terraform_provider_uapi.Base.{
  false, none, ◌≡◌, String, List, [], ◌∷◌, contains, if◌then◌else◌, arith, eq_iff,
}
use terraform_provider_uapi.Framework.{known, unknown, null, Diagnostic, error, has_error}
use terraform_provider_uapi.Client.World.{answered, start, Env}
use terraform_provider_uapi.Provider.Crud
use terraform_provider_uapi.Provider.Crud.{kept}
use terraform_provider_uapi.Provider.Reported.{IsReported, is_unlisted, fails_behind}
use terraform_provider_uapi.Client.Objects.{get_list}
use terraform_provider_uapi.Provider.Singleton
use terraform_provider_uapi.Provider.DataSource.{look_up, fetch, list_all}
use terraform_provider_uapi.Provider.DataSource.Outcomes.{unfound_for, reads-IsReported}
use terraform_provider_uapi.Resources.SqmQueue
use terraform_provider_uapi.Resources.VnstatConfig
use terraform_provider_uapi.Resources.Package
use terraform_provider_uapi.DataSources.CronJob
use terraform_provider_uapi.DataSources.DhcpLeases
use terraform_provider_uapi.DataSources.Package as PackageSource
use terraform_provider_uapi.DataSources.Package.Refused.{RefusesUndeclared, look_up-refused}
use terraform_provider_uapi.Tests.Demo.{demo, client, response, always}

abbrev gone : Env
gone = always (answered (response 404 "missing" ""))

abbrev accepted {ℓ} : {A : Type ℓ} → A → List Diagnostic
accepted a = []

abbrev queue : SqmQueue.Model
queue = record {
  id = known "q";
  managed = unknown;
  etag = unknown;
  download = unknown;
  enabled = unknown;
  interface = unknown;
  linklayer = unknown;
  overhead = unknown;
  qdisc = unknown;
  script = unknown;
  upload = unknown;
}

abbrev vnstat : VnstatConfig.Model
vnstat = record { id = unknown; managed = unknown; etag = unknown; interfaces = unknown }

abbrev job : CronJob.Model
job = record { id = known "j"; schedule = null; command = null; runtime = none }

reads-IsReported_example :
    IsReported
      (fails_behind [] (unfound_for accepted demo CronJob.source client job gone) start)
      false
      (look_up accepted demo CronJob.source client (job, []) gone start)
    × IsReported
        (unfound_for accepted demo CronJob.source client job gone start)
        false
        (fetch accepted demo CronJob.source client job gone start)
    × IsReported (is_unlisted (get_list demo client false "/dhcp/leases" gone start).0) false (
        list_all accepted demo client "/dhcp/leases" "Error reading dhcp leases"
          (DhcpLeases.model_of accepted demo)
          gone
          start)
reads-IsReported_example =
    reads-IsReported accepted accepted demo CronJob.source client (job, []) "/dhcp/leases"
      "Error reading dhcp leases" (DhcpLeases.model_of accepted demo) gone start

-- A framework that reports each undeclared field.
abbrev undeclared : List String → List String → List Diagnostic
undeclared attributes [] = []
undeclared attributes (f ∷ fs) =
    let rest = undeclared attributes fs in
    if contains attributes f then rest else error "Value Conversion Error" f ∷ rest

undeclared-RefusesUndeclared : RefusesUndeclared undeclared
unfolding has_error
undeclared-RefusesUndeclared attributes [] f h missing = cc
undeclared-RefusesUndeclared attributes (g ∷ gs) f h missing =
    ground (arith, eq_iff g f, undeclared-RefusesUndeclared attributes gs f)

abbrev curl : Package.Model
curl = record {
  id = known "curl";
  managed = null;
  name = null;
  version = null;
  installed = null;
  pre_existed = null;
}

look_up-refused_example :
    PackageSource.look_up accepted demo client
      (curl, error "Value Conversion Error" "pre_existed" ∷ [])
      gone
      start
    ≡ (kept, record start { diags = error "Value Conversion Error" "pre_existed" ∷ [] })
look_up-refused_example =
    look_up-refused undeclared accepted demo client curl gone start undeclared-RefusesUndeclared
