-- ===== src/DataSources/DhcpLeases.antt =====
-- internal/provider/dhcp_leases_data_source.go: the active IPv4 leases.
use terraform_provider_uapi.Base.{ℤ, String, List, map}
use terraform_provider_uapi.Any.{Object}
use terraform_provider_uapi.Framework.{Attr, Diagnostic}
use terraform_provider_uapi.Platform.{Platform}
use terraform_provider_uapi.Client.World.{Action}
use terraform_provider_uapi.Client.Request.{Client}
use terraform_provider_uapi.Provider.Values.{str_val, int64_val}
use terraform_provider_uapi.Provider.Crud.{StateChange}
use terraform_provider_uapi.Provider.DataSource
use terraform_provider_uapi.Provider.DataSource.{Source}

pub record Lease : Type 0 where
  pub expires_at : Attr ℤ
  pub mac : Attr String
  pub ip : Attr String
  pub hostname : Attr String
  pub duid : Attr String

pub record Model : Type 0 where
  pub leases : List Lease

module _ (set_state : Model → List Diagnostic) (p : Platform) where
  abbrev lease_of : Object → Lease
  lease_of m = record {
    expires_at = int64_val p m "expires_at";
    mac = str_val p m "mac";
    ip = str_val p m "ip";
    hostname = str_val p m "hostname";
    duid = str_val p m "duid";
  }

  abbrev pub model_of : List Object → Model
  model_of objs = record { leases = map lease_of objs }

  -- Read
  unfoldable pub look_up : Client → Action (StateChange Model)
  look_up c = DataSource.list_all set_state p c "/dhcp/leases" "Error reading dhcp leases" model_of
