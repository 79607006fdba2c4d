-- ===== src/DataSources/DhcpLeases6.antt =====
-- internal/provider/dhcp_leases6_data_source.go: the active DHCPv6 leases.
use terraform_provider_uapi.Base.{ℤ, String, List, map}
use terraform_provider_uapi.Any.{Object}
use terraform_provider_uapi.Framework.{Attr, Diagnostic}
use terraform_provider_uapi.Platform.{Platform}
use terraform_provider_uapi.Client.World.{Action}
use terraform_provider_uapi.Client.Request.{Client}
use terraform_provider_uapi.Provider.Values.{str_val, int64_val}
use terraform_provider_uapi.Provider.Crud.{StateChange}
use terraform_provider_uapi.Provider.DataSource
use terraform_provider_uapi.Provider.DataSource.{Source}

pub record Lease : Type 0 where
  pub duid : Attr String
  pub iaid : Attr String
  pub hostname : Attr String
  pub interface : Attr String
  pub ia_type : Attr String
  pub ip : Attr String
  pub prefix_length : Attr ℤ
  pub expires_at : Attr ℤ

pub record Model : Type 0 where
  pub leases : List Lease

module _ (set_state : Model → List Diagnostic) (p : Platform) where
  abbrev lease_of : Object → Lease
  lease_of m = record {
    duid = str_val p m "duid";
    iaid = str_val p m "iaid";
    hostname = str_val p m "hostname";
    interface = str_val p m "interface";
    ia_type = str_val p m "ia_type";
    ip = str_val p m "ip";
    prefix_length = int64_val p m "prefix_length";
    expires_at = int64_val p m "expires_at";
  }

  abbrev model_of : List Object → Model
  model_of objs = record { leases = map lease_of objs }

  -- Read
  unfoldable pub look_up : Client → Action (StateChange Model)
  look_up c =
      DataSource.list_all set_state p c "/dhcp/leases6" "Error reading dhcp leases6" model_of
