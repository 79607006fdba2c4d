-- ===== src/DataSources/NetworkWireguardPeer.antt =====
-- internal/provider/network_wireguard_peer_data_source.go: the data source of a network WireGuard peer, with its live state.
use terraform_provider_uapi.Base.{ℤ, String, Bool, List}
use terraform_provider_uapi.Base.Text.{◌<>◌}
use terraform_provider_uapi.Framework.{Attr, null, known, ListAttr, Diagnostic, value_string}
use terraform_provider_uapi.Platform.{Platform}
use terraform_provider_uapi.Client.World.{Action}
use terraform_provider_uapi.Client.Request.{Client}
use terraform_provider_uapi.Provider.Values.{Read}
use terraform_provider_uapi.Provider.Crud.{StateChange, Decoded}
use terraform_provider_uapi.Provider.DataSource
use terraform_provider_uapi.Provider.DataSource.{Source}
use terraform_provider_uapi.Resources.NetworkWireguardPeer
use terraform_provider_uapi.DataSources.Runtime.{WireguardPeerRuntime, parse_wireguard_peer_runtime}

pub record Model : Type 0 where
  pub id : Attr String
  pub managed : Attr Bool
  pub etag : Attr String
  pub allowed_ips : ListAttr
  pub description : Attr String
  pub disabled : Attr Bool
  pub endpoint_host : Attr String
  pub endpoint_port : Attr ℤ
  pub has_preshared_key : Attr Bool
  pub interface : Attr String
  pub persistent_keepalive : Attr ℤ
  pub preshared_key : Attr String
  pub public_key : Attr String
  pub route_allowed_ips : Attr Bool
  pub runtime : WireguardPeerRuntime

-- the zero value of the resource's model
abbrev blank : NetworkWireguardPeer.Model
blank = record {
  id = null;
  managed = null;
  etag = null;
  allowed_ips = null;
  description = null;
  disabled = null;
  endpoint_host = null;
  endpoint_port = null;
  has_preshared_key = null;
  interface = null;
  persistent_keepalive = null;
  preshared_key = null;
  public_key = null;
  route_allowed_ips = null;
}

-- the state of an object that the resource reads as `base`
abbrev from_base : WireguardPeerRuntime → NetworkWireguardPeer.Model → Model
from_base runtime base = record {
  id = base.id;
  managed = base.managed;
  etag = base.etag;
  allowed_ips = base.allowed_ips;
  description = base.description;
  disabled = base.disabled;
  endpoint_host = base.endpoint_host;
  endpoint_port = base.endpoint_port;
  has_preshared_key = base.has_preshared_key;
  interface = base.interface;
  persistent_keepalive = base.persistent_keepalive;
  preshared_key = base.preshared_key;
  public_key = base.public_key;
  route_allowed_ips = base.route_allowed_ips;
  runtime = runtime;
}

abbrev read_base : WireguardPeerRuntime → String → Read NetworkWireguardPeer.Model → Read Model
read_base runtime etag r = (from_base runtime (record r.0 { etag = known etag }), r.1)

-- the Read, from the id of the configuration
abbrev pub source : Source (Attr String) Model
source = record {
  path = λ id. "/" <> NetworkWireguardPeer.resource.collection <> "/" <> value_string id;
  failure = "Error reading network WireGuard peer";
  missing_summary = "network WireGuard peer not found";
  missing_detail = λ id. "not found";
  fill = λ p obj etag id.
      read_base (parse_wireguard_peer_runtime p obj) etag (NetworkWireguardPeer.fill p obj blank);
}

-- Read
unfoldable pub look_up :
    (Model → List Diagnostic)
    → Platform
    → Client
    → Decoded (Attr String)
    → Action (StateChange Model)
look_up set_state p c id = DataSource.look_up set_state p source c id
