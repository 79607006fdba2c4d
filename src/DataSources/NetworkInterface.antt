-- ===== src/DataSources/NetworkInterface.antt =====
-- internal/provider/network_interface_data_source.go: the data source of a network interface, with its live state.
use terraform_provider_uapi.Base.{ℤ, String, Bool, List}
use terraform_provider_uapi.Base.Text.{◌<>◌}
use terraform_provider_uapi.Framework.{Attr, null, known, ListAttr, Diagnostic, value_string}
use terraform_provider_uapi.Platform.{Platform}
use terraform_provider_uapi.Client.World.{Action}
use terraform_provider_uapi.Client.Request.{Client}
use terraform_provider_uapi.Provider.Values.{Read}
use terraform_provider_uapi.Provider.Crud.{StateChange, Decoded}
use terraform_provider_uapi.Provider.DataSource
use terraform_provider_uapi.Provider.DataSource.{Source}
use terraform_provider_uapi.Resources.NetworkInterface
use terraform_provider_uapi.DataSources.Runtime.{
  NetworkInterfaceRuntime, parse_network_interface_runtime,
}

pub record Model : Type 0 where
  pub id : Attr String
  pub managed : Attr Bool
  pub etag : Attr String
  pub addresses : ListAttr
  pub auto : Attr Bool
  pub broadcast : Attr String
  pub broadcast_flag : Attr Bool
  pub clientid : Attr String
  pub defaultroute : Attr Bool
  pub delegate : Attr Bool
  pub device : Attr String
  pub disabled : Attr Bool
  pub dns : ListAttr
  pub gateway : Attr String
  pub has_private_key : Attr Bool
  pub hostname : Attr String
  pub ip4table : Attr String
  pub ip6addrs : ListAttr
  pub ip6assign : Attr ℤ
  pub ip6class : ListAttr
  pub ip6gw : Attr String
  pub ip6hint : Attr String
  pub ip6ifaceid : Attr String
  pub ip6prefix : ListAttr
  pub ip6table : Attr String
  pub ip6weight : Attr ℤ
  pub ipaddr : Attr String
  pub ipaddrs : ListAttr
  pub listen_port : Attr ℤ
  pub metric : Attr ℤ
  pub mtu : Attr ℤ
  pub netmask : Attr String
  pub nohostroute : Attr Bool
  pub peerdns : Attr Bool
  pub private_key : Attr String
  pub proto : Attr String
  pub reqaddress : Attr String
  pub reqprefix : Attr String
  pub sourcefilter : Attr Bool
  pub runtime : NetworkInterfaceRuntime

-- the zero value of the resource's model
abbrev blank : NetworkInterface.Model
blank = record {
  id = null;
  managed = null;
  etag = null;
  addresses = null;
  auto = null;
  broadcast = null;
  broadcast_flag = null;
  clientid = null;
  defaultroute = null;
  delegate = null;
  device = null;
  disabled = null;
  dns = null;
  gateway = null;
  has_private_key = null;
  hostname = null;
  ip4table = null;
  ip6addrs = null;
  ip6assign = null;
  ip6class = null;
  ip6gw = null;
  ip6hint = null;
  ip6ifaceid = null;
  ip6prefix = null;
  ip6table = null;
  ip6weight = null;
  ipaddr = null;
  ipaddrs = null;
  listen_port = null;
  metric = null;
  mtu = null;
  netmask = null;
  nohostroute = null;
  peerdns = null;
  private_key = null;
  proto = null;
  reqaddress = null;
  reqprefix = null;
  sourcefilter = null;
}

-- the state of an object that the resource reads as `base`
abbrev from_base : NetworkInterfaceRuntime → NetworkInterface.Model → Model
from_base runtime base = record {
  id = base.id;
  managed = base.managed;
  etag = base.etag;
  addresses = base.addresses;
  auto = base.auto;
  broadcast = base.broadcast;
  broadcast_flag = base.broadcast_flag;
  clientid = base.clientid;
  defaultroute = base.defaultroute;
  delegate = base.delegate;
  device = base.device;
  disabled = base.disabled;
  dns = base.dns;
  gateway = base.gateway;
  has_private_key = base.has_private_key;
  hostname = base.hostname;
  ip4table = base.ip4table;
  ip6addrs = base.ip6addrs;
  ip6assign = base.ip6assign;
  ip6class = base.ip6class;
  ip6gw = base.ip6gw;
  ip6hint = base.ip6hint;
  ip6ifaceid = base.ip6ifaceid;
  ip6prefix = base.ip6prefix;
  ip6table = base.ip6table;
  ip6weight = base.ip6weight;
  ipaddr = base.ipaddr;
  ipaddrs = base.ipaddrs;
  listen_port = base.listen_port;
  metric = base.metric;
  mtu = base.mtu;
  netmask = base.netmask;
  nohostroute = base.nohostroute;
  peerdns = base.peerdns;
  private_key = base.private_key;
  proto = base.proto;
  reqaddress = base.reqaddress;
  reqprefix = base.reqprefix;
  sourcefilter = base.sourcefilter;
  runtime = runtime;
}

abbrev read_base : NetworkInterfaceRuntime → String → Read NetworkInterface.Model → Read Model
read_base runtime etag r = (from_base runtime (record r.0 { etag = known etag }), r.1)

-- the Read, from the id of the configuration
abbrev pub source : Source (Attr String) Model
source = record {
  path = λ id. "/" <> NetworkInterface.resource.collection <> "/" <> value_string id;
  failure = "Error reading network interface";
  missing_summary = "network interface not found";
  missing_detail = λ id. "not found";
  fill = λ p obj etag id.
      read_base (parse_network_interface_runtime p obj) etag (NetworkInterface.fill p obj blank);
}

-- Read
unfoldable pub look_up :
    (Model → List Diagnostic)
    → Platform
    → Client
    → Decoded (Attr String)
    → Action (StateChange Model)
look_up set_state p c id = DataSource.look_up set_state p source c id
