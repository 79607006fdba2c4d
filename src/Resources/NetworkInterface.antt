-- ===== src/Resources/NetworkInterface.antt =====
-- internal/provider/network_interface_resource.go: the model of uapi_network_interface, its request body and its reading.
pub mod Patch
use terraform_provider_uapi.Base.{
  ℤ, String, Bool, true, false, Option, none, some, List, [], ◌∷◌, ◌++◌, if◌then◌else◌,
}
use terraform_provider_uapi.Any.{Object}
use terraform_provider_uapi.Framework.{Attr, null, ListAttr, Diagnostic}
use terraform_provider_uapi.Platform.{Platform}
use terraform_provider_uapi.Client.World.{Action}
use terraform_provider_uapi.Client.Request.{Client}
use terraform_provider_uapi.Provider.Values.{
  Read, Body, empty_body, ◌▹◌, put_str, put_bool, put_int64, put_int_or_str, put_list, put_object,
  object_at, str_val, bool_val, bool_val_default, int64_val, list_val_keep_empty,
}
use terraform_provider_uapi.Provider.FieldScope.{
  FieldScope, patches, Config, PlanRequest, PlanResponse, validate_config, modify_plan,
}
use terraform_provider_uapi.Provider.Crud
use terraform_provider_uapi.Provider.Crud.{Resource, StateChange, Decoded}

pub record Model : Type 0 where
  pub id : Attr String
  pub managed : Attr Bool
  pub etag : Attr String
  pub addresses : ListAttr
  pub auto : Attr Bool
  pub broadcast : Attr String
  pub broadcast_flag : Attr Bool
  pub clientid : Attr String
  pub defaultroute : Attr Bool
  pub delegate : Attr Bool
  pub device : Attr String
  pub disabled : Attr Bool
  pub dns : ListAttr
  pub gateway : Attr String
  pub has_private_key : Attr Bool
  pub hostname : Attr String
  pub ip4table : Attr String
  pub ip6addrs : ListAttr
  pub ip6assign : Attr ℤ
  pub ip6class : ListAttr
  pub ip6gw : Attr String
  pub ip6hint : Attr String
  pub ip6ifaceid : Attr String
  pub ip6prefix : ListAttr
  pub ip6table : Attr String
  pub ip6weight : Attr ℤ
  pub ipaddr : Attr String
  pub ipaddrs : ListAttr
  pub listen_port : Attr ℤ
  pub metric : Attr ℤ
  pub mtu : Attr ℤ
  pub netmask : Attr String
  pub nohostroute : Attr Bool
  pub peerdns : Attr Bool
  pub private_key : Attr String
  pub proto : Attr String
  pub reqaddress : Attr String
  pub reqprefix : Attr String
  pub sourcefilter : Attr Bool

-- the zero value, in which every attribute is null
abbrev pub empty : Model
empty = record {
  id = null;
  managed = null;
  etag = null;
  addresses = null;
  auto = null;
  broadcast = null;
  broadcast_flag = null;
  clientid = null;
  defaultroute = null;
  delegate = null;
  device = null;
  disabled = null;
  dns = null;
  gateway = null;
  has_private_key = null;
  hostname = null;
  ip4table = null;
  ip6addrs = null;
  ip6assign = null;
  ip6class = null;
  ip6gw = null;
  ip6hint = null;
  ip6ifaceid = null;
  ip6prefix = null;
  ip6table = null;
  ip6weight = null;
  ipaddr = null;
  ipaddrs = null;
  listen_port = null;
  metric = null;
  mtu = null;
  netmask = null;
  nohostroute = null;
  peerdns = null;
  private_key = null;
  proto = null;
  reqaddress = null;
  reqprefix = null;
  sourcefilter = null;
}

-- body()
unfoldable pub body : Platform → Model → Bool → Body
body p m for_create =
    empty_body
    ▹ (λ b. if for_create then put_str "id" m.id b else b)
    ▹ put_list p "addresses" m.addresses
    ▹ put_bool "auto" m.auto
    ▹ put_str "broadcast" m.broadcast
    ▹ put_bool "broadcast_flag" m.broadcast_flag
    ▹ put_str "clientid" m.clientid
    ▹ put_bool "defaultroute" m.defaultroute
    ▹ put_bool "delegate" m.delegate
    ▹ put_str "device" m.device
    ▹ put_bool "disabled" m.disabled
    ▹ put_list p "dns" m.dns
    ▹ put_str "gateway" m.gateway
    ▹ put_str "hostname" m.hostname
    ▹ put_str "ip4table" m.ip4table
    ▹ put_list p "ip6addrs" m.ip6addrs
    ▹ put_int64 "ip6assign" m.ip6assign
    ▹ put_list p "ip6class" m.ip6class
    ▹ put_str "ip6gw" m.ip6gw
    ▹ put_str "ip6hint" m.ip6hint
    ▹ put_str "ip6ifaceid" m.ip6ifaceid
    ▹ put_list p "ip6prefix" m.ip6prefix
    ▹ put_str "ip6table" m.ip6table
    ▹ put_int64 "ip6weight" m.ip6weight
    ▹ put_list p "ipaddrs" m.ipaddrs
    ▹ put_int64 "listen_port" m.listen_port
    ▹ put_int64 "metric" m.metric
    ▹ put_int64 "mtu" m.mtu
    ▹ put_str "netmask" m.netmask
    ▹ put_bool "nohostroute" m.nohostroute
    ▹ put_bool "peerdns" m.peerdns
    ▹ put_str "private_key" m.private_key
    ▹ put_str "proto" m.proto
    ▹ put_str "reqaddress" m.reqaddress
    ▹ put_str "reqprefix" m.reqprefix
    ▹ put_bool "sourcefilter" m.sourcefilter

-- read()
unfoldable pub fill : Platform → Object → Model → Read Model
fill p obj m =
    let (addresses, d0) = list_val_keep_empty p obj "addresses" m.addresses in
    let (dns, d1) = list_val_keep_empty p obj "dns" m.dns in
    let (ip6addrs, d2) = list_val_keep_empty p obj "ip6addrs" m.ip6addrs in
    let (ip6class, d3) = list_val_keep_empty p obj "ip6class" m.ip6class in
    let (ip6prefix, d4) = list_val_keep_empty p obj "ip6prefix" m.ip6prefix in
    let (ipaddrs, d5) = list_val_keep_empty p obj "ipaddrs" m.ipaddrs in
    (
      record m {
        id = str_val p obj "id";
        managed = bool_val obj "managed";
        addresses = addresses;
        auto = bool_val obj "auto";
        broadcast = str_val p obj "broadcast";
        broadcast_flag = bool_val obj "broadcast_flag";
        clientid = str_val p obj "clientid";
        defaultroute = bool_val obj "defaultroute";
        delegate = bool_val obj "delegate";
        device = str_val p obj "device";
        disabled = bool_val obj "disabled";
        dns = dns;
        gateway = str_val p obj "gateway";
        has_private_key = bool_val_default obj "has_private_key";
        hostname = str_val p obj "hostname";
        ip4table = str_val p obj "ip4table";
        ip6addrs = ip6addrs;
        ip6assign = int64_val p obj "ip6assign";
        ip6class = ip6class;
        ip6gw = str_val p obj "ip6gw";
        ip6hint = str_val p obj "ip6hint";
        ip6ifaceid = str_val p obj "ip6ifaceid";
        ip6prefix = ip6prefix;
        ip6table = str_val p obj "ip6table";
        ip6weight = int64_val p obj "ip6weight";
        ipaddr = str_val p obj "ipaddr";
        ipaddrs = ipaddrs;
        listen_port = int64_val p obj "listen_port";
        metric = int64_val p obj "metric";
        mtu = int64_val p obj "mtu";
        netmask = str_val p obj "netmask";
        nohostroute = bool_val obj "nohostroute";
        peerdns = bool_val obj "peerdns";
        proto = str_val p obj "proto";
        reqaddress = str_val p obj "reqaddress";
        reqprefix = str_val p obj "reqprefix";
        sourcefilter = bool_val obj "sourcefilter";
      },
      d0 ++ d1 ++ d2 ++ d3 ++ d4 ++ d5,
    )

abbrev pub scope : FieldScope
scope = record {
  field = "proto";
  known_values =
      "static" ∷ "dhcp" ∷ "dhcpv6" ∷ "pppoe" ∷ "none" ∷ "ppp" ∷ "wwan" ∷ "wireguard" ∷ [];
  rules =
      record {
        values = "dhcp" ∷ "dhcpv6" ∷ "pppoe" ∷ "none" ∷ "ppp" ∷ "wwan" ∷ "wireguard" ∷ [];
        fields = "broadcast" ∷ "gateway" ∷ "ip6addrs" ∷ "ip6gw" ∷ "ipaddrs" ∷ "netmask" ∷ [];
      }
      ∷ record {
        values = "dhcp" ∷ "pppoe" ∷ "none" ∷ "ppp" ∷ "wwan" ∷ [];
        fields = "ip6prefix" ∷ [];
      }
      ∷ record {
        values = "static" ∷ "dhcpv6" ∷ "pppoe" ∷ "none" ∷ "ppp" ∷ "wwan" ∷ "wireguard" ∷ [];
        fields = "broadcast_flag" ∷ "hostname" ∷ [];
      }
      ∷ record {
        values = "static" ∷ "pppoe" ∷ "none" ∷ "ppp" ∷ "wwan" ∷ "wireguard" ∷ [];
        fields = "clientid" ∷ [];
      }
      ∷ record {
        values = "static" ∷ "dhcp" ∷ "pppoe" ∷ "none" ∷ "ppp" ∷ "wwan" ∷ "wireguard" ∷ [];
        fields = "reqaddress" ∷ [];
      }
      ∷ record {
        values = "static" ∷ "dhcp" ∷ "none" ∷ "wwan" ∷ "wireguard" ∷ [];
        fields = "reqprefix" ∷ "sourcefilter" ∷ [];
      }
      ∷ record { values = "static" ∷ "none" ∷ "wireguard" ∷ []; fields = "peerdns" ∷ [] }
      ∷ record {
        values = "static" ∷ "dhcp" ∷ "dhcpv6" ∷ "pppoe" ∷ "none" ∷ "ppp" ∷ "wwan" ∷ [];
        fields = "addresses" ∷ "listen_port" ∷ "nohostroute" ∷ "private_key" ∷ [];
      }
      ∷ [];
}

-- ValidateConfig
unfoldable pub validate_plan : Platform → Config → List Diagnostic → List Diagnostic
validate_plan p c ds = validate_config p scope c ds

-- ModifyPlan
unfoldable pub modify : PlanRequest → PlanResponse → PlanResponse
modify req resp = modify_plan scope req resp

abbrev pub resource : Resource Model
resource = record {
  collection = "network/interfaces";
  label = "network interface";
  body = body;
  fill = fill;
  id = λ m. m.id;
  etag = λ m. m.etag;
  with_etag = λ m e. record m { etag = e };
  patches = λ plan state. patches scope plan.proto state.proto;
  warnings = λ obj. [];
}

module _ (set_state : Model → List Diagnostic) (p : Platform) where
  -- Create
  unfoldable pub create : Client → Decoded Model → Action (StateChange Model)
  create c plan = Crud.create set_state p resource c plan

  -- Read
  unfoldable pub refresh : Client → Decoded Model → Action (StateChange Model)
  refresh c state = Crud.refresh set_state p resource c state

  -- Update
  unfoldable pub update : Client → Decoded Model → Decoded Model → Action (StateChange Model)
  update c plan state = Crud.update set_state p resource c plan state

  -- Delete
  unfoldable pub destroy : Client → Decoded Model → Action (StateChange Model)
  destroy c state = Crud.destroy set_state p resource c state

  -- ImportState
  unfoldable pub import_state : Client → String → Action (Option String)
  import_state c id = Crud.import_state set_state p resource c id
