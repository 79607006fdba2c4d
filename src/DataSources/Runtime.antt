-- ===== src/DataSources/Runtime.antt =====
-- internal/provider/runtime_data_sources.go: the live state that some objects carry under
-- "runtime". A field that is missing there, or a runtime that is no object, reads as null.
use terraform_provider_uapi.Base.{ℤ, String, Bool, Option, none, some, List, [], ◌∷◌, map}
use terraform_provider_uapi.Any.{Any, str, arr, obj, Anys, nil, cons, Object, lookup}
use terraform_provider_uapi.Framework.{Attr, null, known, ListAttr}
use terraform_provider_uapi.Platform.{Platform}
use terraform_provider_uapi.Provider.Values.{str_val, bool_val, int64_val, object_at}

pub record IfaceAddr : Type 0 where
  pub address : Attr String
  pub mask : Attr ℤ

pub record IfaceRoute : Type 0 where
  pub target : Attr String
  pub mask : Attr ℤ
  pub nexthop : Attr String
  pub source : Attr String

-- A slice is none where it is nil.
pub record NetworkInterfaceRuntime : Type 0 where
  pub up : Attr Bool
  pub pending : Attr Bool
  pub available : Attr Bool
  pub effective_proto : Attr String
  pub l3_device : Attr String
  pub uptime : Attr ℤ
  pub ipv4_address : Option (List IfaceAddr)
  pub ipv6_address : Option (List IfaceAddr)
  pub ipv6_prefix : Option (List IfaceAddr)
  pub route : Option (List IfaceRoute)

pub record WirelessInterfaceRuntime : Type 0 where
  pub ifname : Attr String
  pub bssid : Attr String
  pub channel : Attr ℤ
  pub frequency : Attr ℤ
  pub signal : Attr ℤ
  pub noise : Attr ℤ
  pub txpower_actual : Attr ℤ
  pub assoclist_count : Attr ℤ

pub record WireguardPeerRuntime : Type 0 where
  pub in_kernel : Attr Bool
  pub endpoint : Attr String
  pub allowed_ips : ListAttr
  pub persistent_keepalive : Attr ℤ
  pub latest_handshake : Attr ℤ
  pub rx_bytes : Attr ℤ
  pub tx_bytes : Attr ℤ

-- `s, _ := e.(string)`: a value that is no text is ""
abbrev text_or_empty : Any → String
text_or_empty (str s) = s
text_or_empty v = ""

abbrev kernel_texts : Anys → List (Attr String)
kernel_texts nil = []
kernel_texts (cons v vs) = known (text_or_empty v) ∷ kernel_texts vs

abbrev kernel_list : Option Any → ListAttr
kernel_list (some (arr vs)) = known (kernel_texts vs)
kernel_list _ = null

-- kernelStringList of m[key]
unfoldable pub kernel_string_list : Object → String → ListAttr
kernel_string_list m key = kernel_list (lookup key m)

-- the objects of a list: `m, ok := e.(map[string]any); if !ok { continue }`
abbrev pub objects : Anys → List Object
objects nil = []
objects (cons (obj m) vs) = m ∷ objects vs
objects (cons v vs) = objects vs

-- `append` to a nil slice: it stays nil where nothing is appended
abbrev pub appended {ℓ} : {A : Type ℓ} → List A → Option (List A)
appended [] = none
appended (x ∷ xs) = some (x ∷ xs)

abbrev pub objects_of : Option Any → List Object
objects_of (some (arr vs)) = objects vs
objects_of _ = []

module _ (p : Platform) where
  abbrev addr_of : Object → IfaceAddr
  addr_of m = record { address = str_val p m "address"; mask = int64_val p m "mask" }

  abbrev addrs : Option Any → Option (List IfaceAddr)
  addrs (some (arr vs)) = some (map addr_of (objects vs))
  addrs _ = none

  -- addrList of m[key]
  unfoldable pub addr_list : Object → String → Option (List IfaceAddr)
  addr_list m key = addrs (lookup key m)

  abbrev route_of : Object → IfaceRoute
  route_of m = record {
    target = str_val p m "target";
    mask = int64_val p m "mask";
    nexthop = str_val p m "nexthop";
    source = str_val p m "source";
  }

  network_interface_runtime : Object → NetworkInterfaceRuntime
  network_interface_runtime rt = record {
    up = bool_val rt "up";
    pending = bool_val rt "pending";
    available = bool_val rt "available";
    effective_proto = str_val p rt "effective_proto";
    l3_device = str_val p rt "l3_device";
    uptime = int64_val p rt "uptime";
    ipv4_address = addr_list rt "ipv4_address";
    ipv6_address = addr_list rt "ipv6_address";
    ipv6_prefix = addr_list rt "ipv6_prefix";
    route = appended (map route_of (objects_of (lookup "route" rt)));
  }

  -- parseNetworkInterfaceRuntime
  unfoldable pub parse_network_interface_runtime : Object → NetworkInterfaceRuntime
  unfolding network_interface_runtime addr_list
  parse_network_interface_runtime m = network_interface_runtime (object_at m "runtime")

  wireless_interface_runtime : Object → WirelessInterfaceRuntime
  wireless_interface_runtime rt = record {
    ifname = str_val p rt "ifname";
    bssid = str_val p rt "bssid";
    channel = int64_val p rt "channel";
    frequency = int64_val p rt "frequency";
    signal = int64_val p rt "signal";
    noise = int64_val p rt "noise";
    txpower_actual = int64_val p rt "txpower_actual";
    assoclist_count = int64_val p rt "assoclist_count";
  }

  -- parseWirelessInterfaceRuntime
  unfoldable pub parse_wireless_interface_runtime : Object → WirelessInterfaceRuntime
  unfolding wireless_interface_runtime
  parse_wireless_interface_runtime m = wireless_interface_runtime (object_at m "runtime")

  wireguard_peer_runtime : Object → WireguardPeerRuntime
  wireguard_peer_runtime rt = record {
    in_kernel = bool_val rt "in_kernel";
    endpoint = str_val p rt "endpoint";
    allowed_ips = kernel_string_list rt "allowed_ips";
    persistent_keepalive = int64_val p rt "persistent_keepalive";
    latest_handshake = int64_val p rt "latest_handshake";
    rx_bytes = int64_val p rt "rx_bytes";
    tx_bytes = int64_val p rt "tx_bytes";
  }

  -- parseWireguardPeerRuntime
  unfoldable pub parse_wireguard_peer_runtime : Object → WireguardPeerRuntime
  unfolding wireguard_peer_runtime kernel_string_list
  parse_wireguard_peer_runtime m = wireguard_peer_runtime (object_at m "runtime")
