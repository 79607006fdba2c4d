-- ===== src/DataSources/WireguardKernelPeers.antt =====
-- internal/provider/wireguard_kernel_peers_data_source.go: the kernel peers that no uci section claims.
use terraform_provider_uapi.Base.{ℤ, String, List, map}
use terraform_provider_uapi.Any.{Object}
use terraform_provider_uapi.Framework.{Attr, ListAttr, Diagnostic}
use terraform_provider_uapi.Platform.{Platform}
use terraform_provider_uapi.Client.World.{Action}
use terraform_provider_uapi.Client.Request.{Client}
use terraform_provider_uapi.Provider.Values.{str_val, int64_val}
use terraform_provider_uapi.Provider.Crud.{StateChange}
use terraform_provider_uapi.Provider.DataSource
use terraform_provider_uapi.Provider.DataSource.{Source}
use terraform_provider_uapi.DataSources.Runtime.{kernel_string_list}

pub record Peer : Type 0 where
  pub id : Attr String
  pub interface : Attr String
  pub public_key : Attr String
  pub endpoint : Attr String
  pub allowed_ips : ListAttr
  pub persistent_keepalive : Attr ℤ
  pub latest_handshake : Attr ℤ
  pub rx_bytes : Attr ℤ
  pub tx_bytes : Attr ℤ

pub record Model : Type 0 where
  pub peers : List Peer

module _ (set_state : Model → List Diagnostic) (p : Platform) where
  abbrev peer_of : Object → Peer
  peer_of m = record {
    id = str_val p m "id";
    interface = str_val p m "interface";
    public_key = str_val p m "public_key";
    endpoint = str_val p m "endpoint";
    allowed_ips = kernel_string_list m "allowed_ips";
    persistent_keepalive = int64_val p m "persistent_keepalive";
    latest_handshake = int64_val p m "latest_handshake";
    rx_bytes = int64_val p m "rx_bytes";
    tx_bytes = int64_val p m "tx_bytes";
  }

  abbrev model_of : List Object → Model
  model_of objs = record { peers = map peer_of objs }

  -- Read
  unfoldable pub look_up : Client → Action (StateChange Model)
  look_up c =
      DataSource.list_all set_state p c "/network/wireguard_kernel_peers"
        "Error reading wireguard kernel peers" model_of
