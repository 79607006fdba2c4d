-- ===== src/Resources/NetworkWireguardPeer.antt =====
-- internal/provider/network_wireguard_peer_resource.go: the model of uapi_network_wireguard_peer, its request body and its reading.
pub mod Warned
use terraform_provider_uapi.Base.{ℤ, String, Bool, false, Option, List, if◌then◌else◌}
use terraform_provider_uapi.Any.{Object}
use terraform_provider_uapi.Framework.{Attr, ListAttr, Diagnostic}
use terraform_provider_uapi.Platform.{Platform}
use terraform_provider_uapi.Client.World.{Action}
use terraform_provider_uapi.Client.Request.{Client}
use terraform_provider_uapi.Provider.Values.{
  Read, Body, empty_body, ◌▹◌, put_str, put_bool, put_int64, put_list, str_val, bool_val,
  bool_val_default, int64_val, list_val_keep_empty,
}
use terraform_provider_uapi.Resources.PeerWarning.{peer_not_in_kernel}
use terraform_provider_uapi.Provider.Crud
use terraform_provider_uapi.Provider.Crud.{Resource, StateChange, Decoded}

pub record Model : Type 0 where
  pub id : Attr String
  pub managed : Attr Bool
  pub etag : Attr String
  pub allowed_ips : ListAttr
  pub description : Attr String
  pub disabled : Attr Bool
  pub endpoint_host : Attr String
  pub endpoint_port : Attr ℤ
  pub has_preshared_key : Attr Bool
  pub interface : Attr String
  pub persistent_keepalive : Attr ℤ
  pub preshared_key : Attr String
  pub public_key : Attr String
  pub route_allowed_ips : Attr Bool

-- body()
unfoldable pub body : Platform → Model → Bool → Body
body p m for_create =
    empty_body
    ▹ (λ b. if for_create then put_str "id" m.id b else b)
    ▹ put_list p "allowed_ips" m.allowed_ips
    ▹ put_str "description" m.description
    ▹ put_bool "disabled" m.disabled
    ▹ put_str "endpoint_host" m.endpoint_host
    ▹ put_int64 "endpoint_port" m.endpoint_port
    ▹ put_str "interface" m.interface
    ▹ put_int64 "persistent_keepalive" m.persistent_keepalive
    ▹ put_str "preshared_key" m.preshared_key
    ▹ put_str "public_key" m.public_key
    ▹ put_bool "route_allowed_ips" m.route_allowed_ips

-- read()
unfoldable pub fill : Platform → Object → Model → Read Model
fill p obj m =
    let (allowed_ips, d0) = list_val_keep_empty p obj "allowed_ips" m.allowed_ips in
    (
      record m {
        id = str_val p obj "id";
        managed = bool_val obj "managed";
        allowed_ips = allowed_ips;
        description = str_val p obj "description";
        disabled = bool_val obj "disabled";
        endpoint_host = str_val p obj "endpoint_host";
        endpoint_port = int64_val p obj "endpoint_port";
        has_preshared_key = bool_val_default obj "has_preshared_key";
        interface = str_val p obj "interface";
        persistent_keepalive = int64_val p obj "persistent_keepalive";
        public_key = str_val p obj "public_key";
        route_allowed_ips = bool_val obj "route_allowed_ips";
      },
      d0,
    )

abbrev pub resource : Resource Model
resource = record {
  collection = "network/wireguard_peers";
  label = "network WireGuard peer";
  body = body;
  fill = fill;
  id = λ m. m.id;
  etag = λ m. m.etag;
  with_etag = λ m e. record m { etag = e };
  patches = λ plan state. false;
  warnings = peer_not_in_kernel;
}

module _ (set_state : Model → List Diagnostic) (p : Platform) where
  -- Create
  unfoldable pub create : Client → Decoded Model → Action (StateChange Model)
  create c plan = Crud.create set_state p resource c plan

  -- Read
  unfoldable pub refresh : Client → Decoded Model → Action (StateChange Model)
  refresh c state = Crud.refresh set_state p resource c state

  -- Update
  unfoldable pub update : Client → Decoded Model → Decoded Model → Action (StateChange Model)
  update c plan state = Crud.update set_state p resource c plan state

  -- Delete
  unfoldable pub destroy : Client → Decoded Model → Action (StateChange Model)
  destroy c state = Crud.destroy set_state p resource c state

  -- ImportState
  unfoldable pub import_state : Client → String → Action (Option String)
  import_state c id = Crud.import_state set_state p resource c id
