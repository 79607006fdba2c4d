-- ===== src/Resources/OpenvpnInstance.antt =====
-- internal/provider/openvpn_instance_resource.go: the model of uapi_openvpn_instance, its request body and its reading.
use terraform_provider_uapi.Base.{ℤ, String, Bool, false, Option, List, [], ◌++◌, if◌then◌else◌}
use terraform_provider_uapi.Any.{Object}
use terraform_provider_uapi.Framework.{Attr, ListAttr, Diagnostic}
use terraform_provider_uapi.Platform.{Platform}
use terraform_provider_uapi.Client.World.{Action}
use terraform_provider_uapi.Client.Request.{Client}
use terraform_provider_uapi.Provider.Values.{
  Read, Body, empty_body, ◌▹◌, put_str, put_bool, put_int64, put_list, str_val, bool_val,
  bool_val_default, int64_val, list_val_keep_empty,
}
use terraform_provider_uapi.Provider.DataSource
use terraform_provider_uapi.Provider.Crud
use terraform_provider_uapi.Provider.Crud.{Resource, StateChange, Decoded}

pub record Model : Type 0 where
  pub id : Attr String
  pub managed : Attr Bool
  pub etag : Attr String
  pub auth : Attr String
  pub ca : Attr String
  pub cert : Attr String
  pub cipher : Attr String
  pub client : Attr Bool
  pub client_to_client : Attr Bool
  pub comp_lzo : Attr String
  pub compress : Attr String
  pub crl_verify : Attr String
  pub dev : Attr String
  pub dev_type : Attr String
  pub dh : Attr String
  pub duplicate_cn : Attr Bool
  pub enabled : Attr Bool
  pub float : Attr Bool
  pub group : Attr String
  pub has_key : Attr Bool
  pub has_pkcs12 : Attr Bool
  pub has_tls_auth : Attr Bool
  pub ifconfig : Attr String
  pub ifconfig_pool : Attr String
  pub keepalive : Attr String
  pub key : Attr String
  pub local : Attr String
  pub log : Attr String
  pub log_append : Attr String
  pub lport : Attr ℤ
  pub mute : Attr ℤ
  pub ncp_ciphers : Attr String
  pub ncp_disable : Attr Bool
  pub nobind : Attr Bool
  pub persist_key : Attr Bool
  pub persist_tun : Attr Bool
  pub ping : Attr ℤ
  pub ping_restart : Attr ℤ
  pub pkcs12 : Attr String
  pub port : Attr ℤ
  pub proto : Attr String
  pub push : ListAttr
  pub remote : ListAttr
  pub remote_cert_tls : Attr String
  pub route : ListAttr
  pub route_gateway : Attr String
  pub rport : Attr ℤ
  pub server : Attr String
  pub server_bridge : Attr String
  pub status : Attr String
  pub tls_auth : Attr String
  pub tls_client : Attr Bool
  pub tls_crypt : Attr String
  pub tls_server : Attr Bool
  pub topology : Attr String
  pub user : Attr String
  pub verb : Attr ℤ
  pub verify_x509_name : Attr String

-- body()
unfoldable pub body : Platform → Model → Bool → Body
body p m for_create =
    empty_body
    ▹ (λ b. if for_create then put_str "id" m.id b else b)
    ▹ put_str "auth" m.auth
    ▹ put_str "ca" m.ca
    ▹ put_str "cert" m.cert
    ▹ put_str "cipher" m.cipher
    ▹ put_bool "client" m.client
    ▹ put_bool "client_to_client" m.client_to_client
    ▹ put_str "comp_lzo" m.comp_lzo
    ▹ put_str "compress" m.compress
    ▹ put_str "crl_verify" m.crl_verify
    ▹ put_str "dev" m.dev
    ▹ put_str "dev_type" m.dev_type
    ▹ put_str "dh" m.dh
    ▹ put_bool "duplicate_cn" m.duplicate_cn
    ▹ put_bool "enabled" m.enabled
    ▹ put_bool "float" m.float
    ▹ put_str "group" m.group
    ▹ put_str "ifconfig" m.ifconfig
    ▹ put_str "ifconfig_pool" m.ifconfig_pool
    ▹ put_str "keepalive" m.keepalive
    ▹ put_str "key" m.key
    ▹ put_str "local" m.local
    ▹ put_str "log" m.log
    ▹ put_str "log_append" m.log_append
    ▹ put_int64 "lport" m.lport
    ▹ put_int64 "mute" m.mute
    ▹ put_str "ncp_ciphers" m.ncp_ciphers
    ▹ put_bool "ncp_disable" m.ncp_disable
    ▹ put_bool "nobind" m.nobind
    ▹ put_bool "persist_key" m.persist_key
    ▹ put_bool "persist_tun" m.persist_tun
    ▹ put_int64 "ping" m.ping
    ▹ put_int64 "ping_restart" m.ping_restart
    ▹ put_str "pkcs12" m.pkcs12
    ▹ put_int64 "port" m.port
    ▹ put_str "proto" m.proto
    ▹ put_list p "push" m.push
    ▹ put_list p "remote" m.remote
    ▹ put_str "remote_cert_tls" m.remote_cert_tls
    ▹ put_list p "route" m.route
    ▹ put_str "route_gateway" m.route_gateway
    ▹ put_int64 "rport" m.rport
    ▹ put_str "server" m.server
    ▹ put_str "server_bridge" m.server_bridge
    ▹ put_str "status" m.status
    ▹ put_str "tls_auth" m.tls_auth
    ▹ put_bool "tls_client" m.tls_client
    ▹ put_str "tls_crypt" m.tls_crypt
    ▹ put_bool "tls_server" m.tls_server
    ▹ put_str "topology" m.topology
    ▹ put_str "user" m.user
    ▹ put_int64 "verb" m.verb
    ▹ put_str "verify_x509_name" m.verify_x509_name

-- read()
unfoldable pub fill : Platform → Object → Model → Read Model
fill p obj m =
    let (push, d0) = list_val_keep_empty p obj "push" m.push in
    let (remote, d1) = list_val_keep_empty p obj "remote" m.remote in
    let (route, d2) = list_val_keep_empty p obj "route" m.route in
    (
      record m {
        id = str_val p obj "id";
        managed = bool_val obj "managed";
        auth = str_val p obj "auth";
        ca = str_val p obj "ca";
        cert = str_val p obj "cert";
        cipher = str_val p obj "cipher";
        client = bool_val obj "client";
        client_to_client = bool_val obj "client_to_client";
        comp_lzo = str_val p obj "comp_lzo";
        compress = str_val p obj "compress";
        crl_verify = str_val p obj "crl_verify";
        dev = str_val p obj "dev";
        dev_type = str_val p obj "dev_type";
        dh = str_val p obj "dh";
        duplicate_cn = bool_val obj "duplicate_cn";
        enabled = bool_val obj "enabled";
        float = bool_val obj "float";
        group = str_val p obj "group";
        has_key = bool_val_default obj "has_key";
        has_pkcs12 = bool_val_default obj "has_pkcs12";
        has_tls_auth = bool_val_default obj "has_tls_auth";
        ifconfig = str_val p obj "ifconfig";
        ifconfig_pool = str_val p obj "ifconfig_pool";
        keepalive = str_val p obj "keepalive";
        local = str_val p obj "local";
        log = str_val p obj "log";
        log_append = str_val p obj "log_append";
        lport = int64_val p obj "lport";
        mute = int64_val p obj "mute";
        ncp_ciphers = str_val p obj "ncp_ciphers";
        ncp_disable = bool_val obj "ncp_disable";
        nobind = bool_val obj "nobind";
        persist_key = bool_val obj "persist_key";
        persist_tun = bool_val obj "persist_tun";
        ping = int64_val p obj "ping";
        ping_restart = int64_val p obj "ping_restart";
        port = int64_val p obj "port";
        proto = str_val p obj "proto";
        push = push;
        remote = remote;
        remote_cert_tls = str_val p obj "remote_cert_tls";
        route = route;
        route_gateway = str_val p obj "route_gateway";
        rport = int64_val p obj "rport";
        server = str_val p obj "server";
        server_bridge = str_val p obj "server_bridge";
        status = str_val p obj "status";
        tls_client = bool_val obj "tls_client";
        tls_crypt = str_val p obj "tls_crypt";
        tls_server = bool_val obj "tls_server";
        topology = str_val p obj "topology";
        user = str_val p obj "user";
        verb = int64_val p obj "verb";
        verify_x509_name = str_val p obj "verify_x509_name";
      },
      d0 ++ d1 ++ d2,
    )

abbrev pub resource : Resource Model
resource = record {
  collection = "openvpn/instances";
  label = "openvpn instance";
  body = body;
  fill = fill;
  id = λ m. m.id;
  etag = λ m. m.etag;
  with_etag = λ m e. record m { etag = e };
  patches = λ plan state. false;
  warnings = λ obj. [];
}

module _ (set_state : Model → List Diagnostic) (p : Platform) where
  -- Create
  unfoldable pub create : Client → Decoded Model → Action (StateChange Model)
  create c plan = Crud.create set_state p resource c plan

  -- Read
  unfoldable pub refresh : Client → Decoded Model → Action (StateChange Model)
  refresh c state = Crud.refresh set_state p resource c state

  -- Update
  unfoldable pub update : Client → Decoded Model → Decoded Model → Action (StateChange Model)
  update c plan state = Crud.update set_state p resource c plan state

  -- Delete
  unfoldable pub destroy : Client → Decoded Model → Action (StateChange Model)
  destroy c state = Crud.destroy set_state p resource c state

  -- ImportState
  unfoldable pub import_state : Client → String → Action (Option String)
  import_state c id = Crud.import_state set_state p resource c id

  -- Read of the data source
  unfoldable pub look_up : Client → Decoded Model → Action (StateChange Model)
  look_up c config = DataSource.look_up set_state p (DataSource.of_resource resource) c config
