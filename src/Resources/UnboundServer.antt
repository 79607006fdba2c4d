-- ===== src/Resources/UnboundServer.antt =====
-- internal/provider/unbound_server_resource.go: the model of uapi_unbound_server, its request body and its reading.
use terraform_provider_uapi.Base.{ℤ, String, Bool, List, []}
use terraform_provider_uapi.Any.{Object}
use terraform_provider_uapi.Framework.{Attr, Diagnostic}
use terraform_provider_uapi.Platform.{Platform}
use terraform_provider_uapi.Client.World.{Action}
use terraform_provider_uapi.Client.Request.{Client}
use terraform_provider_uapi.Provider.Values.{
  Read, Body, empty_body, ◌▹◌, put_str, put_bool, put_int64, str_val, bool_val, int64_val,
}
use terraform_provider_uapi.Provider.DataSource
use terraform_provider_uapi.Provider.Singleton
use terraform_provider_uapi.Provider.Singleton.{Singleton}
use terraform_provider_uapi.Provider.Crud.{StateChange, Decoded}

pub record Model : Type 0 where
  pub id : Attr String
  pub managed : Attr Bool
  pub etag : Attr String
  pub add_local_fqdn : Attr ℤ
  pub add_wan_fqdn : Attr ℤ
  pub dhcp_link : Attr String
  pub dnssec_enabled : Attr Bool
  pub domain : Attr String
  pub domain_type : Attr String
  pub extended_stats : Attr Bool
  pub hide_binddata : Attr Bool
  pub interface_auto : Attr Bool
  pub listen_port : Attr ℤ
  pub localservice : Attr Bool
  pub manual_conf : Attr Bool
  pub num_threads : Attr ℤ
  pub protocol : Attr String
  pub query_minimize : Attr Bool
  pub rebind_protection : Attr String
  pub recursion : Attr String
  pub resource_limits : Attr String
  pub ttl_min : Attr ℤ

-- body()
unfoldable pub body : Platform → Model → Body
body p m =
    empty_body
    ▹ put_int64 "add_local_fqdn" m.add_local_fqdn
    ▹ put_int64 "add_wan_fqdn" m.add_wan_fqdn
    ▹ put_str "dhcp_link" m.dhcp_link
    ▹ put_bool "dnssec_enabled" m.dnssec_enabled
    ▹ put_str "domain" m.domain
    ▹ put_str "domain_type" m.domain_type
    ▹ put_bool "extended_stats" m.extended_stats
    ▹ put_bool "hide_binddata" m.hide_binddata
    ▹ put_bool "interface_auto" m.interface_auto
    ▹ put_int64 "listen_port" m.listen_port
    ▹ put_bool "localservice" m.localservice
    ▹ put_bool "manual_conf" m.manual_conf
    ▹ put_int64 "num_threads" m.num_threads
    ▹ put_str "protocol" m.protocol
    ▹ put_bool "query_minimize" m.query_minimize
    ▹ put_str "rebind_protection" m.rebind_protection
    ▹ put_str "recursion" m.recursion
    ▹ put_str "resource_limits" m.resource_limits
    ▹ put_int64 "ttl_min" m.ttl_min

-- read()
unfoldable pub fill : Platform → Object → Model → Read Model
fill p obj m = (
  record m {
    id = str_val p obj "id";
    managed = bool_val obj "managed";
    add_local_fqdn = int64_val p obj "add_local_fqdn";
    add_wan_fqdn = int64_val p obj "add_wan_fqdn";
    dhcp_link = str_val p obj "dhcp_link";
    dnssec_enabled = bool_val obj "dnssec_enabled";
    domain = str_val p obj "domain";
    domain_type = str_val p obj "domain_type";
    extended_stats = bool_val obj "extended_stats";
    hide_binddata = bool_val obj "hide_binddata";
    interface_auto = bool_val obj "interface_auto";
    listen_port = int64_val p obj "listen_port";
    localservice = bool_val obj "localservice";
    manual_conf = bool_val obj "manual_conf";
    num_threads = int64_val p obj "num_threads";
    protocol = str_val p obj "protocol";
    query_minimize = bool_val obj "query_minimize";
    rebind_protection = str_val p obj "rebind_protection";
    recursion = str_val p obj "recursion";
    resource_limits = str_val p obj "resource_limits";
    ttl_min = int64_val p obj "ttl_min";
  },
  [],
)

abbrev pub resource : Singleton Model
resource = record {
  path = "/unbound/server";
  label = "unbound server";
  body = body;
  fill = fill;
  etag = λ m. m.etag;
  with_etag = λ m e. record m { etag = e };
}

module _ (set_state : Model → List Diagnostic) (p : Platform) where
  -- Create
  unfoldable pub create : Client → Decoded Model → Action (StateChange Model)
  create c plan = Singleton.create set_state p resource c plan

  -- Read
  unfoldable pub refresh : Client → Decoded Model → Action (StateChange Model)
  refresh c state = Singleton.refresh set_state p resource c state

  -- Update
  unfoldable pub update : Client → Decoded Model → Decoded Model → Action (StateChange Model)
  update c plan state = Singleton.update set_state p resource c plan state

  -- Delete
  unfoldable pub destroy : Client → Decoded Model → Action (StateChange Model)
  destroy c state = Singleton.destroy set_state p resource c state

  -- Read of the data source
  unfoldable pub look_up : Client → Decoded Model → Action (StateChange Model)
  look_up c config = DataSource.look_up set_state p (DataSource.of_singleton resource) c config
