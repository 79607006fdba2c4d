-- ===== src/Resources/UhttpdInstance.antt =====
-- internal/provider/uhttpd_instance_resource.go: the model of uapi_uhttpd_instance, its request body and its reading.
use terraform_provider_uapi.Base.{ℤ, String, Bool, false, Option, List, [], ◌++◌, if◌then◌else◌}
use terraform_provider_uapi.Any.{Object}
use terraform_provider_uapi.Framework.{Attr, ListAttr, Diagnostic}
use terraform_provider_uapi.Platform.{Platform}
use terraform_provider_uapi.Client.World.{Action}
use terraform_provider_uapi.Client.Request.{Client}
use terraform_provider_uapi.Provider.Values.{
  Read, Body, empty_body, ◌▹◌, put_str, put_bool, put_int64, put_list, str_val, bool_val, int64_val,
  list_val_keep_empty,
}
use terraform_provider_uapi.Provider.DataSource
use terraform_provider_uapi.Provider.Crud
use terraform_provider_uapi.Provider.Crud.{Resource, StateChange, Decoded}

pub record Model : Type 0 where
  pub id : Attr String
  pub managed : Attr Bool
  pub etag : Attr String
  pub cert : Attr String
  pub cgi_prefix : Attr String
  pub error_page : Attr String
  pub home : Attr String
  pub http_keepalive : Attr ℤ
  pub index_page : ListAttr
  pub key : Attr String
  pub listen_http : ListAttr
  pub listen_https : ListAttr
  pub lua_prefix : ListAttr
  pub max_connections : Attr ℤ
  pub max_requests : Attr ℤ
  pub network_timeout : Attr ℤ
  pub no_dirlists : Attr Bool
  pub no_symlinks : Attr Bool
  pub rfc1918_filter : Attr Bool
  pub script_timeout : Attr ℤ
  pub tcp_keepalive : Attr ℤ
  pub ucode_prefix : ListAttr

-- body()
unfoldable pub body : Platform → Model → Bool → Body
body p m for_create =
    empty_body
    ▹ (λ b. if for_create then put_str "id" m.id b else b)
    ▹ put_str "cert" m.cert
    ▹ put_str "cgi_prefix" m.cgi_prefix
    ▹ put_str "error_page" m.error_page
    ▹ put_str "home" m.home
    ▹ put_int64 "http_keepalive" m.http_keepalive
    ▹ put_list p "index_page" m.index_page
    ▹ put_str "key" m.key
    ▹ put_list p "listen_http" m.listen_http
    ▹ put_list p "listen_https" m.listen_https
    ▹ put_list p "lua_prefix" m.lua_prefix
    ▹ put_int64 "max_connections" m.max_connections
    ▹ put_int64 "max_requests" m.max_requests
    ▹ put_int64 "network_timeout" m.network_timeout
    ▹ put_bool "no_dirlists" m.no_dirlists
    ▹ put_bool "no_symlinks" m.no_symlinks
    ▹ put_bool "rfc1918_filter" m.rfc1918_filter
    ▹ put_int64 "script_timeout" m.script_timeout
    ▹ put_int64 "tcp_keepalive" m.tcp_keepalive
    ▹ put_list p "ucode_prefix" m.ucode_prefix

-- read()
unfoldable pub fill : Platform → Object → Model → Read Model
fill p obj m =
    let (index_page, d0) = list_val_keep_empty p obj "index_page" m.index_page in
    let (listen_http, d1) = list_val_keep_empty p obj "listen_http" m.listen_http in
    let (listen_https, d2) = list_val_keep_empty p obj "listen_https" m.listen_https in
    let (lua_prefix, d3) = list_val_keep_empty p obj "lua_prefix" m.lua_prefix in
    let (ucode_prefix, d4) = list_val_keep_empty p obj "ucode_prefix" m.ucode_prefix in
    (
      record m {
        id = str_val p obj "id";
        managed = bool_val obj "managed";
        cert = str_val p obj "cert";
        cgi_prefix = str_val p obj "cgi_prefix";
        error_page = str_val p obj "error_page";
        home = str_val p obj "home";
        http_keepalive = int64_val p obj "http_keepalive";
        index_page = index_page;
        key = str_val p obj "key";
        listen_http = listen_http;
        listen_https = listen_https;
        lua_prefix = lua_prefix;
        max_connections = int64_val p obj "max_connections";
        max_requests = int64_val p obj "max_requests";
        network_timeout = int64_val p obj "network_timeout";
        no_dirlists = bool_val obj "no_dirlists";
        no_symlinks = bool_val obj "no_symlinks";
        rfc1918_filter = bool_val obj "rfc1918_filter";
        script_timeout = int64_val p obj "script_timeout";
        tcp_keepalive = int64_val p obj "tcp_keepalive";
        ucode_prefix = ucode_prefix;
      },
      d0 ++ d1 ++ d2 ++ d3 ++ d4,
    )

abbrev pub resource : Resource Model
resource = record {
  collection = "uhttpd/instances";
  label = "uhttpd instance";
  body = body;
  fill = fill;
  id = λ m. m.id;
  etag = λ m. m.etag;
  with_etag = λ m e. record m { etag = e };
  patches = λ plan state. false;
  warnings = λ obj. [];
}

module _ (set_state : Model → List Diagnostic) (p : Platform) where
  -- Create
  unfoldable pub create : Client → Decoded Model → Action (StateChange Model)
  create c plan = Crud.create set_state p resource c plan

  -- Read
  unfoldable pub refresh : Client → Decoded Model → Action (StateChange Model)
  refresh c state = Crud.refresh set_state p resource c state

  -- Update
  unfoldable pub update : Client → Decoded Model → Decoded Model → Action (StateChange Model)
  update c plan state = Crud.update set_state p resource c plan state

  -- Delete
  unfoldable pub destroy : Client → Decoded Model → Action (StateChange Model)
  destroy c state = Crud.destroy set_state p resource c state

  -- ImportState
  unfoldable pub import_state : Client → String → Action (Option String)
  import_state c id = Crud.import_state set_state p resource c id

  -- Read of the data source
  unfoldable pub look_up : Client → Decoded Model → Action (StateChange Model)
  look_up c config = DataSource.look_up set_state p (DataSource.of_resource resource) c config
