-- ===== src/Resources/DhcpDnsmasq.antt =====
-- internal/provider/dhcp_dnsmasq_resource.go: the model of uapi_dhcp_dnsmasq, its request body and its reading.
use terraform_provider_uapi.Base.{ℤ, String, Bool, List, ◌++◌}
use terraform_provider_uapi.Any.{Object}
use terraform_provider_uapi.Framework.{Attr, ListAttr, Diagnostic}
use terraform_provider_uapi.Platform.{Platform}
use terraform_provider_uapi.Client.World.{Action}
use terraform_provider_uapi.Client.Request.{Client}
use terraform_provider_uapi.Provider.Values.{
  Read, Body, empty_body, ◌▹◌, put_str, put_bool, put_int64, put_list, str_val, bool_val, int64_val,
  list_val_keep_empty,
}
use terraform_provider_uapi.Provider.DataSource
use terraform_provider_uapi.Provider.Singleton
use terraform_provider_uapi.Provider.Singleton.{Singleton}
use terraform_provider_uapi.Provider.Crud.{StateChange, Decoded}

pub record Model : Type 0 where
  pub id : Attr String
  pub managed : Attr Bool
  pub etag : Attr String
  pub address : ListAttr
  pub authoritative : Attr Bool
  pub boguspriv : Attr Bool
  pub cachesize : Attr ℤ
  pub domain : Attr String
  pub domainneeded : Attr Bool
  pub expandhosts : Attr Bool
  pub filterwin2k : Attr Bool
  pub leasefile : Attr String
  pub local : Attr String
  pub nonwildcard : Attr Bool
  pub noresolv : Attr Bool
  pub port : Attr ℤ
  pub readethers : Attr Bool
  pub rebind_protection : Attr Bool
  pub resolvfile : Attr String
  pub server : ListAttr

-- body()
unfoldable pub body : Platform → Model → Body
body p m =
    empty_body
    ▹ put_list p "address" m.address
    ▹ put_bool "authoritative" m.authoritative
    ▹ put_bool "boguspriv" m.boguspriv
    ▹ put_int64 "cachesize" m.cachesize
    ▹ put_str "domain" m.domain
    ▹ put_bool "domainneeded" m.domainneeded
    ▹ put_bool "expandhosts" m.expandhosts
    ▹ put_bool "filterwin2k" m.filterwin2k
    ▹ put_str "leasefile" m.leasefile
    ▹ put_str "local" m.local
    ▹ put_bool "nonwildcard" m.nonwildcard
    ▹ put_bool "noresolv" m.noresolv
    ▹ put_int64 "port" m.port
    ▹ put_bool "readethers" m.readethers
    ▹ put_bool "rebind_protection" m.rebind_protection
    ▹ put_str "resolvfile" m.resolvfile
    ▹ put_list p "server" m.server

-- read()
unfoldable pub fill : Platform → Object → Model → Read Model
fill p obj m =
    let (address, d0) = list_val_keep_empty p obj "address" m.address in
    let (server, d1) = list_val_keep_empty p obj "server" m.server in
    (
      record m {
        id = str_val p obj "id";
        managed = bool_val obj "managed";
        address = address;
        authoritative = bool_val obj "authoritative";
        boguspriv = bool_val obj "boguspriv";
        cachesize = int64_val p obj "cachesize";
        domain = str_val p obj "domain";
        domainneeded = bool_val obj "domainneeded";
        expandhosts = bool_val obj "expandhosts";
        filterwin2k = bool_val obj "filterwin2k";
        leasefile = str_val p obj "leasefile";
        local = str_val p obj "local";
        nonwildcard = bool_val obj "nonwildcard";
        noresolv = bool_val obj "noresolv";
        port = int64_val p obj "port";
        readethers = bool_val obj "readethers";
        rebind_protection = bool_val obj "rebind_protection";
        resolvfile = str_val p obj "resolvfile";
        server = server;
      },
      d0 ++ d1,
    )

abbrev pub resource : Singleton Model
resource = record {
  path = "/dhcp/dnsmasq";
  label = "dnsmasq settings";
  body = body;
  fill = fill;
  etag = λ m. m.etag;
  with_etag = λ m e. record m { etag = e };
}

module _ (set_state : Model → List Diagnostic) (p : Platform) where
  -- Create
  unfoldable pub create : Client → Decoded Model → Action (StateChange Model)
  create c plan = Singleton.create set_state p resource c plan

  -- Read
  unfoldable pub refresh : Client → Decoded Model → Action (StateChange Model)
  refresh c state = Singleton.refresh set_state p resource c state

  -- Update
  unfoldable pub update : Client → Decoded Model → Decoded Model → Action (StateChange Model)
  update c plan state = Singleton.update set_state p resource c plan state

  -- Delete
  unfoldable pub destroy : Client → Decoded Model → Action (StateChange Model)
  destroy c state = Singleton.destroy set_state p resource c state

  -- Read of the data source
  unfoldable pub look_up : Client → Decoded Model → Action (StateChange Model)
  look_up c config = DataSource.look_up set_state p (DataSource.of_singleton resource) c config
