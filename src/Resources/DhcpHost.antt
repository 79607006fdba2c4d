-- ===== src/Resources/DhcpHost.antt =====
-- internal/provider/dhcp_host_resource.go: the model of uapi_dhcp_host, its request body and its reading.
use terraform_provider_uapi.Base.{String, Bool, false, Option, List, [], ◌++◌, if◌then◌else◌}
use terraform_provider_uapi.Any.{Object}
use terraform_provider_uapi.Framework.{Attr, null, ListAttr, Diagnostic}
use terraform_provider_uapi.Platform.{Platform}
use terraform_provider_uapi.Client.World.{Action}
use terraform_provider_uapi.Client.Request.{Client}
use terraform_provider_uapi.Provider.Values.{
  Read, Body, empty_body, ◌▹◌, put_str, put_bool, put_list, str_val, bool_val, list_val_keep_empty,
}
use terraform_provider_uapi.Provider.DataSource
use terraform_provider_uapi.Provider.Crud
use terraform_provider_uapi.Provider.Crud.{Resource, StateChange, Decoded}

pub record Model : Type 0 where
  pub id : Attr String
  pub managed : Attr Bool
  pub etag : Attr String
  pub broadcast : Attr Bool
  pub dns : Attr Bool
  pub duid : Attr String
  pub hostid : Attr String
  pub instance : Attr String
  pub ip : Attr String
  pub leasetime : Attr String
  pub macs : ListAttr
  pub match_tag : ListAttr
  pub name : Attr String
  pub tag : ListAttr

-- the zero value, in which every attribute is null
abbrev pub empty : Model
empty = record {
  id = null;
  managed = null;
  etag = null;
  broadcast = null;
  dns = null;
  duid = null;
  hostid = null;
  instance = null;
  ip = null;
  leasetime = null;
  macs = null;
  match_tag = null;
  name = null;
  tag = null;
}

-- body()
unfoldable pub body : Platform → Model → Bool → Body
body p m for_create =
    empty_body
    ▹ (λ b. if for_create then put_str "id" m.id b else b)
    ▹ put_bool "broadcast" m.broadcast
    ▹ put_bool "dns" m.dns
    ▹ put_str "duid" m.duid
    ▹ put_str "hostid" m.hostid
    ▹ put_str "instance" m.instance
    ▹ put_str "ip" m.ip
    ▹ put_str "leasetime" m.leasetime
    ▹ put_list p "macs" m.macs
    ▹ put_list p "match_tag" m.match_tag
    ▹ put_str "name" m.name
    ▹ put_list p "tag" m.tag

-- read()
unfoldable pub fill : Platform → Object → Model → Read Model
fill p obj m =
    let (macs, d0) = list_val_keep_empty p obj "macs" m.macs in
    let (match_tag, d1) = list_val_keep_empty p obj "match_tag" m.match_tag in
    let (tag, d2) = list_val_keep_empty p obj "tag" m.tag in
    (
      record m {
        id = str_val p obj "id";
        managed = bool_val obj "managed";
        broadcast = bool_val obj "broadcast";
        dns = bool_val obj "dns";
        duid = str_val p obj "duid";
        hostid = str_val p obj "hostid";
        instance = str_val p obj "instance";
        ip = str_val p obj "ip";
        leasetime = str_val p obj "leasetime";
        macs = macs;
        match_tag = match_tag;
        name = str_val p obj "name";
        tag = tag;
      },
      d0 ++ d1 ++ d2,
    )

abbrev pub resource : Resource Model
resource = record {
  collection = "dhcp/hosts";
  label = "dhcp host";
  body = body;
  fill = fill;
  id = λ m. m.id;
  etag = λ m. m.etag;
  with_etag = λ m e. record m { etag = e };
  patches = λ plan state. false;
  warnings = λ obj. [];
}

module _ (set_state : Model → List Diagnostic) (p : Platform) where
  -- Create
  unfoldable pub create : Client → Decoded Model → Action (StateChange Model)
  create c plan = Crud.create set_state p resource c plan

  -- Read
  unfoldable pub refresh : Client → Decoded Model → Action (StateChange Model)
  refresh c state = Crud.refresh set_state p resource c state

  -- Update
  unfoldable pub update : Client → Decoded Model → Decoded Model → Action (StateChange Model)
  update c plan state = Crud.update set_state p resource c plan state

  -- Delete
  unfoldable pub destroy : Client → Decoded Model → Action (StateChange Model)
  destroy c state = Crud.destroy set_state p resource c state

  -- ImportState
  unfoldable pub import_state : Client → String → Action (Option String)
  import_state c id = Crud.import_state set_state p resource c id

  -- Read of the data source
  unfoldable pub look_up : Client → Decoded Model → Action (StateChange Model)
  look_up c config = DataSource.look_up set_state p (DataSource.of_resource resource) c config
