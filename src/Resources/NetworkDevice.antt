-- ===== src/Resources/NetworkDevice.antt =====
-- internal/provider/network_device_resource.go: the model of uapi_network_device, its request body and its reading.
use terraform_provider_uapi.Base.{ℤ, String, Bool, false, Option, List, [], if◌then◌else◌}
use terraform_provider_uapi.Any.{Object}
use terraform_provider_uapi.Framework.{Attr, ListAttr, Diagnostic}
use terraform_provider_uapi.Platform.{Platform}
use terraform_provider_uapi.Client.World.{Action}
use terraform_provider_uapi.Client.Request.{Client}
use terraform_provider_uapi.Provider.Values.{
  Read, Body, empty_body, ◌▹◌, put_str, put_bool, put_int64, put_list, str_val, bool_val, int64_val,
  list_val_keep_empty,
}
use terraform_provider_uapi.Provider.DataSource
use terraform_provider_uapi.Provider.Crud
use terraform_provider_uapi.Provider.Crud.{Resource, StateChange, Decoded}

pub record Model : Type 0 where
  pub id : Attr String
  pub managed : Attr Bool
  pub etag : Attr String
  pub ifname : Attr String
  pub ipv6 : Attr Bool
  pub macaddr : Attr String
  pub mtu : Attr ℤ
  pub name : Attr String
  pub ports : ListAttr
  pub type : Attr String
  pub vid : Attr ℤ

-- body()
unfoldable pub body : Platform → Model → Bool → Body
body p m for_create =
    empty_body
    ▹ (λ b. if for_create then put_str "id" m.id b else b)
    ▹ put_str "ifname" m.ifname
    ▹ put_bool "ipv6" m.ipv6
    ▹ put_str "macaddr" m.macaddr
    ▹ put_int64 "mtu" m.mtu
    ▹ put_str "name" m.name
    ▹ put_list p "ports" m.ports
    ▹ put_str "type" m.type
    ▹ put_int64 "vid" m.vid

-- read()
unfoldable pub fill : Platform → Object → Model → Read Model
fill p obj m =
    let (ports, d0) = list_val_keep_empty p obj "ports" m.ports in
    (
      record m {
        id = str_val p obj "id";
        managed = bool_val obj "managed";
        ifname = str_val p obj "ifname";
        ipv6 = bool_val obj "ipv6";
        macaddr = str_val p obj "macaddr";
        mtu = int64_val p obj "mtu";
        name = str_val p obj "name";
        ports = ports;
        type = str_val p obj "type";
        vid = int64_val p obj "vid";
      },
      d0,
    )

abbrev pub resource : Resource Model
resource = record {
  collection = "network/devices";
  label = "network device";
  body = body;
  fill = fill;
  id = λ m. m.id;
  etag = λ m. m.etag;
  with_etag = λ m e. record m { etag = e };
  patches = λ plan state. false;
  warnings = λ obj. [];
}

module _ (set_state : Model → List Diagnostic) (p : Platform) where
  -- Create
  unfoldable pub create : Client → Decoded Model → Action (StateChange Model)
  create c plan = Crud.create set_state p resource c plan

  -- Read
  unfoldable pub refresh : Client → Decoded Model → Action (StateChange Model)
  refresh c state = Crud.refresh set_state p resource c state

  -- Update
  unfoldable pub update : Client → Decoded Model → Decoded Model → Action (StateChange Model)
  update c plan state = Crud.update set_state p resource c plan state

  -- Delete
  unfoldable pub destroy : Client → Decoded Model → Action (StateChange Model)
  destroy c state = Crud.destroy set_state p resource c state

  -- ImportState
  unfoldable pub import_state : Client → String → Action (Option String)
  import_state c id = Crud.import_state set_state p resource c id

  -- Read of the data source
  unfoldable pub look_up : Client → Decoded Model → Action (StateChange Model)
  look_up c config = DataSource.look_up set_state p (DataSource.of_resource resource) c config
