-- ===== src/Resources/SnmpdSystem.antt =====
-- internal/provider/snmpd_system_resource.go: the model of uapi_snmpd_system, its request body and its reading.
use terraform_provider_uapi.Base.{ℤ, String, Bool, List, []}
use terraform_provider_uapi.Any.{Object}
use terraform_provider_uapi.Framework.{Attr, Diagnostic}
use terraform_provider_uapi.Platform.{Platform}
use terraform_provider_uapi.Client.World.{Action}
use terraform_provider_uapi.Client.Request.{Client}
use terraform_provider_uapi.Provider.Values.{
  Read, Body, empty_body, ◌▹◌, put_str, put_int64, str_val, bool_val, int64_val,
}
use terraform_provider_uapi.Provider.DataSource
use terraform_provider_uapi.Provider.Singleton
use terraform_provider_uapi.Provider.Singleton.{Singleton}
use terraform_provider_uapi.Provider.Crud.{StateChange, Decoded}

pub record Model : Type 0 where
  pub id : Attr String
  pub managed : Attr Bool
  pub etag : Attr String
  pub sys_contact : Attr String
  pub sys_descr : Attr String
  pub sys_location : Attr String
  pub sys_name : Attr String
  pub sys_object_id : Attr String
  pub sys_services : Attr ℤ

-- body()
unfoldable pub body : Platform → Model → Body
body p m =
    empty_body
    ▹ put_str "sys_contact" m.sys_contact
    ▹ put_str "sys_descr" m.sys_descr
    ▹ put_str "sys_location" m.sys_location
    ▹ put_str "sys_name" m.sys_name
    ▹ put_str "sys_object_id" m.sys_object_id
    ▹ put_int64 "sys_services" m.sys_services

-- read()
unfoldable pub fill : Platform → Object → Model → Read Model
fill p obj m = (
  record m {
    id = str_val p obj "id";
    managed = bool_val obj "managed";
    sys_contact = str_val p obj "sys_contact";
    sys_descr = str_val p obj "sys_descr";
    sys_location = str_val p obj "sys_location";
    sys_name = str_val p obj "sys_name";
    sys_object_id = str_val p obj "sys_object_id";
    sys_services = int64_val p obj "sys_services";
  },
  [],
)

abbrev pub resource : Singleton Model
resource = record {
  path = "/snmpd/system";
  label = "snmpd system";
  body = body;
  fill = fill;
  etag = λ m. m.etag;
  with_etag = λ m e. record m { etag = e };
}

module _ (set_state : Model → List Diagnostic) (p : Platform) where
  -- Create
  unfoldable pub create : Client → Decoded Model → Action (StateChange Model)
  create c plan = Singleton.create set_state p resource c plan

  -- Read
  unfoldable pub refresh : Client → Decoded Model → Action (StateChange Model)
  refresh c state = Singleton.refresh set_state p resource c state

  -- Update
  unfoldable pub update : Client → Decoded Model → Decoded Model → Action (StateChange Model)
  update c plan state = Singleton.update set_state p resource c plan state

  -- Delete
  unfoldable pub destroy : Client → Decoded Model → Action (StateChange Model)
  destroy c state = Singleton.destroy set_state p resource c state

  -- Read of the data source
  unfoldable pub look_up : Client → Decoded Model → Action (StateChange Model)
  look_up c config = DataSource.look_up set_state p (DataSource.of_singleton resource) c config
