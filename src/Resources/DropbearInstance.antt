-- ===== src/Resources/DropbearInstance.antt =====
-- internal/provider/dropbear_instance_resource.go: the model of uapi_dropbear_instance, its request body and its reading.
use terraform_provider_uapi.Base.{ℤ, String, Bool, false, Option, List, [], if◌then◌else◌}
use terraform_provider_uapi.Any.{Object}
use terraform_provider_uapi.Framework.{Attr, Diagnostic}
use terraform_provider_uapi.Platform.{Platform}
use terraform_provider_uapi.Client.World.{Action}
use terraform_provider_uapi.Client.Request.{Client}
use terraform_provider_uapi.Provider.Values.{
  Read, Body, empty_body, ◌▹◌, put_str, put_bool, put_int64, str_val, bool_val, int64_val,
}
use terraform_provider_uapi.Provider.DataSource
use terraform_provider_uapi.Provider.Crud
use terraform_provider_uapi.Provider.Crud.{Resource, StateChange, Decoded}

pub record Model : Type 0 where
  pub id : Attr String
  pub managed : Attr Bool
  pub etag : Attr String
  pub banner_file : Attr String
  pub enable : Attr Bool
  pub gateway_ports : Attr Bool
  pub interface : Attr String
  pub password_auth : Attr Bool
  pub port : Attr ℤ
  pub root_login : Attr Bool
  pub root_password_auth : Attr Bool

-- body()
unfoldable pub body : Platform → Model → Bool → Body
body p m for_create =
    empty_body
    ▹ (λ b. if for_create then put_str "id" m.id b else b)
    ▹ put_str "banner_file" m.banner_file
    ▹ put_bool "enable" m.enable
    ▹ put_bool "gateway_ports" m.gateway_ports
    ▹ put_str "interface" m.interface
    ▹ put_bool "password_auth" m.password_auth
    ▹ put_int64 "port" m.port
    ▹ put_bool "root_login" m.root_login
    ▹ put_bool "root_password_auth" m.root_password_auth

-- read()
unfoldable pub fill : Platform → Object → Model → Read Model
fill p obj m = (
  record m {
    id = str_val p obj "id";
    managed = bool_val obj "managed";
    banner_file = str_val p obj "banner_file";
    enable = bool_val obj "enable";
    gateway_ports = bool_val obj "gateway_ports";
    interface = str_val p obj "interface";
    password_auth = bool_val obj "password_auth";
    port = int64_val p obj "port";
    root_login = bool_val obj "root_login";
    root_password_auth = bool_val obj "root_password_auth";
  },
  [],
)

abbrev pub resource : Resource Model
resource = record {
  collection = "dropbear/instances";
  label = "dropbear instance";
  body = body;
  fill = fill;
  id = λ m. m.id;
  etag = λ m. m.etag;
  with_etag = λ m e. record m { etag = e };
  patches = λ plan state. false;
  warnings = λ obj. [];
}

module _ (set_state : Model → List Diagnostic) (p : Platform) where
  -- Create
  unfoldable pub create : Client → Decoded Model → Action (StateChange Model)
  create c plan = Crud.create set_state p resource c plan

  -- Read
  unfoldable pub refresh : Client → Decoded Model → Action (StateChange Model)
  refresh c state = Crud.refresh set_state p resource c state

  -- Update
  unfoldable pub update : Client → Decoded Model → Decoded Model → Action (StateChange Model)
  update c plan state = Crud.update set_state p resource c plan state

  -- Delete
  unfoldable pub destroy : Client → Decoded Model → Action (StateChange Model)
  destroy c state = Crud.destroy set_state p resource c state

  -- ImportState
  unfoldable pub import_state : Client → String → Action (Option String)
  import_state c id = Crud.import_state set_state p resource c id

  -- Read of the data source
  unfoldable pub look_up : Client → Decoded Model → Action (StateChange Model)
  look_up c config = DataSource.look_up set_state p (DataSource.of_resource resource) c config
