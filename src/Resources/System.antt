-- ===== src/Resources/System.antt =====
-- internal/provider/system_resource.go: the model of uapi_system, its request body and its reading.
use terraform_provider_uapi.Base.{ℤ, String, Bool, List, []}
use terraform_provider_uapi.Any.{Object}
use terraform_provider_uapi.Framework.{Attr, Diagnostic}
use terraform_provider_uapi.Platform.{Platform}
use terraform_provider_uapi.Client.World.{Action}
use terraform_provider_uapi.Client.Request.{Client}
use terraform_provider_uapi.Provider.Values.{
  Read, Body, empty_body, ◌▹◌, put_str, put_bool, put_int64, str_val, bool_val, int64_val,
}
use terraform_provider_uapi.Provider.DataSource
use terraform_provider_uapi.Provider.Singleton
use terraform_provider_uapi.Provider.Singleton.{Singleton}
use terraform_provider_uapi.Provider.Crud.{StateChange, Decoded}

pub record Model : Type 0 where
  pub id : Attr String
  pub managed : Attr Bool
  pub etag : Attr String
  pub description : Attr String
  pub hostname : Attr String
  pub log_ip : Attr String
  pub log_proto : Attr String
  pub log_remote : Attr Bool
  pub log_size : Attr ℤ
  pub notes : Attr String
  pub timezone : Attr String
  pub urandom_seed : Attr String
  pub zonename : Attr String

-- body()
unfoldable pub body : Platform → Model → Body
body p m =
    empty_body
    ▹ put_str "description" m.description
    ▹ put_str "hostname" m.hostname
    ▹ put_str "log_ip" m.log_ip
    ▹ put_str "log_proto" m.log_proto
    ▹ put_bool "log_remote" m.log_remote
    ▹ put_int64 "log_size" m.log_size
    ▹ put_str "notes" m.notes
    ▹ put_str "timezone" m.timezone
    ▹ put_str "urandom_seed" m.urandom_seed
    ▹ put_str "zonename" m.zonename

-- read()
unfoldable pub fill : Platform → Object → Model → Read Model
fill p obj m = (
  record m {
    id = str_val p obj "id";
    managed = bool_val obj "managed";
    description = str_val p obj "description";
    hostname = str_val p obj "hostname";
    log_ip = str_val p obj "log_ip";
    log_proto = str_val p obj "log_proto";
    log_remote = bool_val obj "log_remote";
    log_size = int64_val p obj "log_size";
    notes = str_val p obj "notes";
    timezone = str_val p obj "timezone";
    urandom_seed = str_val p obj "urandom_seed";
    zonename = str_val p obj "zonename";
  },
  [],
)

abbrev pub resource : Singleton Model
resource = record {
  path = "/system";
  label = "system settings";
  body = body;
  fill = fill;
  etag = λ m. m.etag;
  with_etag = λ m e. record m { etag = e };
}

module _ (set_state : Model → List Diagnostic) (p : Platform) where
  -- Create
  unfoldable pub create : Client → Decoded Model → Action (StateChange Model)
  create c plan = Singleton.create set_state p resource c plan

  -- Read
  unfoldable pub refresh : Client → Decoded Model → Action (StateChange Model)
  refresh c state = Singleton.refresh set_state p resource c state

  -- Update
  unfoldable pub update : Client → Decoded Model → Decoded Model → Action (StateChange Model)
  update c plan state = Singleton.update set_state p resource c plan state

  -- Delete
  unfoldable pub destroy : Client → Decoded Model → Action (StateChange Model)
  destroy c state = Singleton.destroy set_state p resource c state

  -- Read of the data source
  unfoldable pub look_up : Client → Decoded Model → Action (StateChange Model)
  look_up c config = DataSource.look_up set_state p (DataSource.of_singleton resource) c config
