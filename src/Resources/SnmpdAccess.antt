-- ===== src/Resources/SnmpdAccess.antt =====
-- internal/provider/snmpd_access_resource.go: the model of uapi_snmpd_access, its request body and its reading.
use terraform_provider_uapi.Base.{String, Bool, false, Option, List, [], if◌then◌else◌}
use terraform_provider_uapi.Any.{Object}
use terraform_provider_uapi.Framework.{Attr, Diagnostic}
use terraform_provider_uapi.Platform.{Platform}
use terraform_provider_uapi.Client.World.{Action}
use terraform_provider_uapi.Client.Request.{Client}
use terraform_provider_uapi.Provider.Values.{
  Read, Body, empty_body, ◌▹◌, put_str, str_val, bool_val,
}
use terraform_provider_uapi.Provider.DataSource
use terraform_provider_uapi.Provider.Crud
use terraform_provider_uapi.Provider.Crud.{Resource, StateChange, Decoded}

pub record Model : Type 0 where
  pub id : Attr String
  pub managed : Attr Bool
  pub etag : Attr String
  pub context : Attr String
  pub group : Attr String
  pub level : Attr String
  pub notify : Attr String
  pub prefix : Attr String
  pub read : Attr String
  pub version : Attr String
  pub write : Attr String

-- body()
unfoldable pub body : Platform → Model → Bool → Body
body p m for_create =
    empty_body
    ▹ (λ b. if for_create then put_str "id" m.id b else b)
    ▹ put_str "context" m.context
    ▹ put_str "group" m.group
    ▹ put_str "level" m.level
    ▹ put_str "notify" m.notify
    ▹ put_str "prefix" m.prefix
    ▹ put_str "read" m.read
    ▹ put_str "version" m.version
    ▹ put_str "write" m.write

-- read()
unfoldable pub fill : Platform → Object → Model → Read Model
fill p obj m = (
  record m {
    id = str_val p obj "id";
    managed = bool_val obj "managed";
    context = str_val p obj "context";
    group = str_val p obj "group";
    level = str_val p obj "level";
    notify = str_val p obj "notify";
    prefix = str_val p obj "prefix";
    read = str_val p obj "read";
    version = str_val p obj "version";
    write = str_val p obj "write";
  },
  [],
)

abbrev pub resource : Resource Model
resource = record {
  collection = "snmpd/accesses";
  label = "snmpd access";
  body = body;
  fill = fill;
  id = λ m. m.id;
  etag = λ m. m.etag;
  with_etag = λ m e. record m { etag = e };
  patches = λ plan state. false;
  warnings = λ obj. [];
}

module _ (set_state : Model → List Diagnostic) (p : Platform) where
  -- Create
  unfoldable pub create : Client → Decoded Model → Action (StateChange Model)
  create c plan = Crud.create set_state p resource c plan

  -- Read
  unfoldable pub refresh : Client → Decoded Model → Action (StateChange Model)
  refresh c state = Crud.refresh set_state p resource c state

  -- Update
  unfoldable pub update : Client → Decoded Model → Decoded Model → Action (StateChange Model)
  update c plan state = Crud.update set_state p resource c plan state

  -- Delete
  unfoldable pub destroy : Client → Decoded Model → Action (StateChange Model)
  destroy c state = Crud.destroy set_state p resource c state

  -- ImportState
  unfoldable pub import_state : Client → String → Action (Option String)
  import_state c id = Crud.import_state set_state p resource c id

  -- Read of the data source
  unfoldable pub look_up : Client → Decoded Model → Action (StateChange Model)
  look_up c config = DataSource.look_up set_state p (DataSource.of_resource resource) c config
