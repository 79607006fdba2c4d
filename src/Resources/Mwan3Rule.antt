-- ===== src/Resources/Mwan3Rule.antt =====
-- internal/provider/mwan3_rule_resource.go: the model of uapi_mwan3_rule, its request body and its reading.
use terraform_provider_uapi.Base.{ℤ, String, Bool, false, Option, List, [], if◌then◌else◌}
use terraform_provider_uapi.Any.{Object}
use terraform_provider_uapi.Framework.{Attr, Diagnostic}
use terraform_provider_uapi.Platform.{Platform}
use terraform_provider_uapi.Client.World.{Action}
use terraform_provider_uapi.Client.Request.{Client}
use terraform_provider_uapi.Provider.Values.{
  Read, Body, empty_body, ◌▹◌, put_str, put_bool, put_int64, str_val, bool_val, int64_val,
}
use terraform_provider_uapi.Provider.DataSource
use terraform_provider_uapi.Provider.Crud
use terraform_provider_uapi.Provider.Crud.{Resource, StateChange, Decoded}

pub record Model : Type 0 where
  pub id : Attr String
  pub managed : Attr Bool
  pub etag : Attr String
  pub dest_ip : Attr String
  pub dest_port : Attr String
  pub family : Attr String
  pub ipset : Attr String
  pub logging : Attr Bool
  pub proto : Attr String
  pub src_ip : Attr String
  pub src_port : Attr String
  pub sticky : Attr Bool
  pub timeout : Attr ℤ
  pub use_policy : Attr String

-- body()
unfoldable pub body : Platform → Model → Bool → Body
body p m for_create =
    empty_body
    ▹ (λ b. if for_create then put_str "id" m.id b else b)
    ▹ put_str "dest_ip" m.dest_ip
    ▹ put_str "dest_port" m.dest_port
    ▹ put_str "family" m.family
    ▹ put_str "ipset" m.ipset
    ▹ put_bool "logging" m.logging
    ▹ put_str "proto" m.proto
    ▹ put_str "src_ip" m.src_ip
    ▹ put_str "src_port" m.src_port
    ▹ put_bool "sticky" m.sticky
    ▹ put_int64 "timeout" m.timeout
    ▹ put_str "use_policy" m.use_policy

-- read()
unfoldable pub fill : Platform → Object → Model → Read Model
fill p obj m = (
  record m {
    id = str_val p obj "id";
    managed = bool_val obj "managed";
    dest_ip = str_val p obj "dest_ip";
    dest_port = str_val p obj "dest_port";
    family = str_val p obj "family";
    ipset = str_val p obj "ipset";
    logging = bool_val obj "logging";
    proto = str_val p obj "proto";
    src_ip = str_val p obj "src_ip";
    src_port = str_val p obj "src_port";
    sticky = bool_val obj "sticky";
    timeout = int64_val p obj "timeout";
    use_policy = str_val p obj "use_policy";
  },
  [],
)

abbrev pub resource : Resource Model
resource = record {
  collection = "mwan3/rules";
  label = "mwan3 rule";
  body = body;
  fill = fill;
  id = λ m. m.id;
  etag = λ m. m.etag;
  with_etag = λ m e. record m { etag = e };
  patches = λ plan state. false;
  warnings = λ obj. [];
}

module _ (set_state : Model → List Diagnostic) (p : Platform) where
  -- Create
  unfoldable pub create : Client → Decoded Model → Action (StateChange Model)
  create c plan = Crud.create set_state p resource c plan

  -- Read
  unfoldable pub refresh : Client → Decoded Model → Action (StateChange Model)
  refresh c state = Crud.refresh set_state p resource c state

  -- Update
  unfoldable pub update : Client → Decoded Model → Decoded Model → Action (StateChange Model)
  update c plan state = Crud.update set_state p resource c plan state

  -- Delete
  unfoldable pub destroy : Client → Decoded Model → Action (StateChange Model)
  destroy c state = Crud.destroy set_state p resource c state

  -- ImportState
  unfoldable pub import_state : Client → String → Action (Option String)
  import_state c id = Crud.import_state set_state p resource c id

  -- Read of the data source
  unfoldable pub look_up : Client → Decoded Model → Action (StateChange Model)
  look_up c config = DataSource.look_up set_state p (DataSource.of_resource resource) c config
