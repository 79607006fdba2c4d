-- ===== src/Resources/NetworkRoute.antt =====
-- internal/provider/network_route_resource.go: the model of uapi_network_route, its request body and its reading.
use terraform_provider_uapi.Base.{ℤ, String, Bool, false, Option, List, [], if◌then◌else◌}
use terraform_provider_uapi.Any.{Object}
use terraform_provider_uapi.Framework.{Attr, Diagnostic}
use terraform_provider_uapi.Platform.{Platform}
use terraform_provider_uapi.Client.World.{Action}
use terraform_provider_uapi.Client.Request.{Client}
use terraform_provider_uapi.Provider.Values.{
  Read, Body, empty_body, ◌▹◌, put_str, put_bool, put_int64, str_val, bool_val, int64_val,
}
use terraform_provider_uapi.Provider.DataSource
use terraform_provider_uapi.Provider.Crud
use terraform_provider_uapi.Provider.Crud.{Resource, StateChange, Decoded}

pub record Model : Type 0 where
  pub id : Attr String
  pub managed : Attr Bool
  pub etag : Attr String
  pub disabled : Attr Bool
  pub gateway : Attr String
  pub interface : Attr String
  pub metric : Attr ℤ
  pub mtu : Attr ℤ
  pub netmask : Attr String
  pub source : Attr String
  pub table : Attr ℤ
  pub target : Attr String
  pub type : Attr String

-- body()
unfoldable pub body : Platform → Model → Bool → Body
body p m for_create =
    empty_body
    ▹ (λ b. if for_create then put_str "id" m.id b else b)
    ▹ put_bool "disabled" m.disabled
    ▹ put_str "gateway" m.gateway
    ▹ put_str "interface" m.interface
    ▹ put_int64 "metric" m.metric
    ▹ put_int64 "mtu" m.mtu
    ▹ put_str "netmask" m.netmask
    ▹ put_str "source" m.source
    ▹ put_int64 "table" m.table
    ▹ put_str "target" m.target
    ▹ put_str "type" m.type

-- read()
unfoldable pub fill : Platform → Object → Model → Read Model
fill p obj m = (
  record m {
    id = str_val p obj "id";
    managed = bool_val obj "managed";
    disabled = bool_val obj "disabled";
    gateway = str_val p obj "gateway";
    interface = str_val p obj "interface";
    metric = int64_val p obj "metric";
    mtu = int64_val p obj "mtu";
    netmask = str_val p obj "netmask";
    source = str_val p obj "source";
    table = int64_val p obj "table";
    target = str_val p obj "target";
    type = str_val p obj "type";
  },
  [],
)

abbrev pub resource : Resource Model
resource = record {
  collection = "network/routes";
  label = "network route";
  body = body;
  fill = fill;
  id = λ m. m.id;
  etag = λ m. m.etag;
  with_etag = λ m e. record m { etag = e };
  patches = λ plan state. false;
  warnings = λ obj. [];
}

module _ (set_state : Model → List Diagnostic) (p : Platform) where
  -- Create
  unfoldable pub create : Client → Decoded Model → Action (StateChange Model)
  create c plan = Crud.create set_state p resource c plan

  -- Read
  unfoldable pub refresh : Client → Decoded Model → Action (StateChange Model)
  refresh c state = Crud.refresh set_state p resource c state

  -- Update
  unfoldable pub update : Client → Decoded Model → Decoded Model → Action (StateChange Model)
  update c plan state = Crud.update set_state p resource c plan state

  -- Delete
  unfoldable pub destroy : Client → Decoded Model → Action (StateChange Model)
  destroy c state = Crud.destroy set_state p resource c state

  -- ImportState
  unfoldable pub import_state : Client → String → Action (Option String)
  import_state c id = Crud.import_state set_state p resource c id

  -- Read of the data source
  unfoldable pub look_up : Client → Decoded Model → Action (StateChange Model)
  look_up c config = DataSource.look_up set_state p (DataSource.of_resource resource) c config
