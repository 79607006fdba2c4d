-- ===== src/Resources/SqmQueue.antt =====
-- internal/provider/sqm_queue_resource.go: the model of uapi_sqm_queue, its request body and its reading.
use terraform_provider_uapi.Base.{ℤ, String, Bool, false, Option, List, [], if◌then◌else◌}
use terraform_provider_uapi.Any.{Object}
use terraform_provider_uapi.Framework.{Attr, Diagnostic}
use terraform_provider_uapi.Platform.{Platform}
use terraform_provider_uapi.Client.World.{Action}
use terraform_provider_uapi.Client.Request.{Client}
use terraform_provider_uapi.Provider.Values.{
  Read, Body, empty_body, ◌▹◌, put_str, put_bool, put_int64, str_val, bool_val, int64_val,
}
use terraform_provider_uapi.Provider.DataSource
use terraform_provider_uapi.Provider.Crud
use terraform_provider_uapi.Provider.Crud.{Resource, StateChange, Decoded}

pub record Model : Type 0 where
  pub id : Attr String
  pub managed : Attr Bool
  pub etag : Attr String
  pub download : Attr ℤ
  pub enabled : Attr Bool
  pub interface : Attr String
  pub linklayer : Attr String
  pub overhead : Attr ℤ
  pub qdisc : Attr String
  pub script : Attr String
  pub upload : Attr ℤ

-- body()
unfoldable pub body : Platform → Model → Bool → Body
body p m for_create =
    empty_body
    ▹ (λ b. if for_create then put_str "id" m.id b else b)
    ▹ put_int64 "download" m.download
    ▹ put_bool "enabled" m.enabled
    ▹ put_str "interface" m.interface
    ▹ put_str "linklayer" m.linklayer
    ▹ put_int64 "overhead" m.overhead
    ▹ put_str "qdisc" m.qdisc
    ▹ put_str "script" m.script
    ▹ put_int64 "upload" m.upload

-- read()
unfoldable pub fill : Platform → Object → Model → Read Model
fill p obj m = (
  record m {
    id = str_val p obj "id";
    managed = bool_val obj "managed";
    download = int64_val p obj "download";
    enabled = bool_val obj "enabled";
    interface = str_val p obj "interface";
    linklayer = str_val p obj "linklayer";
    overhead = int64_val p obj "overhead";
    qdisc = str_val p obj "qdisc";
    script = str_val p obj "script";
    upload = int64_val p obj "upload";
  },
  [],
)

abbrev pub resource : Resource Model
resource = record {
  collection = "sqm/queues";
  label = "sqm queue";
  body = body;
  fill = fill;
  id = λ m. m.id;
  etag = λ m. m.etag;
  with_etag = λ m e. record m { etag = e };
  patches = λ plan state. false;
  warnings = λ obj. [];
}

module _ (set_state : Model → List Diagnostic) (p : Platform) where
  -- Create
  unfoldable pub create : Client → Decoded Model → Action (StateChange Model)
  create c plan = Crud.create set_state p resource c plan

  -- Read
  unfoldable pub refresh : Client → Decoded Model → Action (StateChange Model)
  refresh c state = Crud.refresh set_state p resource c state

  -- Update
  unfoldable pub update : Client → Decoded Model → Decoded Model → Action (StateChange Model)
  update c plan state = Crud.update set_state p resource c plan state

  -- Delete
  unfoldable pub destroy : Client → Decoded Model → Action (StateChange Model)
  destroy c state = Crud.destroy set_state p resource c state

  -- ImportState
  unfoldable pub import_state : Client → String → Action (Option String)
  import_state c id = Crud.import_state set_state p resource c id

  -- Read of the data source
  unfoldable pub look_up : Client → Decoded Model → Action (StateChange Model)
  look_up c config = DataSource.look_up set_state p (DataSource.of_resource resource) c config
