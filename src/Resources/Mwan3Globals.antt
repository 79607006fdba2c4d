-- ===== src/Resources/Mwan3Globals.antt =====
-- internal/provider/mwan3_globals_resource.go: the model of uapi_mwan3_globals, its request body and its reading.
use terraform_provider_uapi.Base.{String, Bool, List, []}
use terraform_provider_uapi.Any.{Object}
use terraform_provider_uapi.Framework.{Attr, Diagnostic}
use terraform_provider_uapi.Platform.{Platform}
use terraform_provider_uapi.Client.World.{Action}
use terraform_provider_uapi.Client.Request.{Client}
use terraform_provider_uapi.Provider.Values.{
  Read, Body, empty_body, ◌▹◌, put_str, put_bool, str_val, bool_val,
}
use terraform_provider_uapi.Provider.DataSource
use terraform_provider_uapi.Provider.Singleton
use terraform_provider_uapi.Provider.Singleton.{Singleton}
use terraform_provider_uapi.Provider.Crud.{StateChange, Decoded}

pub record Model : Type 0 where
  pub id : Attr String
  pub managed : Attr Bool
  pub etag : Attr String
  pub logging : Attr Bool
  pub loglevel : Attr String
  pub mmx_mask : Attr String

-- body()
unfoldable pub body : Platform → Model → Body
body p m =
    empty_body
    ▹ put_bool "logging" m.logging
    ▹ put_str "loglevel" m.loglevel
    ▹ put_str "mmx_mask" m.mmx_mask

-- read()
unfoldable pub fill : Platform → Object → Model → Read Model
fill p obj m = (
  record m {
    id = str_val p obj "id";
    managed = bool_val obj "managed";
    logging = bool_val obj "logging";
    loglevel = str_val p obj "loglevel";
    mmx_mask = str_val p obj "mmx_mask";
  },
  [],
)

abbrev pub resource : Singleton Model
resource = record {
  path = "/mwan3/globals";
  label = "mwan3 globals";
  body = body;
  fill = fill;
  etag = λ m. m.etag;
  with_etag = λ m e. record m { etag = e };
}

module _ (set_state : Model → List Diagnostic) (p : Platform) where
  -- Create
  unfoldable pub create : Client → Decoded Model → Action (StateChange Model)
  create c plan = Singleton.create set_state p resource c plan

  -- Read
  unfoldable pub refresh : Client → Decoded Model → Action (StateChange Model)
  refresh c state = Singleton.refresh set_state p resource c state

  -- Update
  unfoldable pub update : Client → Decoded Model → Decoded Model → Action (StateChange Model)
  update c plan state = Singleton.update set_state p resource c plan state

  -- Delete
  unfoldable pub destroy : Client → Decoded Model → Action (StateChange Model)
  destroy c state = Singleton.destroy set_state p resource c state

  -- Read of the data source
  unfoldable pub look_up : Client → Decoded Model → Action (StateChange Model)
  look_up c config = DataSource.look_up set_state p (DataSource.of_singleton resource) c config
