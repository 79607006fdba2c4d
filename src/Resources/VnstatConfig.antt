-- ===== src/Resources/VnstatConfig.antt =====
-- internal/provider/vnstat_config_resource.go: the model of uapi_vnstat_config, its request body and its reading.
use terraform_provider_uapi.Base.{String, Bool, List}
use terraform_provider_uapi.Any.{Object}
use terraform_provider_uapi.Framework.{Attr, ListAttr, Diagnostic}
use terraform_provider_uapi.Platform.{Platform}
use terraform_provider_uapi.Client.World.{Action}
use terraform_provider_uapi.Client.Request.{Client}
use terraform_provider_uapi.Provider.Values.{
  Read, Body, empty_body, ◌▹◌, put_list, str_val, bool_val, list_val_keep_empty,
}
use terraform_provider_uapi.Provider.DataSource
use terraform_provider_uapi.Provider.Singleton
use terraform_provider_uapi.Provider.Singleton.{Singleton}
use terraform_provider_uapi.Provider.Crud.{StateChange, Decoded}

pub record Model : Type 0 where
  pub id : Attr String
  pub managed : Attr Bool
  pub etag : Attr String
  pub interfaces : ListAttr

-- body()
unfoldable pub body : Platform → Model → Body
body p m = empty_body ▹ put_list p "interfaces" m.interfaces

-- read()
unfoldable pub fill : Platform → Object → Model → Read Model
fill p obj m =
    let (interfaces, d0) = list_val_keep_empty p obj "interfaces" m.interfaces in
    (
      record m {
        id = str_val p obj "id";
        managed = bool_val obj "managed";
        interfaces = interfaces;
      },
      d0,
    )

abbrev pub resource : Singleton Model
resource = record {
  path = "/vnstat/config";
  label = "vnstat config";
  body = body;
  fill = fill;
  etag = λ m. m.etag;
  with_etag = λ m e. record m { etag = e };
}

module _ (set_state : Model → List Diagnostic) (p : Platform) where
  -- Create
  unfoldable pub create : Client → Decoded Model → Action (StateChange Model)
  create c plan = Singleton.create set_state p resource c plan

  -- Read
  unfoldable pub refresh : Client → Decoded Model → Action (StateChange Model)
  refresh c state = Singleton.refresh set_state p resource c state

  -- Update
  unfoldable pub update : Client → Decoded Model → Decoded Model → Action (StateChange Model)
  update c plan state = Singleton.update set_state p resource c plan state

  -- Delete
  unfoldable pub destroy : Client → Decoded Model → Action (StateChange Model)
  destroy c state = Singleton.destroy set_state p resource c state

  -- Read of the data source
  unfoldable pub look_up : Client → Decoded Model → Action (StateChange Model)
  look_up c config = DataSource.look_up set_state p (DataSource.of_singleton resource) c config
