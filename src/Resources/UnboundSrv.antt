-- ===== src/Resources/UnboundSrv.antt =====
-- internal/provider/unbound_srv_resource.go: the model of uapi_unbound_srv, its request body and its reading.
use terraform_provider_uapi.Base.{String, Bool, List, ◌++◌}
use terraform_provider_uapi.Any.{Object}
use terraform_provider_uapi.Framework.{Attr, ListAttr, Diagnostic}
use terraform_provider_uapi.Platform.{Platform}
use terraform_provider_uapi.Client.World.{Action}
use terraform_provider_uapi.Client.Request.{Client}
use terraform_provider_uapi.Provider.Values.{
  Read, Body, empty_body, ◌▹◌, put_bool, put_list, str_val, bool_val, list_val_keep_empty,
}
use terraform_provider_uapi.Provider.DataSource
use terraform_provider_uapi.Provider.Singleton
use terraform_provider_uapi.Provider.Singleton.{Singleton}
use terraform_provider_uapi.Provider.Crud.{StateChange, Decoded}

pub record Model : Type 0 where
  pub id : Attr String
  pub managed : Attr Bool
  pub etag : Attr String
  pub enabled : Attr Bool
  pub interface_bind : ListAttr
  pub interface_outgoing : ListAttr
  pub ip_transparent : Attr Bool
  pub srv_line : ListAttr

-- body()
unfoldable pub body : Platform → Model → Body
body p m =
    empty_body
    ▹ put_bool "enabled" m.enabled
    ▹ put_list p "interface_bind" m.interface_bind
    ▹ put_list p "interface_outgoing" m.interface_outgoing
    ▹ put_bool "ip_transparent" m.ip_transparent
    ▹ put_list p "srv_line" m.srv_line

-- read()
unfoldable pub fill : Platform → Object → Model → Read Model
fill p obj m =
    let (interface_bind, d0) = list_val_keep_empty p obj "interface_bind" m.interface_bind in
    let (interface_outgoing, d1) =
      list_val_keep_empty p obj "interface_outgoing" m.interface_outgoing in
    let (srv_line, d2) = list_val_keep_empty p obj "srv_line" m.srv_line in
    (
      record m {
        id = str_val p obj "id";
        managed = bool_val obj "managed";
        enabled = bool_val obj "enabled";
        interface_bind = interface_bind;
        interface_outgoing = interface_outgoing;
        ip_transparent = bool_val obj "ip_transparent";
        srv_line = srv_line;
      },
      d0 ++ d1 ++ d2,
    )

abbrev pub resource : Singleton Model
resource = record {
  path = "/unbound/srv";
  label = "unbound srv options";
  body = body;
  fill = fill;
  etag = λ m. m.etag;
  with_etag = λ m e. record m { etag = e };
}

module _ (set_state : Model → List Diagnostic) (p : Platform) where
  -- Create
  unfoldable pub create : Client → Decoded Model → Action (StateChange Model)
  create c plan = Singleton.create set_state p resource c plan

  -- Read
  unfoldable pub refresh : Client → Decoded Model → Action (StateChange Model)
  refresh c state = Singleton.refresh set_state p resource c state

  -- Update
  unfoldable pub update : Client → Decoded Model → Decoded Model → Action (StateChange Model)
  update c plan state = Singleton.update set_state p resource c plan state

  -- Delete
  unfoldable pub destroy : Client → Decoded Model → Action (StateChange Model)
  destroy c state = Singleton.destroy set_state p resource c state

  -- Read of the data source
  unfoldable pub look_up : Client → Decoded Model → Action (StateChange Model)
  look_up c config = DataSource.look_up set_state p (DataSource.of_singleton resource) c config
