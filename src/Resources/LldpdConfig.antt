-- ===== src/Resources/LldpdConfig.antt =====
-- internal/provider/lldpd_config_resource.go: the model of uapi_lldpd_config, its request body and its reading.
use terraform_provider_uapi.Base.{ℤ, String, Bool, List}
use terraform_provider_uapi.Any.{Object}
use terraform_provider_uapi.Framework.{Attr, ListAttr, Diagnostic}
use terraform_provider_uapi.Platform.{Platform}
use terraform_provider_uapi.Client.World.{Action}
use terraform_provider_uapi.Client.Request.{Client}
use terraform_provider_uapi.Provider.Values.{
  Read, Body, empty_body, ◌▹◌, put_str, put_bool, put_int64, put_list, str_val, bool_val, int64_val,
  list_val_keep_empty,
}
use terraform_provider_uapi.Provider.DataSource
use terraform_provider_uapi.Provider.Singleton
use terraform_provider_uapi.Provider.Singleton.{Singleton}
use terraform_provider_uapi.Provider.Crud.{StateChange, Decoded}

pub record Model : Type 0 where
  pub id : Attr String
  pub managed : Attr Bool
  pub etag : Attr String
  pub enable_cdp : Attr Bool
  pub enable_edp : Attr Bool
  pub enable_fdp : Attr Bool
  pub enable_sonmp : Attr Bool
  pub interface : ListAttr
  pub lldp_capabilities : Attr Bool
  pub lldp_class : Attr ℤ
  pub lldp_description : Attr String
  pub lldp_mgmt_ip : Attr String

-- body()
unfoldable pub body : Platform → Model → Body
body p m =
    empty_body
    ▹ put_bool "enable_cdp" m.enable_cdp
    ▹ put_bool "enable_edp" m.enable_edp
    ▹ put_bool "enable_fdp" m.enable_fdp
    ▹ put_bool "enable_sonmp" m.enable_sonmp
    ▹ put_list p "interface" m.interface
    ▹ put_bool "lldp_capabilities" m.lldp_capabilities
    ▹ put_int64 "lldp_class" m.lldp_class
    ▹ put_str "lldp_description" m.lldp_description
    ▹ put_str "lldp_mgmt_ip" m.lldp_mgmt_ip

-- read()
unfoldable pub fill : Platform → Object → Model → Read Model
fill p obj m =
    let (interface, d0) = list_val_keep_empty p obj "interface" m.interface in
    (
      record m {
        id = str_val p obj "id";
        managed = bool_val obj "managed";
        enable_cdp = bool_val obj "enable_cdp";
        enable_edp = bool_val obj "enable_edp";
        enable_fdp = bool_val obj "enable_fdp";
        enable_sonmp = bool_val obj "enable_sonmp";
        interface = interface;
        lldp_capabilities = bool_val obj "lldp_capabilities";
        lldp_class = int64_val p obj "lldp_class";
        lldp_description = str_val p obj "lldp_description";
        lldp_mgmt_ip = str_val p obj "lldp_mgmt_ip";
      },
      d0,
    )

abbrev pub resource : Singleton Model
resource = record {
  path = "/lldpd/config";
  label = "lldpd config";
  body = body;
  fill = fill;
  etag = λ m. m.etag;
  with_etag = λ m e. record m { etag = e };
}

module _ (set_state : Model → List Diagnostic) (p : Platform) where
  -- Create
  unfoldable pub create : Client → Decoded Model → Action (StateChange Model)
  create c plan = Singleton.create set_state p resource c plan

  -- Read
  unfoldable pub refresh : Client → Decoded Model → Action (StateChange Model)
  refresh c state = Singleton.refresh set_state p resource c state

  -- Update
  unfoldable pub update : Client → Decoded Model → Decoded Model → Action (StateChange Model)
  update c plan state = Singleton.update set_state p resource c plan state

  -- Delete
  unfoldable pub destroy : Client → Decoded Model → Action (StateChange Model)
  destroy c state = Singleton.destroy set_state p resource c state

  -- Read of the data source
  unfoldable pub look_up : Client → Decoded Model → Action (StateChange Model)
  look_up c config = DataSource.look_up set_state p (DataSource.of_singleton resource) c config
