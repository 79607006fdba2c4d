-- ===== src/Resources/DhcpOdhcpd.antt =====
-- internal/provider/dhcp_odhcpd_resource.go: the model of uapi_dhcp_odhcpd, its request body and its reading.
use terraform_provider_uapi.Base.{ℤ, String, Bool, List, []}
use terraform_provider_uapi.Any.{Object}
use terraform_provider_uapi.Framework.{Attr, Diagnostic}
use terraform_provider_uapi.Platform.{Platform}
use terraform_provider_uapi.Client.World.{Action}
use terraform_provider_uapi.Client.Request.{Client}
use terraform_provider_uapi.Provider.Values.{
  Read, Body, empty_body, ◌▹◌, put_str, put_bool, put_int64, str_val, bool_val, int64_val,
}
use terraform_provider_uapi.Provider.DataSource
use terraform_provider_uapi.Provider.Singleton
use terraform_provider_uapi.Provider.Singleton.{Singleton}
use terraform_provider_uapi.Provider.Crud.{StateChange, Decoded}

pub record Model : Type 0 where
  pub id : Attr String
  pub managed : Attr Bool
  pub etag : Attr String
  pub leasefile : Attr String
  pub leasetrigger : Attr String
  pub loglevel : Attr ℤ
  pub maindhcp : Attr Bool

-- body()
unfoldable pub body : Platform → Model → Body
body p m =
    empty_body
    ▹ put_str "leasefile" m.leasefile
    ▹ put_str "leasetrigger" m.leasetrigger
    ▹ put_int64 "loglevel" m.loglevel
    ▹ put_bool "maindhcp" m.maindhcp

-- read()
unfoldable pub fill : Platform → Object → Model → Read Model
fill p obj m = (
  record m {
    id = str_val p obj "id";
    managed = bool_val obj "managed";
    leasefile = str_val p obj "leasefile";
    leasetrigger = str_val p obj "leasetrigger";
    loglevel = int64_val p obj "loglevel";
    maindhcp = bool_val obj "maindhcp";
  },
  [],
)

abbrev pub resource : Singleton Model
resource = record {
  path = "/dhcp/odhcpd";
  label = "odhcpd settings";
  body = body;
  fill = fill;
  etag = λ m. m.etag;
  with_etag = λ m e. record m { etag = e };
}

module _ (set_state : Model → List Diagnostic) (p : Platform) where
  -- Create
  unfoldable pub create : Client → Decoded Model → Action (StateChange Model)
  create c plan = Singleton.create set_state p resource c plan

  -- Read
  unfoldable pub refresh : Client → Decoded Model → Action (StateChange Model)
  refresh c state = Singleton.refresh set_state p resource c state

  -- Update
  unfoldable pub update : Client → Decoded Model → Decoded Model → Action (StateChange Model)
  update c plan state = Singleton.update set_state p resource c plan state

  -- Delete
  unfoldable pub destroy : Client → Decoded Model → Action (StateChange Model)
  destroy c state = Singleton.destroy set_state p resource c state

  -- Read of the data source
  unfoldable pub look_up : Client → Decoded Model → Action (StateChange Model)
  look_up c config = DataSource.look_up set_state p (DataSource.of_singleton resource) c config
