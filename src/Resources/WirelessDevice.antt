-- ===== src/Resources/WirelessDevice.antt =====
-- internal/provider/wireless_device_resource.go: the model of uapi_wireless_device, its request body and its reading.
pub mod Schema
use terraform_provider_uapi.Base.{ℤ, String, Bool, true, Option, List, [], if◌then◌else◌}
use terraform_provider_uapi.Any.{Object}
use terraform_provider_uapi.Framework.{Attr, Diagnostic}
use terraform_provider_uapi.Platform.{Platform}
use terraform_provider_uapi.Client.World.{Action}
use terraform_provider_uapi.Client.Request.{Client}
use terraform_provider_uapi.Provider.Values.{
  Read, Body, empty_body, ◌▹◌, put_str, put_bool, put_int64, put_int_or_str, str_val, bool_val,
  int64_val,
}
use terraform_provider_uapi.Provider.DataSource
use terraform_provider_uapi.Provider.Crud
use terraform_provider_uapi.Provider.Crud.{Resource, StateChange, Decoded}

pub record Model : Type 0 where
  pub id : Attr String
  pub managed : Attr Bool
  pub etag : Attr String
  pub band : Attr String
  pub cell_density : Attr ℤ
  pub channel : Attr String
  pub country : Attr String
  pub disabled : Attr Bool
  pub htmode : Attr String
  pub legacy_rates : Attr Bool
  pub macaddr : Attr String
  pub path : Attr String
  pub phy : Attr String
  pub radio : Attr ℤ
  pub txpower : Attr ℤ
  pub type : Attr String

-- body()
unfoldable pub body : Platform → Model → Bool → Body
body p m for_create =
    empty_body
    ▹ (λ b. if for_create then put_str "id" m.id b else b)
    ▹ put_str "band" m.band
    ▹ put_int64 "cell_density" m.cell_density
    ▹ put_int_or_str "channel" m.channel
    ▹ put_str "country" m.country
    ▹ put_bool "disabled" m.disabled
    ▹ put_str "htmode" m.htmode
    ▹ put_bool "legacy_rates" m.legacy_rates
    ▹ put_str "macaddr" m.macaddr
    ▹ put_str "path" m.path
    ▹ put_str "phy" m.phy
    ▹ put_int64 "radio" m.radio
    ▹ put_int64 "txpower" m.txpower
    ▹ put_str "type" m.type

-- read()
unfoldable pub fill : Platform → Object → Model → Read Model
fill p obj m = (
  record m {
    id = str_val p obj "id";
    managed = bool_val obj "managed";
    band = str_val p obj "band";
    cell_density = int64_val p obj "cell_density";
    channel = str_val p obj "channel";
    country = str_val p obj "country";
    disabled = bool_val obj "disabled";
    htmode = str_val p obj "htmode";
    legacy_rates = bool_val obj "legacy_rates";
    macaddr = str_val p obj "macaddr";
    path = str_val p obj "path";
    phy = str_val p obj "phy";
    radio = int64_val p obj "radio";
    txpower = int64_val p obj "txpower";
    type = str_val p obj "type";
  },
  [],
)

abbrev pub resource : Resource Model
resource = record {
  collection = "wireless/devices";
  label = "wireless device";
  body = body;
  fill = fill;
  id = λ m. m.id;
  etag = λ m. m.etag;
  with_etag = λ m e. record m { etag = e };
  patches = λ plan state. true;
  warnings = λ obj. [];
}

module _ (set_state : Model → List Diagnostic) (p : Platform) where
  -- Create
  unfoldable pub create : Client → Decoded Model → Action (StateChange Model)
  create c plan = Crud.create set_state p resource c plan

  -- Read
  unfoldable pub refresh : Client → Decoded Model → Action (StateChange Model)
  refresh c state = Crud.refresh set_state p resource c state

  -- Update
  unfoldable pub update : Client → Decoded Model → Decoded Model → Action (StateChange Model)
  update c plan state = Crud.update set_state p resource c plan state

  -- Delete
  unfoldable pub destroy : Client → Decoded Model → Action (StateChange Model)
  destroy c state = Crud.destroy set_state p resource c state

  -- ImportState
  unfoldable pub import_state : Client → String → Action (Option String)
  import_state c id = Crud.import_state set_state p resource c id

  -- Read of the data source
  unfoldable pub look_up : Client → Decoded Model → Action (StateChange Model)
  look_up c config = DataSource.look_up set_state p (DataSource.of_resource resource) c config
