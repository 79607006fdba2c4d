-- ===== src/Resources/FirewallDefaults.antt =====
-- internal/provider/firewall_defaults_resource.go: the model of uapi_firewall_defaults, its request body and its reading.
use terraform_provider_uapi.Base.{ℤ, String, Bool, List, []}
use terraform_provider_uapi.Any.{Object}
use terraform_provider_uapi.Framework.{Attr, Diagnostic}
use terraform_provider_uapi.Platform.{Platform}
use terraform_provider_uapi.Client.World.{Action}
use terraform_provider_uapi.Client.Request.{Client}
use terraform_provider_uapi.Provider.Values.{
  Read, Body, empty_body, ◌▹◌, put_str, put_bool, put_int64, str_val, bool_val, int64_val,
}
use terraform_provider_uapi.Provider.DataSource
use terraform_provider_uapi.Provider.Singleton
use terraform_provider_uapi.Provider.Singleton.{Singleton}
use terraform_provider_uapi.Provider.Crud.{StateChange, Decoded}

pub record Model : Type 0 where
  pub id : Attr String
  pub managed : Attr Bool
  pub etag : Attr String
  pub drop_invalid : Attr Bool
  pub flow_offloading : Attr Bool
  pub flow_offloading_hw : Attr Bool
  pub forward : Attr String
  pub input : Attr String
  pub output_policy : Attr String
  pub syn_flood : Attr Bool
  pub synflood_burst : Attr ℤ
  pub synflood_rate : Attr ℤ
  pub tcp_syncookies : Attr Bool

-- body()
unfoldable pub body : Platform → Model → Body
body p m =
    empty_body
    ▹ put_bool "drop_invalid" m.drop_invalid
    ▹ put_bool "flow_offloading" m.flow_offloading
    ▹ put_bool "flow_offloading_hw" m.flow_offloading_hw
    ▹ put_str "forward" m.forward
    ▹ put_str "input" m.input
    ▹ put_str "output_policy" m.output_policy
    ▹ put_bool "syn_flood" m.syn_flood
    ▹ put_int64 "synflood_burst" m.synflood_burst
    ▹ put_int64 "synflood_rate" m.synflood_rate
    ▹ put_bool "tcp_syncookies" m.tcp_syncookies

-- read()
unfoldable pub fill : Platform → Object → Model → Read Model
fill p obj m = (
  record m {
    id = str_val p obj "id";
    managed = bool_val obj "managed";
    drop_invalid = bool_val obj "drop_invalid";
    flow_offloading = bool_val obj "flow_offloading";
    flow_offloading_hw = bool_val obj "flow_offloading_hw";
    forward = str_val p obj "forward";
    input = str_val p obj "input";
    output_policy = str_val p obj "output_policy";
    syn_flood = bool_val obj "syn_flood";
    synflood_burst = int64_val p obj "synflood_burst";
    synflood_rate = int64_val p obj "synflood_rate";
    tcp_syncookies = bool_val obj "tcp_syncookies";
  },
  [],
)

abbrev pub resource : Singleton Model
resource = record {
  path = "/firewall/defaults";
  label = "firewall defaults";
  body = body;
  fill = fill;
  etag = λ m. m.etag;
  with_etag = λ m e. record m { etag = e };
}

module _ (set_state : Model → List Diagnostic) (p : Platform) where
  -- Create
  unfoldable pub create : Client → Decoded Model → Action (StateChange Model)
  create c plan = Singleton.create set_state p resource c plan

  -- Read
  unfoldable pub refresh : Client → Decoded Model → Action (StateChange Model)
  refresh c state = Singleton.refresh set_state p resource c state

  -- Update
  unfoldable pub update : Client → Decoded Model → Decoded Model → Action (StateChange Model)
  update c plan state = Singleton.update set_state p resource c plan state

  -- Delete
  unfoldable pub destroy : Client → Decoded Model → Action (StateChange Model)
  destroy c state = Singleton.destroy set_state p resource c state

  -- Read of the data source
  unfoldable pub look_up : Client → Decoded Model → Action (StateChange Model)
  look_up c config = DataSource.look_up set_state p (DataSource.of_singleton resource) c config
