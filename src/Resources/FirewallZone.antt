-- ===== src/Resources/FirewallZone.antt =====
-- internal/provider/firewall_zone_resource.go: the model of uapi_firewall_zone, its request body and its reading.
use terraform_provider_uapi.Base.{String, Bool, false, Option, List, [], if◌then◌else◌}
use terraform_provider_uapi.Any.{Object}
use terraform_provider_uapi.Framework.{Attr, ListAttr, Diagnostic}
use terraform_provider_uapi.Platform.{Platform}
use terraform_provider_uapi.Client.World.{Action}
use terraform_provider_uapi.Client.Request.{Client}
use terraform_provider_uapi.Provider.Values.{
  Read, Body, empty_body, ◌▹◌, put_str, put_bool, put_list, str_val, bool_val, list_val_keep_empty,
}
use terraform_provider_uapi.Provider.DataSource
use terraform_provider_uapi.Provider.Crud
use terraform_provider_uapi.Provider.Crud.{Resource, StateChange, Decoded}

pub record Model : Type 0 where
  pub id : Attr String
  pub managed : Attr Bool
  pub etag : Attr String
  pub family : Attr String
  pub forward : Attr String
  pub input : Attr String
  pub masq : Attr Bool
  pub mtu_fix : Attr Bool
  pub name : Attr String
  pub network : ListAttr
  pub output_policy : Attr String

-- body()
unfoldable pub body : Platform → Model → Bool → Body
body p m for_create =
    empty_body
    ▹ (λ b. if for_create then put_str "id" m.id b else b)
    ▹ put_str "family" m.family
    ▹ put_str "forward" m.forward
    ▹ put_str "input" m.input
    ▹ put_bool "masq" m.masq
    ▹ put_bool "mtu_fix" m.mtu_fix
    ▹ put_str "name" m.name
    ▹ put_list p "network" m.network
    ▹ put_str "output_policy" m.output_policy

-- read()
unfoldable pub fill : Platform → Object → Model → Read Model
fill p obj m =
    let (network, d0) = list_val_keep_empty p obj "network" m.network in
    (
      record m {
        id = str_val p obj "id";
        managed = bool_val obj "managed";
        family = str_val p obj "family";
        forward = str_val p obj "forward";
        input = str_val p obj "input";
        masq = bool_val obj "masq";
        mtu_fix = bool_val obj "mtu_fix";
        name = str_val p obj "name";
        network = network;
        output_policy = str_val p obj "output_policy";
      },
      d0,
    )

abbrev pub resource : Resource Model
resource = record {
  collection = "firewall/zones";
  label = "firewall zone";
  body = body;
  fill = fill;
  id = λ m. m.id;
  etag = λ m. m.etag;
  with_etag = λ m e. record m { etag = e };
  patches = λ plan state. false;
  warnings = λ obj. [];
}

module _ (set_state : Model → List Diagnostic) (p : Platform) where
  -- Create
  unfoldable pub create : Client → Decoded Model → Action (StateChange Model)
  create c plan = Crud.create set_state p resource c plan

  -- Read
  unfoldable pub refresh : Client → Decoded Model → Action (StateChange Model)
  refresh c state = Crud.refresh set_state p resource c state

  -- Update
  unfoldable pub update : Client → Decoded Model → Decoded Model → Action (StateChange Model)
  update c plan state = Crud.update set_state p resource c plan state

  -- Delete
  unfoldable pub destroy : Client → Decoded Model → Action (StateChange Model)
  destroy c state = Crud.destroy set_state p resource c state

  -- ImportState
  unfoldable pub import_state : Client → String → Action (Option String)
  import_state c id = Crud.import_state set_state p resource c id

  -- Read of the data source
  unfoldable pub look_up : Client → Decoded Model → Action (StateChange Model)
  look_up c config = DataSource.look_up set_state p (DataSource.of_resource resource) c config
