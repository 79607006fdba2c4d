-- ===== src/Resources/WirelessInterface.antt =====
-- internal/provider/wireless_interface_resource.go: the model of uapi_wireless_interface, its request body and its reading.
use terraform_provider_uapi.Base.{ℤ, String, Bool, true, Option, List, [], if◌then◌else◌}
use terraform_provider_uapi.Any.{Object}
use terraform_provider_uapi.Framework.{Attr, ListAttr, Diagnostic}
use terraform_provider_uapi.Platform.{Platform}
use terraform_provider_uapi.Client.World.{Action}
use terraform_provider_uapi.Client.Request.{Client}
use terraform_provider_uapi.Provider.Values.{
  Read, Body, empty_body, ◌▹◌, put_str, put_bool, put_int64, put_list, str_val, bool_val,
  bool_val_default, int64_val,
}
use terraform_provider_uapi.Provider.Crud
use terraform_provider_uapi.Provider.Crud.{Resource, StateChange, Decoded}

pub record Model : Type 0 where
  pub id : Attr String
  pub managed : Attr Bool
  pub etag : Attr String
  pub device : Attr String
  pub disabled : Attr Bool
  pub encryption : Attr String
  pub ft_over_ds : Attr Bool
  pub ft_psk_generate_local : Attr Bool
  pub has_key : Attr Bool
  pub has_r0kh : Attr Bool
  pub has_r1kh : Attr Bool
  pub hidden : Attr Bool
  pub ieee80211r : Attr Bool
  pub isolate : Attr Bool
  pub key : Attr String
  pub mobility_domain : Attr String
  pub mode : Attr String
  pub nasid : Attr String
  pub network : Attr String
  pub pmk_r1_push : Attr Bool
  pub r0_key_lifetime : Attr ℤ
  pub r0kh : ListAttr
  pub r1_key_holder : Attr String
  pub r1kh : ListAttr
  pub reassociation_deadline : Attr ℤ
  pub ssid : Attr String

-- body()
unfoldable pub body : Platform → Model → Bool → Body
body p m for_create =
    empty_body
    ▹ (λ b. if for_create then put_str "id" m.id b else b)
    ▹ put_str "device" m.device
    ▹ put_bool "disabled" m.disabled
    ▹ put_str "encryption" m.encryption
    ▹ put_bool "ft_over_ds" m.ft_over_ds
    ▹ put_bool "ft_psk_generate_local" m.ft_psk_generate_local
    ▹ put_bool "hidden" m.hidden
    ▹ put_bool "ieee80211r" m.ieee80211r
    ▹ put_bool "isolate" m.isolate
    ▹ put_str "key" m.key
    ▹ put_str "mobility_domain" m.mobility_domain
    ▹ put_str "mode" m.mode
    ▹ put_str "nasid" m.nasid
    ▹ put_str "network" m.network
    ▹ put_bool "pmk_r1_push" m.pmk_r1_push
    ▹ put_int64 "r0_key_lifetime" m.r0_key_lifetime
    ▹ put_list p "r0kh" m.r0kh
    ▹ put_str "r1_key_holder" m.r1_key_holder
    ▹ put_list p "r1kh" m.r1kh
    ▹ put_int64 "reassociation_deadline" m.reassociation_deadline
    ▹ put_str "ssid" m.ssid

-- read()
unfoldable pub fill : Platform → Object → Model → Read Model
fill p obj m = (
  record m {
    id = str_val p obj "id";
    managed = bool_val obj "managed";
    device = str_val p obj "device";
    disabled = bool_val obj "disabled";
    encryption = str_val p obj "encryption";
    ft_over_ds = bool_val obj "ft_over_ds";
    ft_psk_generate_local = bool_val obj "ft_psk_generate_local";
    has_key = bool_val_default obj "has_key";
    has_r0kh = bool_val_default obj "has_r0kh";
    has_r1kh = bool_val_default obj "has_r1kh";
    hidden = bool_val obj "hidden";
    ieee80211r = bool_val obj "ieee80211r";
    isolate = bool_val obj "isolate";
    mobility_domain = str_val p obj "mobility_domain";
    mode = str_val p obj "mode";
    nasid = str_val p obj "nasid";
    network = str_val p obj "network";
    pmk_r1_push = bool_val obj "pmk_r1_push";
    r0_key_lifetime = int64_val p obj "r0_key_lifetime";
    r1_key_holder = str_val p obj "r1_key_holder";
    reassociation_deadline = int64_val p obj "reassociation_deadline";
    ssid = str_val p obj "ssid";
  },
  [],
)

abbrev pub resource : Resource Model
resource = record {
  collection = "wireless/interfaces";
  label = "wireless interface";
  body = body;
  fill = fill;
  id = λ m. m.id;
  etag = λ m. m.etag;
  with_etag = λ m e. record m { etag = e };
  patches = λ plan state. true;
  warnings = λ obj. [];
}

module _ (set_state : Model → List Diagnostic) (p : Platform) where
  -- Create
  unfoldable pub create : Client → Decoded Model → Action (StateChange Model)
  create c plan = Crud.create set_state p resource c plan

  -- Read
  unfoldable pub refresh : Client → Decoded Model → Action (StateChange Model)
  refresh c state = Crud.refresh set_state p resource c state

  -- Update
  unfoldable pub update : Client → Decoded Model → Decoded Model → Action (StateChange Model)
  update c plan state = Crud.update set_state p resource c plan state

  -- Delete
  unfoldable pub destroy : Client → Decoded Model → Action (StateChange Model)
  destroy c state = Crud.destroy set_state p resource c state

  -- ImportState
  unfoldable pub import_state : Client → String → Action (Option String)
  import_state c id = Crud.import_state set_state p resource c id
