-- ===== src/DataSources/WirelessInterface.antt =====
-- internal/provider/wireless_interface_data_source.go: the data source of a wireless interface, with its live state.
use terraform_provider_uapi.Base.{ℤ, String, Bool, List}
use terraform_provider_uapi.Base.Text.{◌<>◌}
use terraform_provider_uapi.Framework.{Attr, null, known, ListAttr, Diagnostic, value_string}
use terraform_provider_uapi.Platform.{Platform}
use terraform_provider_uapi.Client.World.{Action}
use terraform_provider_uapi.Client.Request.{Client}
use terraform_provider_uapi.Provider.Values.{Read}
use terraform_provider_uapi.Provider.Crud.{StateChange, Decoded}
use terraform_provider_uapi.Provider.DataSource
use terraform_provider_uapi.Provider.DataSource.{Source}
use terraform_provider_uapi.Resources.WirelessInterface
use terraform_provider_uapi.DataSources.Runtime.{
  WirelessInterfaceRuntime, parse_wireless_interface_runtime,
}

pub record Model : Type 0 where
  pub id : Attr String
  pub managed : Attr Bool
  pub etag : Attr String
  pub device : Attr String
  pub disabled : Attr Bool
  pub encryption : Attr String
  pub ft_over_ds : Attr Bool
  pub ft_psk_generate_local : Attr Bool
  pub has_key : Attr Bool
  pub has_r0kh : Attr Bool
  pub has_r1kh : Attr Bool
  pub hidden : Attr Bool
  pub ieee80211r : Attr Bool
  pub isolate : Attr Bool
  pub key : Attr String
  pub mobility_domain : Attr String
  pub mode : Attr String
  pub nasid : Attr String
  pub network : Attr String
  pub pmk_r1_push : Attr Bool
  pub r0_key_lifetime : Attr ℤ
  pub r0kh : ListAttr
  pub r1_key_holder : Attr String
  pub r1kh : ListAttr
  pub reassociation_deadline : Attr ℤ
  pub ssid : Attr String
  pub runtime : WirelessInterfaceRuntime

-- the zero value of the resource's model
abbrev blank : WirelessInterface.Model
blank = record {
  id = null;
  managed = null;
  etag = null;
  device = null;
  disabled = null;
  encryption = null;
  ft_over_ds = null;
  ft_psk_generate_local = null;
  has_key = null;
  has_r0kh = null;
  has_r1kh = null;
  hidden = null;
  ieee80211r = null;
  isolate = null;
  key = null;
  mobility_domain = null;
  mode = null;
  nasid = null;
  network = null;
  pmk_r1_push = null;
  r0_key_lifetime = null;
  r0kh = null;
  r1_key_holder = null;
  r1kh = null;
  reassociation_deadline = null;
  ssid = null;
}

-- the state of an object that the resource reads as `base`
abbrev from_base : WirelessInterfaceRuntime → WirelessInterface.Model → Model
from_base runtime base = record {
  id = base.id;
  managed = base.managed;
  etag = base.etag;
  device = base.device;
  disabled = base.disabled;
  encryption = base.encryption;
  ft_over_ds = base.ft_over_ds;
  ft_psk_generate_local = base.ft_psk_generate_local;
  has_key = base.has_key;
  has_r0kh = base.has_r0kh;
  has_r1kh = base.has_r1kh;
  hidden = base.hidden;
  ieee80211r = base.ieee80211r;
  isolate = base.isolate;
  key = base.key;
  mobility_domain = base.mobility_domain;
  mode = base.mode;
  nasid = base.nasid;
  network = base.network;
  pmk_r1_push = base.pmk_r1_push;
  r0_key_lifetime = base.r0_key_lifetime;
  r0kh = null;
  r1_key_holder = base.r1_key_holder;
  r1kh = null;
  reassociation_deadline = base.reassociation_deadline;
  ssid = base.ssid;
  runtime = runtime;
}

abbrev read_base : WirelessInterfaceRuntime → String → Read WirelessInterface.Model → Read Model
read_base runtime etag r = (from_base runtime (record r.0 { etag = known etag }), r.1)

-- the Read, from the id of the configuration
abbrev pub source : Source (Attr String) Model
source = record {
  path = λ id. "/" <> WirelessInterface.resource.collection <> "/" <> value_string id;
  failure = "Error reading wireless interface";
  missing_summary = "wireless interface not found";
  missing_detail = λ id. "not found";
  fill = λ p obj etag id.
      read_base (parse_wireless_interface_runtime p obj) etag (WirelessInterface.fill p obj blank);
}

-- Read
unfoldable pub look_up :
    (Model → List Diagnostic)
    → Platform
    → Client
    → Decoded (Attr String)
    → Action (StateChange Model)
look_up set_state p c id = DataSource.look_up set_state p source c id
