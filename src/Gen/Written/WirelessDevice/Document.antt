-- ===== src/Gen/Written/WirelessDevice/Document.antt =====
-- internal/gen/openapi.json and internal/gen/descriptors.go: what the generator makes the fields of
-- internal/provider/wireless_device_resource.go from. Of a property it has what decides its field: its
-- type and flags.
use terraform_provider_uapi.Base.{String, true, none, List, [], ◌∷◌}
use terraform_provider_uapi.Any.{str}
use terraform_provider_uapi.Gen.Spec.{SpecProp, Descriptor, ResourceKind}
use terraform_provider_uapi.Gen.Written.Field.{prop, union, writable}

abbrev pub response : List (String × SpecProp)
response =
    ("id", prop (str "string"))
    ∷ ("managed", record (prop (str "boolean")) { read_only = true })
    ∷ ("type", prop (union ("string" ∷ "null" ∷ [])))
    ∷ ("path", prop (union ("string" ∷ "null" ∷ [])))
    ∷ ("phy", prop (union ("string" ∷ "null" ∷ [])))
    ∷ ("macaddr", prop (union ("string" ∷ "null" ∷ [])))
    ∷ ("radio", prop (union ("integer" ∷ "null" ∷ [])))
    ∷ ("band", prop (union ("string" ∷ "null" ∷ [])))
    ∷ ("channel", prop (union ("integer" ∷ "string" ∷ "null" ∷ [])))
    ∷ ("htmode", prop (union ("string" ∷ "null" ∷ [])))
    ∷ ("country", prop (union ("string" ∷ "null" ∷ [])))
    ∷ ("txpower", prop (union ("integer" ∷ "null" ∷ [])))
    ∷ ("cell_density", prop (str "integer"))
    ∷ ("legacy_rates", prop (str "boolean"))
    ∷ ("disabled", prop (str "boolean"))
    ∷ ("runtime", record (prop (str "object")) { read_only = true })
    ∷ []

-- the properties of the request, of which the generator asks only whether there are: those of the
-- response that are not read-only
abbrev pub request : List (String × SpecProp)
request = writable response

abbrev pub required_names : List String
required_names = "type" ∷ []

abbrev described : List (String × String)
described =
    (
      "channel",
      "Channel number (0-233, where 6 GHz uses up to 233) or `auto`. A numeric value may be written as a number or as its decimal text; any other string is refused by uapi.",
    )
    ∷ (
      "path",
      "Device path of the phy under /sys/devices, as `wifi config` writes it. With `macaddr` and `phy`, it binds the radio to its hardware: OpenWrt tries `path`, then `macaddr`, then `phy`, and a radio that none of them matches does not come up. Needs uapi 3.2.0 or later.",
    )
    ∷ (
      "macaddr",
      "MAC address of the phy. Older `wifi detect` configurations bind a radio with it instead of `path`. Needs uapi 3.2.0 or later.",
    )
    ∷ (
      "phy",
      "Name of the phy, as in board.json. `wifi config` writes it instead of `path` when the phy is not named phyN. Needs uapi 3.2.0 or later.",
    )
    ∷ (
      "radio",
      "Index of the radio on a phy that has several, as `wifi config` writes it. Needs uapi 3.2.0 or later.",
    )
    ∷ (
      "cell_density",
      "Basic rates by coverage cell density: 0 disabled, 1 normal, 2 high, 3 very high. Defaults to 0. Needs uapi 3.2.0 or later.",
    )
    ∷ (
      "legacy_rates",
      "Whether the legacy 802.11b rates are allowed. Defaults to false. Needs uapi 3.2.0 or later.",
    )
    ∷ []

-- the entry of commonDesc that names one of its attributes
abbrev pub common : List (String × String)
common = ("disabled", "Whether the entry is disabled.") ∷ []

abbrev pub descriptor : Descriptor
descriptor = record {
  type = "wireless_device";
  schema = "WirelessDevices";
  collection = "wireless/devices";
  kind = ResourceKind.collection;
  label = "wireless device";
  gen_data_source = true;
  nested = none;
  runtime = "";
  create_only = [];
  int_str = "channel" ∷ [];
  patch_updates = true;
  post_read_warn = "";
  descs = described;
  schema_version = 0;
}
