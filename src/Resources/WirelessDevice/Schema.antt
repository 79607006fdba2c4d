-- ===== src/Resources/WirelessDevice/Schema.antt =====
-- internal/provider/wireless_device_resource.go: the attributes of its schema.
use terraform_provider_uapi.Base.{String, true, List, [], ◌∷◌}
use terraform_provider_uapi.Provider.Schema.{
  Attribute, attribute, etag_attribute, managed_attribute, optional_computed_bool,
  optional_computed_id, optional_computed_int64, optional_computed_string, string,
}

abbrev pub attributes : List (String × Attribute)
attributes =
    ("id", optional_computed_id)
    ∷ ("managed", managed_attribute)
    ∷ ("etag", etag_attribute)
    ∷ ("band", optional_computed_string "uci option band.")
    ∷ (
      "cell_density",
      optional_computed_int64
          "Basic rates by coverage cell density: 0 disabled, 1 normal, 2 high, 3 very high. Defaults to 0. Needs uapi 3.2.0 or later.",
    )
    ∷ (
      "channel",
      optional_computed_string
          "Channel number (0-233, where 6 GHz uses up to 233) or `auto`. A numeric value may be written as a number or as its decimal text; any other string is refused by uapi.",
    )
    ∷ ("country", optional_computed_string "uci option country.")
    ∷ ("disabled", optional_computed_bool "Whether the entry is disabled.")
    ∷ ("htmode", optional_computed_string "uci option htmode.")
    ∷ (
      "legacy_rates",
      optional_computed_bool
          "Whether the legacy 802.11b rates are allowed. Defaults to false. Needs uapi 3.2.0 or later.",
    )
    ∷ (
      "macaddr",
      optional_computed_string
          "MAC address of the phy. Older `wifi detect` configurations bind a radio with it instead of `path`. Needs uapi 3.2.0 or later.",
    )
    ∷ (
      "path",
      optional_computed_string
          "Device path of the phy under /sys/devices, as `wifi config` writes it. With `macaddr` and `phy`, it binds the radio to its hardware: OpenWrt tries `path`, then `macaddr`, then `phy`, and a radio that none of them matches does not come up. Needs uapi 3.2.0 or later.",
    )
    ∷ (
      "phy",
      optional_computed_string
          "Name of the phy, as in board.json. `wifi config` writes it instead of `path` when the phy is not named phyN. Needs uapi 3.2.0 or later.",
    )
    ∷ (
      "radio",
      optional_computed_int64
          "Index of the radio on a phy that has several, as `wifi config` writes it. Needs uapi 3.2.0 or later.",
    )
    ∷ ("txpower", optional_computed_int64 "uci option txpower.")
    ∷ ("type", record (attribute string "uci option type.") { required = true })
    ∷ []
