-- ===== src/Gen/Written/NetworkInterface/Document.antt =====
-- internal/gen/openapi.json and internal/gen/descriptors.go: what the generator makes the fields of
-- internal/provider/network_interface_resource.go from. Of a property it has what decides its field: its
-- type and flags.
use terraform_provider_uapi.Base.{String, true, false, none, List, [], ◌∷◌}
use terraform_provider_uapi.Any.{str}
use terraform_provider_uapi.Gen.Spec.{SpecProp, Descriptor, ResourceKind}
use terraform_provider_uapi.Gen.Written.Field.{prop, union, writable}

abbrev pub response : List (String × SpecProp)
response =
    ("id", prop (str "string"))
    ∷ ("managed", record (prop (str "boolean")) { read_only = true })
    ∷ ("device", prop (union ("string" ∷ "null" ∷ [])))
    ∷ ("proto", prop (str "string"))
    ∷ ("dns", prop (union ("array" ∷ "null" ∷ [])))
    ∷ ("ip6assign", prop (union ("integer" ∷ "null" ∷ [])))
    ∷ ("ip6hint", prop (union ("string" ∷ "null" ∷ [])))
    ∷ ("ip6ifaceid", prop (union ("string" ∷ "null" ∷ [])))
    ∷ ("ip6class", prop (union ("array" ∷ "null" ∷ [])))
    ∷ ("ip6weight", prop (union ("integer" ∷ "null" ∷ [])))
    ∷ ("mtu", prop (union ("integer" ∷ "null" ∷ [])))
    ∷ ("auto", prop (str "boolean"))
    ∷ ("disabled", prop (str "boolean"))
    ∷ ("ip4table", prop (union ("string" ∷ "null" ∷ [])))
    ∷ ("ip6table", prop (union ("string" ∷ "null" ∷ [])))
    ∷ ("metric", prop (union ("integer" ∷ "null" ∷ [])))
    ∷ ("defaultroute", prop (union ("boolean" ∷ "null" ∷ [])))
    ∷ ("delegate", prop (union ("boolean" ∷ "null" ∷ [])))
    ∷ ("runtime", record (prop (str "object")) { read_only = true })
    ∷ ("ipaddr", record (prop (union ("string" ∷ "null" ∷ []))) { read_only = true })
    ∷ ("ipaddrs", prop (union ("array" ∷ "null" ∷ [])))
    ∷ ("ip6addrs", prop (union ("array" ∷ "null" ∷ [])))
    ∷ ("netmask", record (prop (union ("string" ∷ "null" ∷ []))) { clear_on_omit = true })
    ∷ ("broadcast", record (prop (union ("string" ∷ "null" ∷ []))) { clear_on_omit = true })
    ∷ ("ip6gw", record (prop (union ("string" ∷ "null" ∷ []))) { clear_on_omit = true })
    ∷ ("ip6prefix", record (prop (union ("array" ∷ "null" ∷ []))) { clear_on_omit = true })
    ∷ ("gateway", record (prop (union ("string" ∷ "null" ∷ []))) { clear_on_omit = true })
    ∷ ("addresses", prop (union ("array" ∷ "null" ∷ [])))
    ∷ ("private_key", record (prop (str "string")) { write_only = true })
    ∷ ("has_private_key", record (prop (str "boolean")) { read_only = true })
    ∷ ("listen_port", prop (union ("integer" ∷ "null" ∷ [])))
    ∷ ("nohostroute", prop (str "boolean"))
    ∷ ("peerdns", prop (union ("boolean" ∷ "null" ∷ [])))
    ∷ ("broadcast_flag", prop (union ("boolean" ∷ "null" ∷ [])))
    ∷ ("hostname", prop (union ("string" ∷ "null" ∷ [])))
    ∷ ("clientid", prop (union ("string" ∷ "null" ∷ [])))
    ∷ ("reqprefix", prop (union ("string" ∷ "null" ∷ [])))
    ∷ ("reqaddress", prop (union ("string" ∷ "null" ∷ [])))
    ∷ ("sourcefilter", prop (union ("boolean" ∷ "null" ∷ [])))
    ∷ []

-- the properties of the request, of which the generator asks only whether there are: those of the
-- response that are not read-only
abbrev pub request : List (String × SpecProp)
request = writable response

abbrev pub required_names : List String
required_names = "proto" ∷ []

abbrev pub descriptor : List (String × String) → Descriptor
descriptor descs = record {
  type = "network_interface";
  schema = "NetworkInterfaces";
  collection = "network/interfaces";
  kind = ResourceKind.collection;
  label = "network interface";
  gen_data_source = true;
  nested = none;
  runtime = "interface";
  create_only = [];
  int_str = [];
  patch_updates = false;
  post_read_warn = "";
  descs = descs;
  schema_version = 1;
}
