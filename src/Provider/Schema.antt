-- ===== src/Provider/Schema.antt =====
-- internal/provider/schema_helpers.go and ds_helpers.go: the attributes of a schema. `replaces` and
-- `keeps_state` are the plan modifiers RequiresReplace and UseStateForUnknown.
use terraform_provider_uapi.Base.{String, Bool, true, false, ◌||◌}

pub data AttributeType : Type 0 where
  string boolean number list : AttributeType

pub record Attribute : Type 0 where
  pub type : AttributeType
  pub required : Bool
  pub optional : Bool
  pub computed : Bool
  pub sensitive : Bool
  pub replaces : Bool
  pub keeps_state : Bool
  pub description : String

-- the zero value of schema.Attribute, with its type and description
abbrev pub attribute : AttributeType → String → Attribute
attribute t desc = record {
  type = t;
  required = false;
  optional = false;
  computed = false;
  sensitive = false;
  replaces = false;
  keeps_state = false;
  description = desc;
}

-- A configuration may set the attribute.
abbrev pub is_settable : Attribute → Bool
is_settable a = a.required || a.optional

-- computedIDAttribute, optionalComputedIDAttribute, managedAttribute and etagAttribute
abbrev pub computed_id : Attribute
computed_id = record (attribute string "Stable resource id assigned by uapi (a prefixed ULID).") {
  computed = true;
  keeps_state = true;
}

abbrev pub optional_computed_id : Attribute
optional_computed_id =
    record (attribute string
      "Resource id. Set it at create to choose the uci section name (e.g. `lan`); omit it to let uapi assign a prefixed ULID. Create-only: changing it forces replacement.") {
        optional = true;
        computed = true;
        replaces = true;
        keeps_state = true;
      }

abbrev pub managed_attribute : Attribute
managed_attribute =
    record (attribute boolean "Whether the underlying uci section is uapi-managed.") {
      computed = true;
      keeps_state = true;
    }

abbrev pub etag_attribute : Attribute
etag_attribute =
    record (attribute string
      "Opaque ETag of the resource's current state, used for If-Match optimistic concurrency.") {
        computed = true;
      }

abbrev optional_computed : AttributeType → String → Attribute
optional_computed t desc = record (attribute t desc) {
  optional = true;
  computed = true;
  keeps_state = true;
}

-- optionalComputedStringList, optionalComputedString, optionalComputedBool, optionalComputedInt64
abbrev pub optional_computed_string_list : String → Attribute
optional_computed_string_list desc = optional_computed list desc

abbrev pub optional_computed_string : String → Attribute
optional_computed_string desc = optional_computed string desc

abbrev pub optional_computed_bool : String → Attribute
optional_computed_bool desc = optional_computed boolean desc

abbrev pub optional_computed_int64 : String → Attribute
optional_computed_int64 desc = optional_computed number desc

-- optionalString and optionalStringList
abbrev pub optional_string : String → Attribute
optional_string desc = record (attribute string desc) { optional = true }

abbrev pub optional_string_list : String → Attribute
optional_string_list desc = record (attribute list desc) { optional = true }

-- dsComputedString, dsComputedBool, dsComputedInt64 and dsComputedStringList
abbrev pub ds_computed_string : String → Attribute
ds_computed_string desc = record (attribute string desc) { computed = true }

abbrev pub ds_computed_bool : String → Attribute
ds_computed_bool desc = record (attribute boolean desc) { computed = true }

abbrev pub ds_computed_int64 : String → Attribute
ds_computed_int64 desc = record (attribute number desc) { computed = true }

abbrev pub ds_computed_string_list : String → Attribute
ds_computed_string_list desc = record (attribute list desc) { computed = true }

-- dsIDAttribute and dsManagedAttribute
abbrev pub ds_id_attribute : Attribute
ds_id_attribute = record (attribute string "Resource id to look up.") { required = true }

abbrev pub ds_managed_attribute : Attribute
ds_managed_attribute = ds_computed_bool "Whether the underlying uci section is uapi-managed."
