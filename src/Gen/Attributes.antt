-- ===== src/Gen/Attributes.antt =====
-- internal/gen/renderers.go: resAttr and dsAttr, the attribute that the generator writes into a
-- schema for a field. An attribute is the one that the written Go text makes.
pub mod Sent
use terraform_provider_uapi.Base.{String, Bool, true, List, [], ◌∷◌, if◌then◌else◌}
use terraform_provider_uapi.Provider.Schema.{
  computed_id, optional_computed_id, managed_attribute, etag_attribute, AttributeType, string,
  boolean, number, list, Attribute, attribute, optional_computed_string_list,
  optional_computed_string, optional_computed_bool, optional_computed_int64, optional_string,
  optional_string_list, ds_computed_string, ds_computed_bool, ds_computed_int64,
  ds_computed_string_list,
}
use terraform_provider_uapi.Gen.Made.{Fault, clear_type, write_only_type, Made, made, fails, ◌>>=◌}
use terraform_provider_uapi.Gen.Spec.{
  GoType, Kind, required, optcomp, optclear, writeonly, createonly, computedbool, computedstring,
  intstr, Field,
}

abbrev attribute_type : GoType → AttributeType
attribute_type GoType.string = string
attribute_type GoType.int64 = number
attribute_type GoType.bool = boolean
attribute_type GoType.list = list

abbrev optcomp_attr : GoType → String → Attribute
optcomp_attr GoType.list desc = optional_computed_string_list desc
optcomp_attr GoType.int64 desc = optional_computed_int64 desc
optcomp_attr GoType.bool desc = optional_computed_bool desc
optcomp_attr GoType.string desc = optional_computed_string desc

abbrev optclear_attr : GoType → String → String → Made Attribute
optclear_attr GoType.string name desc = made (optional_string desc)
optclear_attr GoType.list name desc = made (optional_string_list desc)
optclear_attr t name desc = fails (clear_type name)

abbrev secret : AttributeType → String → Attribute
secret t desc = record (attribute t desc) { optional = true; sensitive = true }

abbrev writeonly_attr : GoType → String → String → Made Attribute
writeonly_attr GoType.string name desc = made (secret string desc)
writeonly_attr GoType.list name desc = made (secret list desc)
writeonly_attr t name desc = fails (write_only_type name)

-- resAttr by the kind of a field
abbrev pub kind_attr : Kind → GoType → String → String → Made Attribute
kind_attr required t name desc =
    made (record (attribute (attribute_type t) desc) { required = true })
kind_attr optcomp t name desc = made (optcomp_attr t desc)
kind_attr intstr t name desc = made (optional_computed_string desc)
kind_attr optclear t name desc = optclear_attr t name desc
kind_attr writeonly t name desc = writeonly_attr t name desc
kind_attr createonly t name desc =
    made (record (attribute string desc) { optional = true; replaces = true })
kind_attr computedbool t name desc = made (record (attribute boolean desc) { computed = true })
kind_attr computedstring t name desc = made (record (attribute string desc) { computed = true })

-- resAttr
unfoldable pub res_attr : Field → Made Attribute
res_attr f = kind_attr f.kind f.go_type f.name f.desc

abbrev attributes_of : List Field → Made (List (String × Attribute))
attributes_of [] = made []
attributes_of (f ∷ fs) = res_attr f >>= λ a. attributes_of fs >>= λ rest. made ((f.name, a) ∷ rest)

abbrev id_attribute : Bool → Attribute
id_attribute is_collection = if is_collection then optional_computed_id else computed_id

-- The attributes of the schema of a resource that has no nested block.
unfoldable pub resource_attributes : Bool → List Field → Made (List (String × Attribute))
resource_attributes is_collection fields = attributes_of fields >>= λ rest. made (
    ("id", id_attribute is_collection)
    ∷ ("managed", managed_attribute)
    ∷ ("etag", etag_attribute)
    ∷ rest)

abbrev never_returned : String
never_returned = "Always null; never returned by the API."

abbrev ds_typed : GoType → String → Attribute
ds_typed GoType.list desc = ds_computed_string_list desc
ds_typed GoType.int64 desc = ds_computed_int64 desc
ds_typed GoType.bool desc = ds_computed_bool desc
ds_typed GoType.string desc = ds_computed_string desc

abbrev hidden : GoType → Attribute
hidden GoType.list = record (attribute list never_returned) { computed = true; sensitive = true }
hidden t = record (attribute string never_returned) { computed = true; sensitive = true }

abbrev pub kind_ds_attr : Kind → GoType → String → Attribute
kind_ds_attr writeonly t desc = hidden t
kind_ds_attr computedbool t desc = ds_computed_bool desc
kind_ds_attr k t desc = ds_typed t desc

-- dsAttr
unfoldable pub ds_attr : Field → Attribute
ds_attr f = kind_ds_attr f.kind f.go_type f.desc
