-- ===== src/Gen/Field.antt =====
-- internal/gen/main.go: buildResource, which takes the properties of a response as the attributes
-- of a resource.
pub mod Kinds
use terraform_provider_uapi.Base.{
  ℕ, String, Bool, true, false, ◌&&◌, ◌||◌, not, Option, none, some, is_some, List, [], ◌∷◌, ◌++◌,
  ◌==◌, map, if◌then◌else◌, contains,
}
use terraform_provider_uapi.Base.Text.{is_empty}
use terraform_provider_uapi.Provider.FieldScope.{FieldScope}
use terraform_provider_uapi.Gen.Made.{
  Fault, union_undeclared, union_flagged, union_required, union_deprecated, no_computed_emission,
  deprecated_field, clear_on_singleton, Made, made, fails, ◌>>=◌, ◌>>◌,
}
use terraform_provider_uapi.Gen.Names.{pascal, camel, sort_strings}
use terraform_provider_uapi.Gen.Spec.{
  SpecProp, find, type_of, int_str_union, GoType, string, bool, go_type, ResourceKind, collection,
  singleton, Kind, required, optcomp, optclear, writeonly, createonly, computedbool, computedstring,
  intstr, Field, Nested, Descriptor, desc,
}

pub record ResModel : Type 0 where
  pub type : String
  pub pascal_name : String
  pub camel_name : String
  pub collection : String
  pub kind : ResourceKind
  pub label : String
  pub fields : List Field
  pub nested : Option Nested
  pub scope : Option FieldScope
  pub gen_ds : Bool
  pub runtime : String
  pub patch_updates : Bool
  pub post_read_warn : String
  pub schema_version : ℕ

abbrev pub is_singleton : ResourceKind → Bool
is_singleton singleton = true
is_singleton collection = false

abbrev pub is_clear : Kind → Bool
is_clear optclear = true
is_clear _ = false

-- `if … { fail(…) }`
abbrev unless_fails : Bool → Fault → Made (Unit {0})
unless_fails true e = fails e
unless_fails false e = made tt

-- the names that get no attribute: `continue` at the head of the loop
abbrev pub is_skipped : String → SpecProp → Bool
is_skipped n p = n == "id" || (n == "managed" || (n == "runtime" || type_of p == "object"))

module _ (common : List (String × String)) (d : Descriptor) (writable : List (String × SpecProp))
    (required_names : List String) where
  -- req[n]
  abbrev pub is_required : String → Bool
  is_required n = contains required_names n && not (n == "match")

  -- `p.ReadOnly = true` for what the request schema lacks
  abbrev pub effective : String → SpecProp → SpecProp
  effective n p = if is_some (find n writable) then p else record p { read_only = true }

  abbrev blank : String → SpecProp → GoType → Kind → Field
  blank n p t k = record {
    name = n;
    go_name = pascal n;
    go_type = t;
    kind = k;
    desc = desc common d n;
    deprecated = p.deprecated;
  }

  -- a create-only field, described by the document where it says something
  abbrev create_only_field : String → SpecProp → Field
  create_only_field n p = record (blank n p string createonly) {
    desc = if is_empty p.description then desc common d n else p.description;
  }

  -- the branch of an integer-or-string union
  unfoldable pub union_field : String → SpecProp → Made Field
  union_field n p = do
    unless_fails (not (contains d.int_str n)) (union_undeclared n d.type)
    unless_fails (p.read_only || p.write_only) (union_flagged n d.type)
    unless_fails (is_required n) (union_required n d.type)
    unless_fails p.deprecated (union_deprecated n d.type)
    made (blank n p string intstr)

  -- the computed emission of a read-only property
  abbrev computed : String → SpecProp → Made (GoType × Kind)
  computed n p =
      if type_of p == "boolean"
      then made (bool, computedbool)
      else if type_of p == "string"
      then made (string, computedstring)
      else fails (no_computed_emission n d.type (type_of p))

  -- the `switch` over the flags
  unfoldable pub classify : String → SpecProp → Made (GoType × Kind)
  classify n p =
      if p.read_only
      then computed n p
      else if p.write_only
      then made (go_type p, writeonly)
      else if is_required n
      then made (go_type p, required)
      else if p.clear_on_omit
      then made (go_type p, optclear)
      else made (go_type p, optcomp)

  -- the branch of every other property
  unfoldable pub plain_field : String → SpecProp → Made Field
  plain_field n p = do
    (t, k) ← classify n p
    unless_fails p.deprecated (deprecated_field n d.type)
    unless_fails (is_clear k && is_singleton d.kind) (clear_on_singleton n d.type)
    made (blank n p t k)

  -- the loop's body for a name that gets an attribute
  unfoldable pub build_field : String → SpecProp → Made Field
  build_field n p =
      if contains d.create_only n
      then made (create_only_field n p)
      else if int_str_union p
      then union_field n p
      else plain_field n p

  abbrev kept_field : String → Option SpecProp → Made (List Field)
  kept_field n none = made []
  kept_field n (some p) =
      if is_skipped n p then made [] else (do f ← build_field n (effective n p); made (f ∷ []))

  -- the loop over the sorted names
  unfoldable pub build_fields : List (String × SpecProp) → List String → Made (List Field)
  build_fields props [] = made []
  build_fields props (n ∷ ns) = do
    fs ← kept_field n (find n props)
    rest ← build_fields props ns
    made (fs ++ rest)

  unfoldable pub build_resource : List (String × SpecProp) → Made ResModel
  build_resource props = do
    fs ← build_fields props (sort_strings (map (λ (e : String × SpecProp). e.0) props))
    made (record {
      type = d.type;
      pascal_name = pascal d.type;
      camel_name = camel d.type;
      collection = d.collection;
      kind = d.kind;
      label = d.label;
      fields = fs;
      nested = d.nested;
      scope = none;
      gen_ds = d.gen_data_source;
      runtime = d.runtime;
      patch_updates = d.patch_updates;
      post_read_warn = d.post_read_warn;
      schema_version = d.schema_version;
    })
