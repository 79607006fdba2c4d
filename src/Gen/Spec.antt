-- ===== src/Gen/Spec.antt =====
-- internal/gen/main.go and descriptors.go: the parts of the OpenAPI document that the generator
-- reads, and the descriptor of a resource. A JSON map is a list of entries with distinct keys.
use terraform_provider_uapi.Base.{
  ℕ, String, Bool, false, ◌&&◌, ◌||◌, Option, none, some, List, [], ◌∷◌, ◌==◌, if◌then◌else◌,
}
use terraform_provider_uapi.Base.Text.{◌<>◌}
use terraform_provider_uapi.Any.{Any, str, arr, Anys, nil, cons}

pub record SpecProp : Type 0 where
  pub type : Any
  pub write_only : Bool
  pub read_only : Bool
  pub description : String
  pub deprecated : Bool
  pub clear_on_omit : Bool
  pub enum : List Any

-- what an `if` says of its discriminator; `const` is null where it is absent
pub record CondValue : Type 0 where
  pub const : Any
  pub enum : List String

pub record SpecCond : Type 0 where
  pub condition : List (String × CondValue)
  pub consequence : List (String × SpecProp)

-- props[name]
abbrev pub find {ℓ} : {A : Type ℓ} → String → List (String × A) → Option A
find k [] = none
find k ((j, v) ∷ m) = if j == k then some v else find k m

-- `s, _ := e.(string)`
abbrev pub text_of : Any → String
text_of (str s) = s
text_of _ = ""

unfoldable pub has_text : String → Anys → Bool
has_text s nil = false
has_text s (cons v vs) = (text_of v == s) || has_text s vs

-- the first member of a union that is not "null", if there is one
unfoldable pub first_type : Anys → String
first_type nil = "string"
first_type (cons v vs) = let rest = first_type vs in if text_of v == "null" then rest else text_of v

abbrev type_name : Any → String
type_name (str t) = t
type_name (arr vs) = if has_text "array" vs then "array" else first_type vs
type_name _ = "string"

-- typeOf
unfoldable pub type_of : SpecProp → String
unfolding has_text first_type
type_of p = type_name p.type

abbrev is_union : Any → Bool
is_union (arr vs) = has_text "integer" vs && has_text "string" vs
is_union _ = false

-- intStrUnion
unfoldable pub int_str_union : SpecProp → Bool
unfolding has_text
int_str_union p = is_union p.type

pub data GoType : Type 0 where
  string int64 bool list : GoType

-- goType
unfoldable pub go_type : SpecProp → GoType
go_type p =
    if type_of p == "integer"
    then int64
    else if type_of p == "boolean"
    then bool
    else if type_of p == "array"
    then list
    else string

-- the Kind of a resource
pub data ResourceKind : Type 0 where
  collection singleton : ResourceKind

-- the Kind of a field
pub data Kind : Type 0 where
  required optcomp optclear writeonly createonly computedbool computedstring intstr : Kind

pub record Field : Type 0 where
  pub name : String
  pub go_name : String
  pub go_type : GoType
  pub kind : Kind
  pub desc : String
  pub deprecated : Bool

pub record Nested : Type 0 where
  pub name : String
  pub go_type : String
  pub fields : List Field

pub record Descriptor : Type 0 where
  pub type : String
  pub schema : String
  pub collection : String
  pub kind : ResourceKind
  pub label : String
  pub gen_data_source : Bool
  pub nested : Option Nested
  pub runtime : String
  pub create_only : List String
  pub int_str : List String
  pub patch_updates : Bool
  pub post_read_warn : String
  pub descs : List (String × String)
  pub schema_version : ℕ

abbrev or_option : String → Option String → String
or_option field (some s) = s
or_option field none = "uci option " <> field <> "."

abbrev described : String → Option String → Option String → String
described field (some s) common = s
described field none common = or_option field common

-- descriptor.Desc, with the table commonDesc as an argument
unfoldable pub desc : List (String × String) → Descriptor → String → String
desc common d field = described field (find field d.descs) (find field common)
