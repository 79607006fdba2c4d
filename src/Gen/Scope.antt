-- ===== src/Gen/Scope.antt =====
-- internal/gen/scope.go: applyScope, which reads from the document the fields that some values of
-- a discriminator do not take. The scope is the table that renderScope writes into the resource
-- file, where internal/provider/field_scope.go applies it.
pub mod Nulls
pub mod Fields
pub mod Unnamed
use terraform_provider_uapi.Base.{
  ℕ, suc, String, Bool, true, false, ◌&&◌, ◌||◌, not, Option, none, some, List, [], ◌∷◌, ◌++◌, ◌==◌,
  map, length, any, nat_eq, if◌then◌else◌, contains,
}
use terraform_provider_uapi.Base.Text.{◌<>◌, is_empty}
use terraform_provider_uapi.Any.{Any, null, str}
use terraform_provider_uapi.Provider.FieldScope.{FieldScope, ScopeRule}
use terraform_provider_uapi.Gen.Made.{
  Fault, mixed_entry, many_discriminators, two_discriminators, const_not_text, scopes_unwritable,
  no_enum, enum_not_text, never_taken, Made, made, fails, ◌>>=◌, ◌>>◌,
}
use terraform_provider_uapi.Gen.Names.{join_and, sort_strings}
use terraform_provider_uapi.Gen.Spec.{
  SpecProp, CondValue, SpecCond, find, type_of, Kind, computedbool, computedstring, Field,
}
use terraform_provider_uapi.Gen.Field.{ResModel}

abbrev pub is_null_prop : String × SpecProp → Bool
is_null_prop (name, p) = type_of p == "null"

abbrev pub is_other_prop : String × SpecProp → Bool
is_other_prop e = not (is_null_prop e)

-- nullsOnly
unfoldable pub nulls_only : String → SpecCond → Made Bool
nulls_only type c =
    if any is_null_prop c.consequence && any is_other_prop c.consequence
    then fails (mixed_entry type)
    else made (any is_null_prop c.consequence)

abbrev pub is_computed : Kind → Bool
is_computed computedbool = true
is_computed computedstring = true
is_computed _ = false

-- writable[name]
abbrev pub is_writable : List Field → String → Bool
is_writable fields name = any (λ (f : Field). not (is_computed f.kind) && f.name == name) fields

abbrev pub const_values : String → String → List String → Any → Made (List String)
const_values type name enum null = made enum
const_values type name enum (str s) = made (s ∷ [])
const_values type name enum other = fails (const_not_text type name other)

-- the values of a rule
unfoldable pub rule_values : String → String → CondValue → Made (List String)
rule_values type name v = const_values type name v.enum v.const

-- the loop over the fields that an entry nulls
unfoldable pub scoped_names : String → List Field → List (String × SpecProp) → Made (List String)
scoped_names type fields [] = made []
scoped_names type fields ((name, p) ∷ rest) =
    if is_writable fields name
    then (do names ← scoped_names type fields rest; made (name ∷ names))
    else fails (scopes_unwritable type name)

-- the discriminator that an entry switches on
unfoldable pub switch_of : String → String → List (String × CondValue) → Made (String × CondValue)
switch_of type field ((name, v) ∷ []) =
    if not (is_empty field) && not (field == name)
    then fails (two_discriminators type field name)
    else made (name, v)
switch_of type field entries = fails (many_discriminators type (length entries))

-- the table so far: its discriminator, "" for none, and its rules
abbrev pub Table : Type 0
Table = String × List ScopeRule

-- the loop's body behind nullsOnly
unfoldable pub add_rule : String → List Field → SpecCond → Table → Made Table
add_rule type fields c (field, rules) = do
  (name, v) ← switch_of type field c.condition
  values ← rule_values type name v
  names ← scoped_names type fields c.consequence
  made (name, rules ++ record { values = values; fields = sort_strings names } ∷ [])

abbrev pub step : String → List Field → SpecCond → Bool → Table → Made Table
step type fields c true t = add_rule type fields c t
step type fields c false t = made t

-- the loop over the entries
unfoldable pub read_rules : String → List Field → List SpecCond → Table → Made Table
read_rules type fields [] t = made t
read_rules type fields (c ∷ cs) t = do
  nulls ← nulls_only type c
  t' ← step type fields c nulls t
  read_rules type fields cs t'

-- the loop over the enum of the discriminator
unfoldable pub known_values : String → String → List Any → Made (List String)
known_values type field [] = made []
known_values type field (str s ∷ vs) = do rest ← known_values type field vs; made (s ∷ rest)
known_values type field (v ∷ vs) = fails (enum_not_text type field v)

-- Whether some rule nulls a field at a value: excluded[v].
abbrev pub nulls_at : List ScopeRule → String → String → Bool
nulls_at rules field v =
    any (λ (r : ScopeRule). contains r.fields field && contains r.values v) rules

-- whether `excluded` is empty for a field
abbrev pub is_free_field : List ScopeRule → String → Bool
is_free_field rules field =
    not (any (λ (r : ScopeRule). contains r.fields field && not (nat_eq (length r.values) 0)) rules)

abbrev pub takes : List ScopeRule → String → List String → List String
takes rules field [] = []
takes rules field (v ∷ vs) =
    let rest = takes rules field vs in
    if nulls_at rules field v then rest else ("`" <> v <> "`") ∷ rest

-- the field with the values that take it in its description
abbrev pub annotated : String → String → Field → List String → Made Field
annotated type discriminator f [] = fails (never_taken type discriminator f.name)
annotated type discriminator f (v ∷ vs) = made (record f {
  desc = f.desc <> " Applies only to " <> discriminator <> " " <> join_and (v ∷ vs) <> ".";
})

-- the loop over the fields
unfoldable pub annotate :
    String → String → List ScopeRule → List String → List Field → Made (List Field)
annotate type discriminator rules known [] = made []
annotate type discriminator rules known (f ∷ fs) = do
  f' ←
      if is_free_field rules f.name
      then made f
      else annotated type discriminator f (takes rules f.name known)
  fs' ← annotate type discriminator rules known fs
  made (f' ∷ fs')

abbrev pub enum_of : Option SpecProp → List Any
enum_of none = []
enum_of (some p) = p.enum

-- applyScope behind the reading of the entries
unfoldable pub set_scope : ResModel → List (String × SpecProp) → Table → Made ResModel
unfolding annotate known_values
set_scope r props (discriminator, rules) =
    if is_empty discriminator
    then made r
    else if nat_eq (length (enum_of (find discriminator props))) 0
    then fails (no_enum r.type discriminator)
    else (do
      known ← known_values r.type discriminator (enum_of (find discriminator props))
      fields ← annotate r.type discriminator rules known r.fields
      made (record r {
        fields = fields;
        scope = some (record { field = discriminator; known_values = known; rules = rules });
      }))

-- applyScope
unfoldable pub apply_scope : ResModel → List SpecCond → List (String × SpecProp) → Made ResModel
apply_scope r conds props = do
  table ← read_rules r.type r.fields conds ("", [])
  set_scope r props table
