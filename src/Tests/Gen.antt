-- ===== src/Tests/Gen.antt =====
-- The generator at work on a small document.

use terraform_provider_uapi.Base.{
  is_some, ◌≡◌, refl, pos, String, true, false, Option, none, some, List, [], ◌∷◌, map, contains,
  All, inr, ◌==◌, if◌then◌else◌, arith,
}
use terraform_provider_uapi.Any.{
  Any, str, arr, bool, float64, nil, cons, Object, end, entry, insert, lookup,
}
use terraform_provider_uapi.Framework.{known, null as no_value}
use terraform_provider_uapi.Provider.Values.{empty_body, put_str, put_list, put_int64}
use terraform_provider_uapi.Provider.FieldScope.{FieldScope, excluded, string, number, list}
use terraform_provider_uapi.Gen.Made.{Made, made, fails}
use terraform_provider_uapi.Gen.Names.{sort_strings}
use terraform_provider_uapi.Gen.Spec.{
  type_of, int_str_union, SpecProp, SpecCond, GoType, collection, Kind, required, optcomp,
  computedbool, Field, Descriptor,
}
use terraform_provider_uapi.Gen.Field.{
  ResModel, build_resource, build_fields, build_field, plain_field, classify,
}
use terraform_provider_uapi.Gen.Scope.{
  apply_scope, read_rules, nulls_only, add_rule, switch_of, rule_values, scoped_names, set_scope,
}
use terraform_provider_uapi.Gen.Render.{Values, body_stmt, body_stmts, read_stmts}
use terraform_provider_uapi.Gen.Render.Fits.{expected}
use terraform_provider_uapi.Gen.Render.RoundTrip.{read_stmts-body_stmts}
use terraform_provider_uapi.Gen.Document.{SpecSchema, resource_of}
use terraform_provider_uapi.Gen.Attributes.{res_attr}
use terraform_provider_uapi.Gen.Attributes.Sent.{settable, body_stmts-res_attr}
use terraform_provider_uapi.Tests.Demo.{demo, demo-Lawful}

abbrev prop : Any → SpecProp
prop type = record {
  type = type;
  write_only = false;
  read_only = false;
  description = "";
  deprecated = false;
  clear_on_omit = false;
  enum = [];
}

-- an interface with a protocol and an address, and a flag that the router computes
abbrev response_props : List (String × SpecProp)
response_props =
    ("proto", record (prop (str "string")) { enum = str "static" ∷ str "dhcp" ∷ [] })
    ∷ ("addr", prop (str "string"))
    ∷ ("id", prop (str "string"))
    ∷ ("up", prop (str "boolean"))
    ∷ []

abbrev request_props : List (String × SpecProp)
request_props =
    ("proto", record (prop (str "string")) { enum = str "static" ∷ str "dhcp" ∷ [] })
    ∷ ("addr", prop (str "string"))
    ∷ []

abbrev descriptor : Descriptor
descriptor = record {
  type = "iface";
  schema = "Iface";
  collection = "ifaces";
  kind = collection;
  label = "iface";
  gen_data_source = true;
  nested = none;
  runtime = "";
  create_only = [];
  int_str = [];
  patch_updates = false;
  post_read_warn = "";
  descs = [];
  schema_version = 0;
}

abbrev made_or {ℓ} : {A : Type ℓ} → A → Made A → A
made_or a (made b) = b
made_or a (fails e) = a

abbrev nothing : ResModel
nothing = record {
  type = "";
  pascal_name = "";
  camel_name = "";
  collection = "";
  kind = collection;
  label = "";
  fields = [];
  nested = none;
  scope = none;
  gen_ds = false;
  runtime = "";
  patch_updates = false;
  post_read_warn = "";
  schema_version = 0;
}

abbrev iface : ResModel
iface = made_or nothing (build_resource [] descriptor request_props ("proto" ∷ []) response_props)

iface_fields : map (λ (f : Field). f.name) iface.fields ≡ "addr" ∷ "proto" ∷ "up" ∷ []
unfolding build_resource build_fields build_field plain_field classify sort_strings type_of
    int_str_union
iface_fields = refl

-- under DHCP the address is null
abbrev conds : List SpecCond
conds =
    record {
      condition = ("proto", record { const = str "dhcp"; enum = [] }) ∷ [];
      consequence = ("addr", prop (str "null")) ∷ [];
    }
    ∷ []

abbrev schemas : List (String × SpecSchema)
schemas =
    ("IfaceResponse", record { properties = response_props; required = []; all_of = [] })
    ∷ (
      "IfaceRequest",
      record { properties = request_props; required = "proto" ∷ []; all_of = conds },
    )
    ∷ []

abbrev scoped_iface : ResModel
scoped_iface = made_or nothing (resource_of [] schemas descriptor)

abbrev scope_or : FieldScope → Option FieldScope → FieldScope
scope_or s none = s
scope_or s (some t) = t

abbrev iface_scope : FieldScope
iface_scope = scope_or (record { field = ""; known_values = []; rules = [] }) scoped_iface.scope

excluded_run : contains (excluded iface_scope "dhcp") "addr" ≡ true
unfolding resource_of build_resource build_fields build_field plain_field classify sort_strings
    type_of int_str_union apply_scope read_rules nulls_only add_rule switch_of rule_values
    scoped_names set_scope excluded
excluded_run = refl

abbrev field : String → GoType → Kind → Field
field name type kind = record {
  name = name;
  go_name = name;
  go_type = type;
  kind = kind;
  desc = "";
  deprecated = false;
}

abbrev fields : List Field
fields =
    field "name" GoType.string required
    ∷ field "port" GoType.int64 optcomp
    ∷ field "hosts" GoType.list optcomp
    ∷ field "note" GoType.string optcomp
    ∷ field "up" GoType.bool computedbool
    ∷ []

abbrev planned : Values
planned n =
    if n == "name"
    then string (known "web")
    else if n == "port"
    then number (known (pos 80))
    else if n == "hosts"
    then list (known (known "a" ∷ []))
    else string no_value

abbrev answer : Object
answer = entry "name" (str "web") (
    entry "port" (float64 80)
      (entry "hosts" (arr (cons (str "a") nil)) (entry "up" (bool true) end)))

read_stmts-body_stmts_example :
    All
      (λ (f : Field).
        (read_stmts demo fields answer planned).0 f.name
        ≡ expected demo f.kind f.name answer (planned f.name))
      fields
    × ((read_stmts demo fields answer planned).1 ≡ [])
unfolding body_stmts body_stmt put_str put_list put_int64 insert lookup
read_stmts-body_stmts_example =
    read_stmts-body_stmts demo true fields planned answer demo-Lawful
      (refl, (refl, (refl, (refl, (refl, tt)))))
      (
        (some "web", refl),
        ((some (pos 80), refl), (inr ("a" ∷ [], refl), ((none, refl), (tt, tt)))),
      )
      (
        λ h. (str "web", refl, refl),
        (
          λ h. (float64 80, refl, (80, refl, refl)),
          (
            λ h. (arr (cons (str "a") nil), refl, refl),
            (λ h. refl, (λ h. absurd (ground arith), tt)),
          ),
        ),
      )

abbrev given : Values
given n =
    if n == "name"
    then string (known "web")
    else if n == "port"
    then number (known (pos 80))
    else if n == "hosts"
    then list (known (known "a" ∷ []))
    else string (known "x")

body_stmts-res_attr_example :
    All
      (λ (f : Field).
        is_some (lookup f.name (body_stmts demo false fields given empty_body).0)
        ≡ settable false (res_attr f))
      fields
unfolding res_attr
body_stmts-res_attr_example =
    body_stmts-res_attr demo false fields given (refl, (refl, (refl, (refl, (refl, tt)))))
      (refl, (refl, (refl, (refl, (refl, tt)))))
      (("web", refl), ((pos 80, refl), ((known "a" ∷ [], refl), (("x", refl), (tt, tt)))))
