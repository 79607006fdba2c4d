-- ===== src/Gen/Written/WirelessDevice.antt =====
-- internal/provider/wireless_device_resource.go, which the generator writes: the fields that it is
-- made from, which `built` shows to be what the generator makes of the document, and its model by the
-- names of the attributes.
pub mod Document
use terraform_provider_uapi.Base.{
  ◌⊗◌, ◌≡◌, refl, true, Bool, List, [], ◌∷◌, ◌==◌, All, if◌then◌else◌,
}
use terraform_provider_uapi.Base.{String, map}
use terraform_provider_uapi.Gen.Spec.{SpecProp, type_of, int_str_union, go_type, desc}
use terraform_provider_uapi.Gen.Names.{pascal, sort_strings}
use terraform_provider_uapi.Gen.Field.{
  build_fields, build_field, plain_field, union_field, classify,
}
use terraform_provider_uapi.Gen.Written.WirelessDevice.Document.{
  response, request, required_names, descriptor, common,
}
use terraform_provider_uapi.Any.{Object}
use terraform_provider_uapi.Framework.{null}
use terraform_provider_uapi.Platform.{Platform}
use terraform_provider_uapi.Provider.Values.{empty_body, put_str}
use terraform_provider_uapi.Provider.FieldScope.{string, boolean, number}
use terraform_provider_uapi.Resources.WirelessDevice.{Model, body, fill}
use terraform_provider_uapi.Gen.Spec.{GoType, required, optcomp, intstr, Field}
use terraform_provider_uapi.Gen.Render.{Values, body_stmt, read_stmt, body_stmts, read_stmts}
use terraform_provider_uapi.Gen.Written.Field.{field, labelled}
use terraform_provider_uapi.Resources.WirelessDevice.Schema.{attributes}
use terraform_provider_uapi.Gen.Made.{made}
use terraform_provider_uapi.Gen.Attributes.{resource_attributes, res_attr}

abbrev pub fields : List Field
fields =
    field "band" GoType.string optcomp
    ∷ field "cell_density" GoType.int64 optcomp
    ∷ field "channel" GoType.string intstr
    ∷ field "country" GoType.string optcomp
    ∷ field "disabled" GoType.bool optcomp
    ∷ field "htmode" GoType.string optcomp
    ∷ field "legacy_rates" GoType.bool optcomp
    ∷ field "macaddr" GoType.string optcomp
    ∷ field "path" GoType.string optcomp
    ∷ field "phy" GoType.string optcomp
    ∷ field "radio" GoType.int64 optcomp
    ∷ field "txpower" GoType.int64 optcomp
    ∷ field "type" GoType.string required
    ∷ []

abbrev pub values : Model → Values
values m n =
    if n == "band"
    then string m.band
    else if n == "cell_density"
    then number m.cell_density
    else if n == "channel"
    then string m.channel
    else if n == "country"
    then string m.country
    else if n == "disabled"
    then boolean m.disabled
    else if n == "htmode"
    then string m.htmode
    else if n == "legacy_rates"
    then boolean m.legacy_rates
    else if n == "macaddr"
    then string m.macaddr
    else if n == "path"
    then string m.path
    else if n == "phy"
    then string m.phy
    else if n == "radio"
    then number m.radio
    else if n == "txpower"
    then number m.txpower
    else if n == "type"
    then string m.type
    else string null

pub built :
    build_fields common descriptor request required_names response
      (sort_strings (map (λ (e : String × SpecProp). e.0) response))
    ≡ made (labelled common descriptor fields)
unfolding build_fields build_field plain_field union_field classify sort_strings type_of
    int_str_union go_type pascal desc
built = refl

pub schema_lem : resource_attributes true (labelled common descriptor fields) ≡ made attributes
unfolding resource_attributes res_attr desc
schema_lem = refl

module _ (p : Platform) (m : Model) where
  pub body_lem :
      (create : Bool)
      → body p m create
        ≡ body_stmts p create fields
            (values m)
            (if create then put_str "id" m.id empty_body else empty_body)
  unfolding body body_stmts body_stmt
  body_lem create = refl

  pub fill_lem :
      (obj : Object)
      → All
          (λ (f : Field).
            values (fill p obj m).0 f.name ≡ (read_stmts p fields obj (values m)).0 f.name)
          fields
        × ((fill p obj m).1 ≡ (read_stmts p fields obj (values m)).1)
  unfolding fill read_stmts read_stmt
  fill_lem obj = (
    (refl ⊗ refl ⊗ refl ⊗ refl ⊗ refl ⊗ refl ⊗ refl ⊗ refl ⊗ refl ⊗ refl ⊗ refl ⊗ refl ⊗ refl ⊗ tt),
    refl,
  )
