-- ===== src/Gen/Written/NetworkInterface.antt =====
-- internal/provider/network_interface_resource.go, which the generator writes: the fields that it is
-- made from, which `built` shows to be what the generator makes of the document, and its model by the
-- names of the attributes.
pub mod Document
use terraform_provider_uapi.Base.{
  ◌⊗◌, ◌≡◌, refl, Bool, List, [], ◌∷◌, ◌==◌, ◌++◌, All, if◌then◌else◌,
}
use mathlib.Core.List.{append_assoc, append-nil}
use terraform_provider_uapi.Base.{String, map}
use terraform_provider_uapi.Gen.Made.{made}
use terraform_provider_uapi.Gen.Spec.{SpecProp, type_of, int_str_union, go_type, desc}
use terraform_provider_uapi.Gen.Names.{pascal, sort_strings}
use terraform_provider_uapi.Gen.Field.{
  build_fields, build_field, plain_field, union_field, classify,
}
use terraform_provider_uapi.Gen.Written.NetworkInterface.Document.{
  response, request, required_names, descriptor,
}
use terraform_provider_uapi.Any.{Object}
use terraform_provider_uapi.Framework.{null, Diagnostic}
use terraform_provider_uapi.Platform.{Platform}
use terraform_provider_uapi.Provider.Values.{list_val_keep_empty, empty_body, put_str}
use terraform_provider_uapi.Provider.FieldScope.{string, boolean, number, list}
use terraform_provider_uapi.Resources.NetworkInterface.{Model, body, fill}
use terraform_provider_uapi.Gen.Spec.{
  GoType, required, optcomp, optclear, writeonly, computedbool, computedstring, Field,
}
use terraform_provider_uapi.Gen.Render.{Values, body_stmt, read_stmt, body_stmts, read_stmts}
use terraform_provider_uapi.Gen.Written.Field.{field, labelled}

abbrev pub fields : List Field
fields =
    field "addresses" GoType.list optcomp
    ∷ field "auto" GoType.bool optcomp
    ∷ field "broadcast" GoType.string optclear
    ∷ field "broadcast_flag" GoType.bool optcomp
    ∷ field "clientid" GoType.string optcomp
    ∷ field "defaultroute" GoType.bool optcomp
    ∷ field "delegate" GoType.bool optcomp
    ∷ field "device" GoType.string optcomp
    ∷ field "disabled" GoType.bool optcomp
    ∷ field "dns" GoType.list optcomp
    ∷ field "gateway" GoType.string optclear
    ∷ field "has_private_key" GoType.bool computedbool
    ∷ field "hostname" GoType.string optcomp
    ∷ field "ip4table" GoType.string optcomp
    ∷ field "ip6addrs" GoType.list optcomp
    ∷ field "ip6assign" GoType.int64 optcomp
    ∷ field "ip6class" GoType.list optcomp
    ∷ field "ip6gw" GoType.string optclear
    ∷ field "ip6hint" GoType.string optcomp
    ∷ field "ip6ifaceid" GoType.string optcomp
    ∷ field "ip6prefix" GoType.list optclear
    ∷ field "ip6table" GoType.string optcomp
    ∷ field "ip6weight" GoType.int64 optcomp
    ∷ field "ipaddr" GoType.string computedstring
    ∷ field "ipaddrs" GoType.list optcomp
    ∷ field "listen_port" GoType.int64 optcomp
    ∷ field "metric" GoType.int64 optcomp
    ∷ field "mtu" GoType.int64 optcomp
    ∷ field "netmask" GoType.string optclear
    ∷ field "nohostroute" GoType.bool optcomp
    ∷ field "peerdns" GoType.bool optcomp
    ∷ field "private_key" GoType.string writeonly
    ∷ field "proto" GoType.string required
    ∷ field "reqaddress" GoType.string optcomp
    ∷ field "reqprefix" GoType.string optcomp
    ∷ field "sourcefilter" GoType.bool optcomp
    ∷ []

abbrev pub values : Model → Values
values m n =
    if n == "addresses"
    then list m.addresses
    else if n == "auto"
    then boolean m.auto
    else if n == "broadcast"
    then string m.broadcast
    else if n == "broadcast_flag"
    then boolean m.broadcast_flag
    else if n == "clientid"
    then string m.clientid
    else if n == "defaultroute"
    then boolean m.defaultroute
    else if n == "delegate"
    then boolean m.delegate
    else if n == "device"
    then string m.device
    else if n == "disabled"
    then boolean m.disabled
    else if n == "dns"
    then list m.dns
    else if n == "gateway"
    then string m.gateway
    else if n == "has_private_key"
    then boolean m.has_private_key
    else if n == "hostname"
    then string m.hostname
    else if n == "ip4table"
    then string m.ip4table
    else if n == "ip6addrs"
    then list m.ip6addrs
    else if n == "ip6assign"
    then number m.ip6assign
    else if n == "ip6class"
    then list m.ip6class
    else if n == "ip6gw"
    then string m.ip6gw
    else if n == "ip6hint"
    then string m.ip6hint
    else if n == "ip6ifaceid"
    then string m.ip6ifaceid
    else if n == "ip6prefix"
    then list m.ip6prefix
    else if n == "ip6table"
    then string m.ip6table
    else if n == "ip6weight"
    then number m.ip6weight
    else if n == "ipaddr"
    then string m.ipaddr
    else if n == "ipaddrs"
    then list m.ipaddrs
    else if n == "listen_port"
    then number m.listen_port
    else if n == "metric"
    then number m.metric
    else if n == "mtu"
    then number m.mtu
    else if n == "netmask"
    then string m.netmask
    else if n == "nohostroute"
    then boolean m.nohostroute
    else if n == "peerdns"
    then boolean m.peerdns
    else if n == "private_key"
    then string m.private_key
    else if n == "proto"
    then string m.proto
    else if n == "reqaddress"
    then string m.reqaddress
    else if n == "reqprefix"
    then string m.reqprefix
    else if n == "sourcefilter"
    then boolean m.sourcefilter
    else string null

-- the diagnostics of the six lists
regroup :
    (a b c d e f : List Diagnostic)
    → ((((a ++ b) ++ c) ++ d) ++ e) ++ f ≡ a ++ (b ++ (c ++ (d ++ (e ++ (f ++ [])))))
regroup a b c d e f = simp (append_assoc, append-nil)

pub built :
    (common descs : List (String × String))
    → build_fields common
        (descriptor descs)
        request
        required_names
        response
        (sort_strings (map (λ (e : String × SpecProp). e.0) response))
      ≡ made (labelled common (descriptor descs) fields)
unfolding build_fields build_field plain_field union_field classify sort_strings type_of
    int_str_union go_type pascal desc
built common descs = refl

module _ (p : Platform) (m : Model) where
  pub body_lem :
      (create : Bool)
      → body p m create
        ≡ body_stmts p create fields
            (values m)
            (if create then put_str "id" m.id empty_body else empty_body)
  unfolding body body_stmts body_stmt
  body_lem create = refl

  pub fill_lem :
      (obj : Object)
      → All
          (λ (f : Field).
            values (fill p obj m).0 f.name ≡ (read_stmts p fields obj (values m)).0 f.name)
          fields
        × ((fill p obj m).1 ≡ (read_stmts p fields obj (values m)).1)
  unfolding fill read_stmts read_stmt
  fill_lem obj = (
    refl ⊗ refl ⊗ refl ⊗ refl ⊗ refl ⊗ refl ⊗ refl ⊗ refl ⊗ refl ⊗ refl ⊗ refl ⊗ refl ⊗ refl ⊗ refl
        ⊗ refl ⊗ refl ⊗ refl ⊗ refl ⊗ refl ⊗ refl ⊗ refl ⊗ refl ⊗ refl ⊗ refl ⊗ refl ⊗ refl ⊗ refl
        ⊗ refl ⊗ refl ⊗ refl ⊗ refl ⊗ refl ⊗ refl ⊗ refl ⊗ refl ⊗ refl ⊗ tt,
    regroup (list_val_keep_empty p obj "addresses" m.addresses).1
        (list_val_keep_empty p obj "dns" m.dns).1
        (list_val_keep_empty p obj "ip6addrs" m.ip6addrs).1
        (list_val_keep_empty p obj "ip6class" m.ip6class).1
        (list_val_keep_empty p obj "ip6prefix" m.ip6prefix).1
        (list_val_keep_empty p obj "ipaddrs" m.ipaddrs).1,
  )
