-- ===== src/Tests/Planning.antt =====
-- Field scopes, imports and packages at work.
use terraform_provider_uapi.Base.{
  ◌≡◌, ◌↔◌, refl, String, true, false, none, some, List, [], ◌∷◌, ◌++◌, All,
}
use terraform_provider_uapi.Any.{bool, end, entry, lookup}
use terraform_provider_uapi.Framework.{Attr, known, null, unknown, Diagnostic, has_error}
use terraform_provider_uapi.Platform.{ok}
use terraform_provider_uapi.Client.World.{post, answered, start, World, Env}
use terraform_provider_uapi.Client.Request.{
  do_request, request_loop, settle, final_reply, is_success, is_throttled,
}
use terraform_provider_uapi.Client.Objects.{found, get_object, write_object, fetched, outcome}
use terraform_provider_uapi.Provider.FieldScope.{
  Config, AttrValue, string, PlanRequest, PlanResponse, modify_plan, validate_config, excluded,
  scoped, passes,
}
use terraform_provider_uapi.Provider.FieldScope.Validation.{
  IsQuiet, validate_config-first, validate_config-nil_iff,
}
use terraform_provider_uapi.Provider.FieldScope.Planning.{
  IsClean, marked, modify_plan-known, modify_plan-unknown,
}
use terraform_provider_uapi.Provider.Import.{import_by_id, renamed}
use terraform_provider_uapi.Provider.Import.Adoption.{import_by_id-sent, import_by_id-adopted}
use terraform_provider_uapi.Provider.Crud.{removed, save}
use terraform_provider_uapi.Resources.Package
use terraform_provider_uapi.Resources.Package.Lifecycle.{install-destroy}
use terraform_provider_uapi.Resources.NetworkInterface.{scope}
use terraform_provider_uapi.Tests.Demo.{demo, client, response, always, once_then, lan_object}

abbrev config : Attr String → Config
config proto = record { string_at = λ f. (proto, []); value_at = λ f. (string null, []) }

config-IsQuiet : (proto : Attr String) → IsQuiet (config proto)
config-IsQuiet proto = record { no_string_diags = λ f. refl; no_value_diags = λ f. refl }

abbrev request : Attr String → PlanRequest
request proto = record {
  destroys = false;
  creates = false;
  config = config proto;
  plan = config proto;
  prior = config (known "static");
  computed = λ f. (true, []);
  convert = λ m v. ok (marked m v);
  set_diags = λ f v. [];
}

request-IsClean : (proto : Attr String) → IsClean (request proto)
request-IsClean proto = record {
  config = config-IsQuiet proto;
  plan = config-IsQuiet proto;
  prior = config-IsQuiet (known "static");
  no_schema_diags = λ f. refl;
  converts = λ m v. refl;
  no_set_diags = λ f v. refl;
}

abbrev before : String → AttrValue
before f = string (known "kept")

abbrev clean_before : PlanResponse
clean_before = record { planned = before; diags = [] }

modify_plan-known_example :
    (modify_plan scope (request (known "dhcp")) clean_before).planned "netmask" ≡ string null
unfolding excluded
modify_plan-known_example =
    modify_plan-known scope (request (known "dhcp")) (request-IsClean (known "dhcp")) before "dhcp"
      "netmask" refl refl

modify_plan-unknown_example :
    (modify_plan scope (request unknown) clean_before).planned "netmask" ≡ string unknown
unfolding scoped
modify_plan-unknown_example =
    modify_plan-unknown scope (request unknown) (request-IsClean unknown) before "netmask" refl refl

validate_config-first_example : validate_config demo scope (config (known "dhcp")) [] ≡ []
unfolding excluded
validate_config-first_example =
    validate_config-first demo scope (config (known "dhcp")) (config-IsQuiet (known "dhcp")) "dhcp"
      refl

validate_config-nil_iff_example :
    (validate_config demo scope (config (known "dhcp")) [] ≡ [])
    ↔ All (λ f. passes (string null) ≡ true) (excluded scope "dhcp")
validate_config-nil_iff_example =
    validate_config-nil_iff demo scope (config (known "dhcp")) (config-IsQuiet (known "dhcp"))
      "dhcp" refl

abbrev ready : Env
ready = always (answered (response 200 "{}" ""))

import_by_id-sent_example :
    (import_by_id demo client "network/interfaces" "network interface" "lan" ready start).1.sent
    ≡ (get_object demo client false "/network/interfaces/lan" ready start).1.sent
unfolding get_object fetched do_request request_loop settle final_reply lookup is_success
    is_throttled
import_by_id-sent_example =
    import_by_id-sent demo client "network/interfaces" "network interface" "lan" ready start refl

abbrev adopting : Env
adopting = once_then (answered (response 200 "unmanaged" "")) (answered (response 200 "{}" ""))

abbrev looked_at : World
looked_at = (get_object demo client false "/network/interfaces/cfg01" adopting start).1

abbrev adopted_world : World
adopted_world =
    (write_object demo client false post "/network/interfaces/cfg01/adopt" none "" adopting
      looked_at).1

import_by_id-adopted_example :
    import_by_id demo client "network/interfaces" "network interface" "cfg01" adopting start ≡ (
      some "lan",
      record adopted_world {
        diags = adopted_world.diags ++ renamed demo "network interface" "cfg01" "lan" ∷ [];
      },
    )
unfolding get_object fetched write_object outcome do_request request_loop settle final_reply lookup
    is_success is_throttled
import_by_id-adopted_example =
    import_by_id-adopted demo client "network/interfaces" "network interface" "cfg01" "v2" "v2"
      (entry "managed" (bool false) lan_object) lan_object adopting start looked_at adopted_world
      refl refl refl refl

abbrev plan : Package.Model
plan = record {
  id = unknown;
  managed = unknown;
  name = known "curl";
  version = unknown;
  installed = unknown;
  pre_existed = unknown;
}

abbrev no_diags : Package.Model → List Diagnostic
no_diags m = []

abbrev curl : Package.Model
curl = record (Package.fill no_diags demo lan_object plan) { pre_existed = known true }

install-destroy_example :
    Package.destroy no_diags demo client (curl, []) ready start
    ≡ (removed, record start { diags = [] ++ [] })
unfolding Package.install write_object outcome do_request request_loop settle final_reply is_success
    is_throttled has_error save Package.save_installed
install-destroy_example =
    install-destroy no_diags demo client plan curl (found end "") [] ready ready start start refl
      refl
