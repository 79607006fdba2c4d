-- ===== src/Tests/Provider.antt =====
-- The provider at work.
use terraform_provider_uapi.Base.{
  ◌≡◌, refl, true, false, is_some, List, [], ◌∷◌, ◌++◌, ◌==◌, if◌then◌else◌,
}
use terraform_provider_uapi.Any.{bool, str, null, obj, Object, end, entry, lookup, insert}
use terraform_provider_uapi.Framework.{known, null as no_value, Diagnostic, has_error}
use terraform_provider_uapi.Client.World.{answered, start, Env}
use terraform_provider_uapi.Client.Request.{final_warnings, decode_error}
use terraform_provider_uapi.Provider.Values.{
  list_val_keep_empty, put_bool, put_str, put_int64, put_list,
}
use terraform_provider_uapi.Provider.FieldScope.{patches}
use terraform_provider_uapi.Provider.Values.Lists.{list_val_keep_empty-stored}
use terraform_provider_uapi.Provider.Delta.{merge_delta, merge_patch}
use terraform_provider_uapi.Provider.Delta.Laws.{merge_patch-merge_delta}
use terraform_provider_uapi.Provider.Configure.{configure}
use terraform_provider_uapi.Provider.Configure.Missing.{configure_lem}
use terraform_provider_uapi.Provider.Crud.{kept, create, destroy, update_planned}
use terraform_provider_uapi.Provider.Crud.{stored}
use terraform_provider_uapi.Client.Request.{is_throttled, is_success}
use terraform_provider_uapi.Provider.Crud.Accepted.{created, post_request, create-stored}
use terraform_provider_uapi.Provider.Crud.{removed}
use terraform_provider_uapi.Provider.Crud.Gone.{delete_request, destroy-gone}
use terraform_provider_uapi.Provider.Crud.Refused.{put_request, summary, update_planned-stale}
use terraform_provider_uapi.Resources.NetworkInterface
use terraform_provider_uapi.Resources.NetworkInterface.{body}
use terraform_provider_uapi.Resources.NetworkInterface.Patch.{network_interface_patch-foreign}
use terraform_provider_uapi.Resources.NetworkWireguardPeer
use terraform_provider_uapi.Tests.Demo.{demo, demo-Lawful, client, response, lan_object, always}

abbrev lan : NetworkInterface.Model
lan = record NetworkInterface.empty { id = known "lan"; proto = known "static"; etag = known "v1" }

abbrev wan : NetworkInterface.Model
wan = record lan { proto = known "xfrm"; gateway = known "10.0.0.1" }

abbrev no_diags : NetworkInterface.Model → List Diagnostic
no_diags m = []

abbrev stale : Env
stale = always (answered (response 412 "changed" ""))

update_planned-stale_example :
    (d : Diagnostic) × (summary d ≡ "network interface changed outside Terraform")
    × (update_planned no_diags demo NetworkInterface.resource client lan lan stale start ≡ (
      kept,
      record start {
        sent = put_request no_diags demo NetworkInterface.resource client lan lan "{}" ∷ [];
        diags =
            ((start.diags ++ (body demo lan false).1)
              ++ final_warnings demo true (response 412 "changed" ""))
            ++ d ∷ [];
      },
    ))
unfolding body has_error decode_error patches put_bool put_str put_int64 put_list
update_planned-stale_example =
    update_planned-stale no_diags demo NetworkInterface.resource client lan lan "{}"
      (response 412 "changed" "") stale start refl refl refl refl refl refl refl

abbrev planned_body : Object
planned_body = entry "proto" (str "xfrm") (entry "mtu" (str "1400") end)

abbrev prior_body : Object
prior_body = entry "proto" (str "xfrm") (entry "device" (str "eth0") end)

merge_patch-merge_delta_example :
    lookup "device" (merge_patch (merge_delta demo planned_body prior_body) prior_body)
    ≡ lookup "device" planned_body
unfolding lookup
merge_patch-merge_delta_example =
    merge_patch-merge_delta demo planned_body prior_body "device" (refl, (refl, tt)) (tt, (tt, tt))

-- an update of an interface whose proto is not modelled
abbrev tunnel : NetworkInterface.Model
tunnel = record wan { gateway = known "10.0.0.2" }

abbrev patched_interface : Object → Object
patched_interface doc =
    merge_patch (merge_delta demo (body demo tunnel false).0 (body demo wan false).0) doc

network_interface_patch-foreign_example :
    lookup "device" (patched_interface prior_body) ≡ lookup "device" prior_body
unfolding body put_bool put_str put_int64 put_list lookup insert
network_interface_patch-foreign_example =
    network_interface_patch-foreign demo tunnel wan prior_body "device" refl refl

configure_lem_example :
    is_some
      (configure demo
        (λ name. if name == "UAPI_TOKEN" then "t" else "")
        "3.2"
        (record { endpoint = known "http://r"; token = no_value; insecure = no_value })
        []).0
    ≡ true
unfolding has_error
configure_lem_example =
    configure_lem demo (λ name. if name == "UAPI_TOKEN" then "t" else "") "3.2"
      (record { endpoint = known "http://r"; token = no_value; insecure = no_value }) []

list_val_keep_empty-stored_example :
    list_val_keep_empty demo (entry "dns" null end) "dns" (known []) ≡ (known [], [])
unfolding lookup
list_val_keep_empty-stored_example =
    list_val_keep_empty-stored demo [] (entry "dns" null end) "dns" demo-Lawful refl

abbrev peer : Object
peer = entry "runtime" (obj (entry "in_kernel" (bool false) end)) end

abbrev ready : Env
ready = always (answered (response 201 "{}" ""))

create-stored_example :
    ((create no_diags demo NetworkInterface.resource client (lan, []) ready start).0
      ≡ stored (created no_diags demo NetworkInterface.resource client lan lan_object "v2"))
    × ((create no_diags demo NetworkInterface.resource client (lan, []) ready start).1.sent
        ≡ post_request no_diags demo NetworkInterface.resource client "{}" ready start ∷ [])
unfolding body has_error put_bool put_str put_int64 put_list is_throttled is_success
create-stored_example =
    create-stored no_diags demo NetworkInterface.resource client (lan, []) "{}"
      (response 201 "{}" "") lan_object ready start refl refl refl refl refl refl refl refl refl
      refl

abbrev gone : Env
gone = always (answered (response 404 "no such section" ""))

destroy-gone_example :
    destroy no_diags demo NetworkInterface.resource client (lan, []) gone start ≡ (
      removed,
      record start {
        sent = delete_request no_diags demo NetworkInterface.resource client lan ∷ [];
        diags = (start.diags ++ []) ++ final_warnings demo true (response 404 "no such section" "");
      },
    )
unfolding has_error decode_error
destroy-gone_example =
    destroy-gone no_diags demo NetworkInterface.resource client (lan, [])
      (response 404 "no such section" "") gone start refl refl refl refl refl
