-- ===== src/Provider/Configure.antt =====
-- internal/provider/provider.go: firstNonEmpty and Configure. The environment variables are a
-- function, "" where one is not set.
pub mod Missing
use terraform_provider_uapi.Base.{
  String, Bool, ◌||◌, ◌&&◌, not, Option, none, some, List, [], ◌∷◌, ◌++◌, ◌==◌, if◌then◌else◌,
}
use terraform_provider_uapi.Base.Text.{is_empty}
use terraform_provider_uapi.Framework.{
  Attr, Diagnostic, attribute_error, has_error, is_null, is_unknown, value_bool, value_string,
}
use terraform_provider_uapi.Platform.{Platform}
use terraform_provider_uapi.Client.Request.{Client, new_client}

-- the loop of firstNonEmpty
abbrev pub first_of : List String → String
first_of [] = ""
first_of (f ∷ fs) = let rest = first_of fs in if is_empty f then rest else f

unfoldable pub first_non_empty : Attr String → List String → String
first_non_empty configured fallbacks =
    if not (is_null configured)
      && (not (is_unknown configured) && not (is_empty (value_string configured)))
    then value_string configured
    else first_of fallbacks

pub record ProviderModel : Type 0 where
  pub endpoint : Attr String
  pub token : Attr String
  pub insecure : Attr Bool

unfoldable pub choose_insecure : Attr Bool → String → Bool
choose_insecure configured v =
    if not (is_null configured) && not (is_unknown configured)
    then value_bool configured
    else v == "1" || v == "true"

abbrev pub endpoint_missing : Diagnostic
endpoint_missing =
    attribute_error "endpoint" "Missing uapi endpoint"
      "Set the provider `endpoint` argument or the UAPI_ENDPOINT environment variable."

abbrev pub token_missing : Diagnostic
token_missing =
    attribute_error "token" "Missing uapi token"
      "Set the provider `token` argument or the UAPI_TOKEN environment variable."

abbrev pub report : String → Diagnostic → List Diagnostic
report value d = if is_empty value then d ∷ [] else []

module _ (p : Platform) (getenv : String → String) (version : String) where
  -- Configure, from the decoded configuration and its diagnostics: the client that resources,
  -- data sources and ephemeral resources get, and the diagnostics of the response
  unfoldable pub configure : ProviderModel → List Diagnostic → Option Client × List Diagnostic
  configure cfg ds =
      let endpoint =
        first_non_empty cfg.endpoint (getenv "UAPI_ENDPOINT" ∷ getenv "UAPI_BASE" ∷ []) in
      let token = first_non_empty cfg.token (getenv "UAPI_TOKEN" ∷ []) in
      let insecure = choose_insecure cfg.insecure (getenv "UAPI_INSECURE") in
      let ds' = (ds ++ report endpoint endpoint_missing) ++ report token token_missing in
      if has_error ds
      then (none, ds)
      else if has_error ds'
      then (none, ds')
      else (some (new_client p endpoint token insecure version), ds')
