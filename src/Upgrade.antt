-- ===== src/Upgrade.antt =====
-- internal/provider/state_upgrades.go: the upgraders of saved state. The normalized document is
-- API-shaped, so each upgrader hands it to the read() of its resource.
pub mod Normalize
pub mod Prefixes
use terraform_provider_uapi.Base.{
  String, true, none, some, List, [], ◌∷◌, ◌++◌, if◌then◌else◌, Option, ℕ, ◌+◌, ltb, pos,
}
use terraform_provider_uapi.Base.Text.{◌<>◌, trim_prefix, trim_suffix}
use terraform_provider_uapi.Base.Decimal.{itoa}
use terraform_provider_uapi.Any.{Any, str, obj, Object, lookup, insert}
use terraform_provider_uapi.Framework.{Diagnostic, error, warning}
use terraform_provider_uapi.Platform.{Platform, Called, ok, failed}
use terraform_provider_uapi.Client.World.{Action, pure, ◌>>=◌, ◌>>◌, append}
use terraform_provider_uapi.Provider.Values.{str_val}
use terraform_provider_uapi.Provider.Crud.{StateChange, kept, save}
use terraform_provider_uapi.Upgrade.Normalize.{first_of_list, words_of_string}
use terraform_provider_uapi.Resources.FirewallRedirect
use terraform_provider_uapi.Resources.DhcpHost
use terraform_provider_uapi.Resources.NetworkInterface

-- A saved state as untyped JSON, or the diagnostic that it cannot be read.
pub data PriorState : Type 0 where
  prior : Object → PriorState
  unreadable : Diagnostic → PriorState

abbrev pub redirect_match_scalars : List String
redirect_match_scalars =
    "src_ip" ∷ "src_port" ∷ "src_dip" ∷ "src_dport" ∷ "dest_ip" ∷ "dest_port" ∷ []

abbrev dropped_warning : String → ℕ → List Diagnostic
dropped_warning key n =
    if ltb 0 n
    then warning "Dropped extra values while upgrading state" (
        "match."
        <> key
        <> " held "
        <> itoa (pos (n + 1))
        <> " values and is a single value as of 3.0.0, so "
        <> itoa (pos n)
        <> " were dropped. "
        <> "firewall4 discarded any redirect writing a uci list, so they were never in effect on the router.")
      ∷ []
    else []

-- the loop of the redirect upgrader over the match selectors
unfoldable pub collapse_all : List String → Object → Object × List Diagnostic
collapse_all [] m = (m, [])
collapse_all (k ∷ ks) m =
    let (m', n) = first_of_list m k in
    let (m'', ds) = collapse_all ks m' in (m'', dropped_warning k n ++ ds)

abbrev replace_match : Object → Object × List Diagnostic → Object × List Diagnostic
replace_match raw (m, ds) = (insert "match" (obj m) raw, ds)

abbrev collapse_match : Option Any → Object → Object × List Diagnostic
collapse_match (some (obj m)) raw = replace_match raw (collapse_all redirect_match_scalars m)
collapse_match _ raw = (raw, [])

unfoldable pub normalize_redirect : Object → Object × List Diagnostic
normalize_redirect raw = collapse_match (lookup "match" raw) raw

abbrev strip_brackets : Option Any → Object → Object
strip_brackets (some (str s)) raw =
    insert "ip6prefix" (str (trim_suffix b']' (trim_prefix b'[' s))) raw
strip_brackets _ raw = raw

unfoldable pub normalize_interface : Object → Object
normalize_interface raw = words_of_string (strip_brackets (lookup "ip6prefix" raw) raw) "ip6prefix"

module _ (p : Platform) where
  -- rawPriorState
  unfoldable pub raw_prior_state : Option String → PriorState
  raw_prior_state none =
      unreadable (error "Missing prior state" "Terraform sent no prior state to upgrade.")
  raw_prior_state (some json) = elim (p.unmarshal_object json) [
    | ok raw ↦ prior raw
    | failed t ↦ unreadable (
        error "Could not read prior state" (
          "The saved state is not valid JSON, so it cannot be upgraded to the current schema.\n\n"
          <> t))
  ]

  unfoldable pub upgrade_redirect :
      (FirewallRedirect.Model → List Diagnostic)
      → Option String
      → Action (StateChange FirewallRedirect.Model)
  upgrade_redirect set_state saved = elim (raw_prior_state saved) [
    | unreadable d ↦ (do append (d ∷ []); pure kept)
    | prior raw ↦ (do
      append (normalize_redirect raw).1
      append (FirewallRedirect.fill p (normalize_redirect raw).0 FirewallRedirect.empty).1
      save set_state
          (record ((FirewallRedirect.fill p (normalize_redirect raw).0 FirewallRedirect.empty).0) {
            etag = str_val p (normalize_redirect raw).0 "etag";
          }))
  ]

  unfoldable pub upgrade_host :
      (DhcpHost.Model → List Diagnostic) → Option String → Action (StateChange DhcpHost.Model)
  upgrade_host set_state saved = elim (raw_prior_state saved) [
    | unreadable d ↦ (do append (d ∷ []); pure kept)
    | prior raw ↦ (do
      append (DhcpHost.fill p (words_of_string raw "tag") DhcpHost.empty).1
      save set_state (record ((DhcpHost.fill p (words_of_string raw "tag") DhcpHost.empty).0) {
        etag = str_val p (words_of_string raw "tag") "etag";
      }))
  ]

  unfoldable pub upgrade_interface :
      (NetworkInterface.Model → List Diagnostic)
      → Option String
      → Action (StateChange NetworkInterface.Model)
  upgrade_interface set_state saved = elim (raw_prior_state saved) [
    | unreadable d ↦ (do append (d ∷ []); pure kept)
    | prior raw ↦ (do
      append (NetworkInterface.fill p (normalize_interface raw) NetworkInterface.empty).1
      save set_state
          (record ((NetworkInterface.fill p (normalize_interface raw) NetworkInterface.empty).0) {
            etag = str_val p (normalize_interface raw) "etag";
            private_key = str_val p (normalize_interface raw) "private_key";
          }))
  ]
