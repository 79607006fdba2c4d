-- ===== src/Resources/PeerWarning.antt =====
-- internal/provider/wireguard_peer_warning.go: warnWireguardPeerNotInKernel.
use terraform_provider_uapi.Base.{Bool, false, Option, none, some, List, [], ◌∷◌, if◌then◌else◌}
use terraform_provider_uapi.Base.Text.{◌<>◌}
use terraform_provider_uapi.Any.{Any, bool, obj, Object, end, entry, lookup}
use terraform_provider_uapi.Framework.{Diagnostic, warning, value_bool}
use terraform_provider_uapi.Provider.Values.{bool_val}

abbrev in_kernel_value : Option Any → Option Bool
in_kernel_value (some (bool b)) = some b
in_kernel_value _ = none

-- `rt["in_kernel"].(bool)` of a runtime object that is not empty
abbrev pub kernel_has : Option Any → Option Bool
kernel_has (some (obj end)) = none
kernel_has (some (obj (entry k v m))) = in_kernel_value (lookup "in_kernel" (entry k v m))
kernel_has _ = none

abbrev pub peer_warning : Diagnostic
peer_warning = warning "Kernel holds no peer under this public key" (
    "uapi read the kernel (the interface is up) and found no peer for this section's public key. "
    <> "A manual wg command removed it, or an apply did not land, so the peer passes no traffic. "
    <> "A write to the peer or its interface restores it; a no-change apply writes nothing and does not. "
    <> "Check wg show on the router to see what the kernel holds.")

abbrev pub absent_unless : Bool → Option Bool → List Diagnostic
absent_unless disabled (some false) = if disabled then [] else peer_warning ∷ []
absent_unless disabled _ = []

unfoldable pub peer_not_in_kernel : Object → List Diagnostic
peer_not_in_kernel m =
    absent_unless (value_bool (bool_val m "disabled")) (kernel_has (lookup "runtime" m))
