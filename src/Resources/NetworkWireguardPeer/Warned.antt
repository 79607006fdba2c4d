-- ===== src/Resources/NetworkWireguardPeer/Warned.antt =====
-- When the refresh of a WireGuard peer warns.
use terraform_provider_uapi.Any.{Any}
