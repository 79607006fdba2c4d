-- ===== src/Resources.antt =====
-- The resources: the modules that internal/gen writes, one for each internal/provider/*_resource.go,
-- and the hand-written ones.
pub mod PeerWarning
pub mod Package
pub mod CronJob
pub mod DhcpDnsmasq
pub mod DhcpHost
pub mod DhcpOdhcpd
pub mod DhcpServer
pub mod DropbearInstance
pub mod FirewallDefaults
pub mod FirewallForwarding
pub mod FirewallNat
pub mod FirewallRedirect
pub mod FirewallRule
pub mod FirewallZone
pub mod LldpdConfig
pub mod Mwan3Globals
pub mod Mwan3Interface
pub mod Mwan3Member
pub mod Mwan3Policy
pub mod Mwan3Rule
pub mod NetworkBridgeVlan
pub mod NetworkDevice
pub mod NetworkInterface
pub mod NetworkRoute
pub mod NetworkRule
pub mod NetworkWireguardPeer
pub mod OpenvpnInstance
pub mod PrometheusNodeExporterLuaConfig
pub mod SnmpdAccess
pub mod SnmpdAgent
pub mod SnmpdCom2sec
pub mod SnmpdGroup
pub mod SnmpdSystem
pub mod SqmQueue
pub mod System
pub mod SystemTimeserver
pub mod Token
pub mod UhttpdCert
pub mod UhttpdInstance
pub mod UnboundExt
pub mod UnboundServer
pub mod UnboundSrv
pub mod UsteerConfig
pub mod VnstatConfig
pub mod WirelessDevice
pub mod WirelessInterface
pub mod PackageFeed
pub mod Reported
pub mod AuthorizedKey
pub mod SystemPassword
