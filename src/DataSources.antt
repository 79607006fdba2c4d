-- ===== src/DataSources.antt =====
-- internal/provider/*_data_source.go: the data sources that have a model of their own. Those that
-- read into a resource's model stand beside the resource.
pub mod Runtime
pub mod NetworkInterface
pub mod NetworkWireguardPeer
pub mod WirelessInterface
pub mod DhcpLeases
pub mod DhcpLeases6
pub mod WireguardKernelPeers
pub mod Healthz
pub mod Whoami
pub mod AuthorizedKey
pub mod CronJob
pub mod Package
pub mod PackageFeed
pub mod Diagnostics
