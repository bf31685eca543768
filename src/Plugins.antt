-- ===== src/Plugins.antt =====
-- pkg/plugins: the device plugins that serve the kubelet, and the collector of unused shares.
pub mod Devices
pub mod Share
pub mod Allocate
pub mod World
pub mod PreStart
pub mod Gc
pub mod Factory
pub mod Server
pub mod Registration
pub mod Plugin
