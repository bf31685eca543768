-- ===== src/Kube.antt =====
-- pkg/kube: where the agent learns which pods there are, and which container holds which devices.
pub mod Sitter
pub mod PodResources
pub mod Client
pub mod Locator
pub mod Provider
