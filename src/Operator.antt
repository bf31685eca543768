-- ===== src/Operator.antt =====
-- pkg/operator: the GPUs of the node, and the links under /host/dev that stand for shares of them.
pub mod FileSystem
pub mod Nvml
pub mod Gpushare
pub mod Nvidia
