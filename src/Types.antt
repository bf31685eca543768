-- ===== src/Types.antt =====
-- pkg/types: devices, the pods that hold them, and the JSON of their records.
pub mod Device
pub mod Json
pub mod Pod
