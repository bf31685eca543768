-- ===== src/Common.antt =====
-- pkg/common/const.go and common.go, and the names of the resources that pkg/plugins serves. The
-- functions of pkg/common/util.go are in the modules below.
pub mod Stacks
pub mod Watcher
pub mod Clients
use elastic_gpu_agent.Prelude.{ℕ, ◌++◌, Text, codes, ℤ, negsuc}

abbrev pub gpu_percent_each_card : ℕ
gpu_percent_each_card = 100

-- `elasticgpu.io/container-%s`
unfoldable pub container_annotation : Text → Text
container_annotation container = codes "elasticgpu.io/container-" ++ container

abbrev pub assumed_annotation : Text
assumed_annotation = codes "elasticgpu.io/assumed"

-- -1
abbrev pub useless_number : ℤ
useless_number = negsuc 0

-- the resources' names, from the vendored elasticgpu.io API
abbrev pub resource_gpu_core : Text
resource_gpu_core = codes "elasticgpu.io/gpu-core"

abbrev pub resource_gpu_memory : Text
resource_gpu_memory = codes "elasticgpu.io/gpu-memory"
