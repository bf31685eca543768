-- ===== src/Plugins/Allocate.antt =====
-- `Allocate` of the core and the memory plugin (pkg/plugins/gpushare.go): what the kubelet is told
-- to mount into a container. The proofs are in the modules below.
pub mod Paths
pub mod Order
use elastic_gpu_agent.Prelude.{
  ℕ, zero, suc, ◌/◌, List, [], ◌∷◌, ◌++◌, Text, codes, length, ltb, if◌then◌else◌, Result, ok, err,
  devices_empty, Dict, insert, pos,
}
use elastic_gpu_agent.Common.{resource_gpu_core, resource_gpu_memory}
use elastic_gpu_agent.Go.Strconv.{itoa}
use elastic_gpu_agent.Types.Device.{new_device}

-- `pluginapi.DeviceSpec`
pub record DeviceSpec : Type 0 where
  pub container_path : Text
  pub host_path : Text
  pub permissions : Text

-- `pluginapi.ContainerAllocateResponse`
pub record ContainerResponse : Type 0 where
  pub envs : Dict Text
  pub devices : List DeviceSpec

-- A device of the host, under the same name below /host in the container.
spec : Text → DeviceSpec
spec name = record {
  container_path = codes "/host/dev/" ++ name;
  host_path = codes "/dev/" ++ name;
  permissions = codes "rwm";
}

control_specs : List DeviceSpec
unfolding spec
control_specs =
    spec (codes "nvidiactl") ∷ spec (codes "nvidia-uvm") ∷ spec (codes "nvidia-uvm-tools") ∷ []

-- `elastic-gpu-%s-%d`
unfoldable pub share_spec : Text → ℕ → DeviceSpec
unfolding spec
share_spec faker i = spec (codes "elastic-gpu-" ++ faker ++ b'-' ∷ itoa (pos i))

-- the loop over the shares, from `i` on
share_specs : Text → ℕ → ℕ → List DeviceSpec
unfolding share_spec
share_specs faker i zero = []
share_specs faker i (suc n) = share_spec faker i ∷ share_specs faker (suc i) n

-- the ids of all containers of the request
unfoldable pub all_ids : List (List Text) → List Text
all_ids [] = []
all_ids (ids ∷ rest) = ids ++ all_ids rest

response : Text → List DeviceSpec → Result (List ContainerResponse)
response faker devices = ok (
    record {
      envs = insert (codes "GPU") faker (insert (codes "NVIDIA_VISIBLE_DEVICES") (codes "none") []);
      devices = devices;
    }
    ∷ [])

-- how many shares a number of core units takes
unfoldable pub core_shares : ℕ → ℕ
core_shares n = if ltb 100 n then n / 100 else 1

core_response : List Text → Result (List ContainerResponse)
unfolding control_specs share_specs core_shares response
core_response [] = err devices_empty
core_response (id ∷ ids) =
    let faker = (new_device (id ∷ ids) resource_gpu_core).hash in
    response faker (control_specs ++ share_specs faker 0 (core_shares (length (id ∷ ids))))

unfoldable pub allocate_core : List (List Text) → Result (List ContainerResponse)
unfolding core_response all_ids
allocate_core requests = core_response (all_ids requests)

memory_response : List Text → Result (List ContainerResponse)
unfolding control_specs share_spec response
memory_response [] = err devices_empty
memory_response (id ∷ ids) =
    let faker = (new_device (id ∷ ids) resource_gpu_memory).hash in
    response faker (share_spec faker 0 ∷ control_specs)

unfoldable pub allocate_memory : List (List Text) → Result (List ContainerResponse)
unfolding memory_response all_ids
allocate_memory requests = memory_response (all_ids requests)
