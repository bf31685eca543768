-- ===== src/Plugins/Devices.antt =====
-- The devices that the plugins announce: one for each percent of a card's cores, and one for each
-- MiB of its memory (`NewGPUShareCoreDevicePlugin`, `NewGPUShareMemoryDevicePlugin`,
-- `NewNvidiaDevicePlugin`). The proofs are in the module below.
pub mod Distinctness
use elastic_gpu_agent.Prelude.{
  ℕ, zero, suc, ◌/◌, Option, none, some, List, [], ◌∷◌, ◌++◌, Text, codes, Result, ok, err, Error,
  map, pos,
}
use elastic_gpu_agent.Common.{gpu_percent_each_card}
use elastic_gpu_agent.Go.Strconv.{itoa, pad2}
use elastic_gpu_agent.Operator.Nvml.{GpuDevice}

-- `pluginapi.Device`
pub record PluginDevice : Type 0 where
  pub id : Text
  pub health : Text

abbrev healthy : Text
healthy = codes "Healthy"

-- `%d-%02d`
unfoldable pub unit_id : ℕ → ℕ → Text
unit_id i j = itoa (pos i) ++ b'-' ∷ pad2 j

-- the inner loop, from `j` on
units : ℕ → ℕ → ℕ → List PluginDevice
units i j zero = []
units i j (suc n) = record { id = unit_id i j; health = healthy } ∷ units i (suc j) n

-- the outer loop, from card `i` on, with the number of units of each card
cards : ℕ → List ℕ → List PluginDevice
unfolding units
cards i [] = []
cards i (n ∷ ns) = units i 0 n ++ cards (suc i) ns

unfoldable pub core_units : GpuDevice → ℕ
core_units d = gpu_percent_each_card

unfoldable pub memory_units : GpuDevice → ℕ
memory_units d = d.memory / 1024 / 1024

-- The error of `GPUOperator.Devices` is looked at first.
checked :
    List GpuDevice × Option Error
    → (List GpuDevice → List PluginDevice)
    → Result (List PluginDevice)
checked (devs, none) make = ok (make devs)
checked (devs, some e) make = err e

unfoldable pub core_devices : List GpuDevice × Option Error → Result (List PluginDevice)
unfolding cards core_units checked
core_devices found = checked found (λ devs. cards 0 (map core_units devs))

unfoldable pub memory_devices : List GpuDevice × Option Error → Result (List PluginDevice)
unfolding cards memory_units checked
memory_devices found = checked found (λ devs. cards 0 (map memory_units devs))

nvidia_device : GpuDevice → PluginDevice
nvidia_device g = record { id = g.uuid; health = healthy }

unfoldable pub nvidia_devices : List GpuDevice × Option Error → Result (List PluginDevice)
unfolding nvidia_device checked
nvidia_devices found = checked found (map nvidia_device)
