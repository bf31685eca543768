-- ===== src/Tests/Types.antt =====
-- Devices and the records of pods.
use mathlib.Core.List.{Perm}
use elastic_gpu_agent.Prelude.{◌≡◌, ◌↔◌, true, [], ◌∷◌, List, Text, codes, ok, length, All}
use elastic_gpu_agent.Common.{resource_gpu_core}
use elastic_gpu_agent.Types.Device.{hash, new_device, device_equals}
use elastic_gpu_agent.Types.Device.Identity.{device_equals-new_device}
use elastic_gpu_agent.Types.Device.HashText.{hash-IsHex}
use elastic_gpu_agent.Go.Hex.{IsHexDigit}
use elastic_gpu_agent.Types.Pod.{key, val, new_pi_from_raw}
use elastic_gpu_agent.Types.Pod.RoundTrip.{new_pi_from_raw_lem}
use elastic_gpu_agent.Tests.Codec.{counted_json}
use elastic_gpu_agent.Tests.Pods.{web, web-IsValid}

abbrev ids : List Text
ids = codes "0-01" ∷ codes "0-00" ∷ []

abbrev ids' : List Text
ids' = codes "0-00" ∷ codes "0-01" ∷ []

new_pi_from_raw_lem_example : new_pi_from_raw counted_json (key web) (val counted_json web) ≡ ok web
new_pi_from_raw_lem_example = new_pi_from_raw_lem counted_json web web-IsValid

device_equals-new_device_example :
    (device_equals (new_device ids resource_gpu_core) (new_device ids' resource_gpu_core) ≡ true)
    ↔ (Perm ids ids' × (resource_gpu_core ≡ resource_gpu_core))
device_equals-new_device_example =
    device_equals-new_device ids ids' resource_gpu_core resource_gpu_core

hash-IsHex_example : (length (hash ids) ≡ 8) × All IsHexDigit (hash ids)
hash-IsHex_example = hash-IsHex ids
