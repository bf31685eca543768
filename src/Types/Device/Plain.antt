-- ===== src/Types/Device/Plain.antt =====
-- Devices of ASCII ids can be written as JSON and read back.
use elastic_gpu_agent.Prelude.{List, [], ◌∷◌, arith, Text, All}
use elastic_gpu_agent.Go.Hex.{IsHexDigit}
use elastic_gpu_agent.Go.Sort
use elastic_gpu_agent.Types.Device.{hash, new_device}
use elastic_gpu_agent.Types.Device.HashText.{hash-IsHex}
use elastic_gpu_agent.Types.Device.Identity.{new_device_lem}
use elastic_gpu_agent.Types.Json.{IsAscii, IsPlainDevice}

hex-IsAscii : (s : Text) → All IsHexDigit s → IsAscii s
hex-IsAscii [] h = tt
hex-IsAscii (c ∷ s) (hc, h) = (ground arith, hex-IsAscii s h)

pub new_device-IsPlainDevice :
    (ids : List Text) (r : Text) → All IsAscii ids → IsAscii r → IsPlainDevice (new_device ids r)
new_device-IsPlainDevice ids r h hr = rw (new_device_lem ids r) (
  hex-IsAscii (hash (Sort.strings ids)) (hash-IsHex (Sort.strings ids)).1,
  Sort.strings-All IsAscii ids h,
  hr,
)
