-- ===== src/Types/Device.antt =====
-- pkg/types/device.go: a set of device ids with its hash. The proofs are in the module below.
pub mod Identity
pub mod HashText
pub mod Plain
use elastic_gpu_agent.Prelude.{
  ℕ, ◌≡◌, refl, Bool, true, false, ◌&&◌, List, [], ◌∷◌, Text, codes, length, ◌==◌, text_eq,
  if◌then◌else◌,
}
use elastic_gpu_agent.Go.Sort
use elastic_gpu_agent.Go.Strings
use elastic_gpu_agent.Go.Hex
use elastic_gpu_agent.Go.Sha256
use mathlib.Core.List.{map}

pub record Device : Type 0 where
  pub hash : Text
  pub list : List Text
  pub resource_name : Text

-- The copy shares nothing with its source; as a value it is the same list.
clone : List Text → List Text
clone [] = []
clone (x ∷ xs) = x ∷ clone xs

-- `s[0:8]` of a text with at least eight bytes
first_eight : Text → Text
first_eight (a ∷ b ∷ c ∷ d ∷ e ∷ f ∷ g ∷ h ∷ s) = a ∷ b ∷ c ∷ d ∷ e ∷ f ∷ g ∷ h ∷ []
first_eight s = s

unfoldable pub hash : List Text → Text
unfolding first_eight
hash device_list =
    first_eight (Hex.encode_to_string (Sha256.sum256 (Strings.join device_list b':')))

unfoldable pub new_device : List Text → Text → Device
unfolding clone
new_device device_list resource_name =
    let curr = Sort.strings (clone device_list) in
    record { hash = hash curr; list = curr; resource_name = resource_name }

-- the loop of `equals`, over lists of one length
same : List Text → List Text → Bool
same [] bs = true
same (a ∷ as_) [] = false
same (a ∷ as_) (b ∷ bs) = text_eq a b && same as_ bs

unfoldable pub equals : List Text → List Text → Bool
unfolding same
equals a b = if length a == length b then same a b else false

unfoldable pub device_equals : Device → Device → Bool
unfolding equals
device_equals d o =
    text_eq d.hash o.hash && equals d.list o.list && text_eq d.resource_name o.resource_name
