-- ===== src/Types/Pod.antt =====
-- pkg/types/pod.go: a container's place, and the record of a pod's devices with its key and value.
pub mod RoundTrip
use elastic_gpu_agent.Prelude.{
  ◌≡◌, Option, none, some, List, [], ◌∷◌, ◌++◌, Text, Dict, Result, ok, err, error_key_format,
  error_val_format,
}
use elastic_gpu_agent.Go.Strings
use elastic_gpu_agent.Go.FilePath
use elastic_gpu_agent.Types.Device.{Device}
use elastic_gpu_agent.Types.Json.{Json}

pub record PodContainer : Type 0 where
  pub namespace : Text
  pub name : Text
  pub container : Text

-- `%s/%s:%s`
unfoldable pub show : PodContainer → Text
show pc = pc.namespace ++ b'/' ∷ (pc.name ++ b':' ∷ pc.container)

-- `%s/%s`
unfoldable pub pod_of : PodContainer → Text
pod_of pc = pc.namespace ++ b'/' ∷ pc.name

pub record PodInfo : Type 0 where
  pub namespace : Text
  pub name : Text
  pub container_device_map : Option (Dict Device)

unfoldable pub new_pi : Text → Text → PodInfo
new_pi namespace name = record {
  namespace = namespace;
  name = name;
  container_device_map = some [];
}

unfoldable pub key : PodInfo → Text
key i = FilePath.join_path i.namespace i.name

module _ (json : Json) where
  unfoldable pub val : PodInfo → Text
  val i = json.marshal i.container_device_map

  unfoldable pub set_val : PodInfo → Text → Result PodInfo
  set_val i v = elim (json.unmarshal v i.container_device_map) [
    | ok m ↦ ok (record i { container_device_map = m })
    | err e ↦ err e
  ]

  -- the cases of `len(arr)`
  from_parts : Text → Text → List Text → Result PodInfo
  unfolding new_pi
  from_parts k v (namespace ∷ name ∷ []) =
      let pi = new_pi namespace name in
      elim (json.unmarshal v pi.container_device_map) [
        | ok m ↦ ok (record pi { container_device_map = m })
        | err e ↦ err (error_val_format e)
      ]
  from_parts k v _ = err (error_key_format k)

  unfoldable pub new_pi_from_raw : Text → Text → Result PodInfo
  unfolding from_parts
  new_pi_from_raw k v = from_parts k v (Strings.split k b'/')
