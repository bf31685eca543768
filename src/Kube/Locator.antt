-- ===== src/Kube/Locator.antt =====
-- pkg/kube/locator.go: the container that holds a set of devices. The proofs are in the module
-- below.
pub mod Search
pub mod Found
use elastic_gpu_agent.Prelude.{
  Bool, true, false, Option, none, some, List, [], ◌∷◌, ◌++◌, Text, text_eq, if◌then◌else◌, Result,
  ok, err, Error, no_such_pod, Exec, insert, Dict,
}
use elastic_gpu_agent.Types.Device.{Device, new_device, device_equals}
use elastic_gpu_agent.Types.Pod.{PodContainer, PodInfo, new_pi}
use elastic_gpu_agent.Kube.PodResources.{
  ContainerDevices, ContainerResources, PodResources, Kubelet,
}

pub record KubeletDeviceLocator : Type 0 where
  pub err : Option Error
  pub resource : Text

error_of : Result (Unit {0}) → Option Error
error_of (ok u) = none
error_of (err e) = some e

-- A connection that fails is remembered, and tried again by the next `Locate`.
unfoldable pub new_kubelet_device_locator : Kubelet → Text → KubeletDeviceLocator
unfolding error_of
new_kubelet_device_locator kubelet resource = record {
  err = error_of kubelet.get_client;
  resource = resource;
}

module _ (resource : Text) (devices : Device) where
  -- The loop over a container's devices: `none` if one entry alone is the set, and otherwise the ids
  -- of the entries of the resource.
  scan : List ContainerDevices → List Text → Option (List Text)
  scan [] device_ids = some device_ids
  scan (r ∷ rs) device_ids =
      let more = scan rs (device_ids ++ r.device_ids) in
      let skip = scan rs device_ids in
      if text_eq r.resource_name resource
      then (if device_equals devices (new_device r.device_ids r.resource_name) then none else more)
      else skip

  holds : ContainerResources → Bool
  unfolding scan
  holds container = elim (scan container.devices []) [
    | none ↦ true
    | some device_ids ↦ device_equals devices (new_device device_ids resource)
  ]

  in_containers : Text → Text → List ContainerResources → Option PodContainer
  unfolding holds
  in_containers namespace name [] = none
  in_containers namespace name (c ∷ cs) =
      let rest = in_containers namespace name cs in
      if holds c
      then some (record { namespace = namespace; name = name; container = c.name })
      else rest

  or_else : Option PodContainer → Option PodContainer → Option PodContainer
  or_else (some pc) rest = some pc
  or_else none rest = rest

  pub in_pods : List PodResources → Option PodContainer
  unfolding in_containers or_else
  in_pods [] = none
  in_pods (pod ∷ pods) =
      or_else (in_containers pod.namespace pod.name pod.containers) (in_pods pods)

answer : Option PodContainer → Result PodContainer
answer (some pc) = ok pc
answer none = err no_such_pod

-- `List` and the search; a failed call breaks the connection.
query : Device → Result (List PodResources) → Exec KubeletDeviceLocator PodContainer
unfolding in_pods answer
query devices (ok pods) k = (answer (in_pods k.resource devices pods), k)
query devices (err e) k = (err e, record k { err = some e })

reconnect : Result (Unit {0}) → Kubelet → Device → Exec KubeletDeviceLocator PodContainer
unfolding query
reconnect (ok u) kubelet devices k = query devices kubelet.list (record k { err = none })
reconnect (err e) kubelet devices k = (err e, record k { err = some e })

connected : Option Error → Kubelet → Device → Exec KubeletDeviceLocator PodContainer
unfolding reconnect
connected none kubelet devices k = query devices kubelet.list k
connected (some e) kubelet devices k = reconnect kubelet.get_client kubelet devices k

unfoldable pub locate : Kubelet → Device → Exec KubeletDeviceLocator PodContainer
unfolding connected
locate kubelet devices k = connected k.err kubelet devices k

-- `KubeletDeviceLocator.List`
module _ (resource : Text) where
  record_devices : Text → List ContainerDevices → Dict Device → Dict Device
  record_devices container [] m = m
  record_devices container (r ∷ rs) m = record_devices container rs (
      if text_eq r.resource_name resource
      then insert container (new_device r.device_ids resource) m
      else m)

  record_containers : List ContainerResources → Dict Device → Dict Device
  unfolding record_devices
  record_containers [] m = m
  record_containers (c ∷ cs) m = record_containers cs (record_devices c.name c.devices m)

  record_pods : List PodResources → List PodInfo
  unfolding record_containers
  record_pods [] = []
  record_pods (pod ∷ pods) =
      record (new_pi pod.namespace pod.name) {
        container_device_map = some (record_containers pod.containers []);
      }
      ∷ record_pods pods

unfoldable pub list_pods : Kubelet → KubeletDeviceLocator → Result (List PodInfo)
unfolding record_pods
list_pods kubelet k = elim kubelet.list [
  | ok pods ↦ ok (record_pods k.resource pods)
  | err e ↦ err e
]
