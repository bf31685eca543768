-- ===== src/Kube/PodResources.antt =====
-- The messages of the kubelet's pod resources service (pkg/podresources/v1alpha1), and what it
-- answers at one time.
use elastic_gpu_agent.Prelude.{List, Text, Result}

pub record ContainerDevices : Type 0 where
  pub resource_name : Text
  pub device_ids : List Text

pub record ContainerResources : Type 0 where
  pub name : Text
  pub devices : List ContainerDevices

pub record PodResources : Type 0 where
  pub name : Text
  pub namespace : Text
  pub containers : List ContainerResources

-- The kubelet: whether a connection to its socket can be made, and what a `List` call returns.
pub record Kubelet : Type 0 where
  pub get_client : Result (Unit {0})
  pub list : Result (List PodResources)
