-- ===== src/Tests/Kube.antt =====
-- The search of a pod's container by its devices.
use elastic_gpu_agent.Prelude.{refl, inl, none, [], ◌∷◌, List, Text, codes, ok}
use elastic_gpu_agent.Common.{resource_gpu_core, resource_gpu_memory}
use elastic_gpu_agent.Types.Device.{new_device}
use elastic_gpu_agent.Kube.PodResources.{PodResources, Kubelet}
use elastic_gpu_agent.Kube.Provider.{Providers, list, IsAnswer, locate-list}
use elastic_gpu_agent.Kube.Locator.{KubeletDeviceLocator, locate}
use elastic_gpu_agent.Kube.Locator.Search.{Located, locate-Located}

abbrev pub unit : List Text
unit = codes "0-00" ∷ []

abbrev pub pods : List PodResources
pods =
    record {
      name = codes "web";
      namespace = codes "s";
      containers =
          record {
            name = codes "c";
            devices =
                record { resource_name = resource_gpu_core; device_ids = unit }
                ∷ record { resource_name = resource_gpu_memory; device_ids = unit }
                ∷ [];
          }
          ∷ [];
    }
    ∷ []

abbrev pub kubelet : Kubelet
kubelet = record { get_client = ok tt; list = ok pods }

abbrev pub core_locator : KubeletDeviceLocator
core_locator = record { err = none; resource = resource_gpu_core }

locate-Located_example :
    Located resource_gpu_core unit pods
      (locate kubelet (new_device unit resource_gpu_core) core_locator).0
locate-Located_example = locate-Located kubelet core_locator unit pods (inl refl) refl

-- The same pod, as the providers of the server give it.
abbrev providers : Providers
providers = record {
  get_pods =
      record {
        uid = codes "u";
        name = codes "web";
        namespace = codes "s";
        containers = codes "c" ∷ [];
      }
      ∷ [];
  get_devices = λ uid name. record { resource_name = resource_gpu_core; device_ids = unit } ∷ [];
}

abbrev served : Kubelet
served = record { get_client = ok tt; list = list providers }

locate-list_example :
    IsAnswer providers resource_gpu_core unit
      (locate served (new_device unit resource_gpu_core) core_locator).0
locate-list_example = locate-list providers served core_locator unit (inl refl) refl
