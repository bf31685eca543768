-- ===== src/Plugins/Factory.antt =====
-- `PluginFactory` and `NewGPUSharePlugin` (pkg/plugins/base.go): the choice of the plugins by name.
-- The proofs are in the module below.
pub mod Choice
use elastic_gpu_agent.Prelude.{
  Bool, true, Option, none, some, List, Text, codes, text_eq, if◌then◌else◌, Result, ok, err, Error,
  cannot_find_plugin, Dict, insert, [],
}
use elastic_gpu_agent.Common.{resource_gpu_core, resource_gpu_memory}
use elastic_gpu_agent.Operator.Nvml.{GpuDevice}
use elastic_gpu_agent.Kube.PodResources.{Kubelet}
use elastic_gpu_agent.Kube.Locator.{KubeletDeviceLocator, new_kubelet_device_locator}
use elastic_gpu_agent.Plugins.Devices.{PluginDevice, core_devices, memory_devices}

abbrev pub gpushare : Text
gpushare = codes "gpushare"

-- `DevicePluginServer`, with the devices of its plugin
pub record PluginServer : Type 0 where
  pub endpoint : Text
  pub resource_name : Text
  pub pre_start_required : Bool
  pub devices : List PluginDevice

with_core : List PluginDevice → Result (List PluginDevice) → Result (Dict PluginServer)
with_core memory (err e) = err e
with_core memory (ok core) = ok (
    insert resource_gpu_core
      (record {
        endpoint = codes "elastic-gpushare-core.sock";
        resource_name = resource_gpu_core;
        pre_start_required = true;
        devices = core;
      })
      (insert resource_gpu_memory
        (record {
          endpoint = codes "elastic-gpushare-mem.sock";
          resource_name = resource_gpu_memory;
          pre_start_required = true;
          devices = memory;
        })
        []))

with_memory : Result (List PluginDevice) → Result (List PluginDevice) → Result (Dict PluginServer)
unfolding with_core
with_memory (err e) core = err e
with_memory (ok memory) core = with_core memory core

-- `NewGPUSharePlugin`, of what the two calls of `Devices` return
unfoldable pub new_gpu_share_plugin :
    List GpuDevice × Option Error → List GpuDevice × Option Error → Result (Dict PluginServer)
unfolding with_memory
new_gpu_share_plugin for_memory for_core =
    with_memory (memory_devices for_memory) (core_devices for_core)

-- What `PluginFactory` makes: the servers, and the locators that it puts into the configuration of the
-- plugins. The operator that it puts there is that of pkg/operator/gpushare.go.
pub record GpuSharePlugin : Type 0 where
  pub servers : Dict PluginServer
  pub locators : Dict KubeletDeviceLocator

abbrev pub locators_of : Kubelet → Kubelet → Dict KubeletDeviceLocator
locators_of core memory =
    insert resource_gpu_core (new_kubelet_device_locator core resource_gpu_core)
      (insert resource_gpu_memory (new_kubelet_device_locator memory resource_gpu_memory) [])

with_locators : Dict KubeletDeviceLocator → Result (Dict PluginServer) → Result GpuSharePlugin
with_locators locators (ok servers) = ok (record { servers = servers; locators = locators })
with_locators locators (err e) = err e

-- `PluginFactory`, of the kubelet as each of the locators finds it
unfoldable pub plugin_factory :
    Text
    → Kubelet
    → Kubelet
    → List GpuDevice × Option Error
    → List GpuDevice × Option Error
    → Result GpuSharePlugin
unfolding with_locators
plugin_factory name core memory for_memory for_core =
    if text_eq name gpushare
    then with_locators (locators_of core memory) (new_gpu_share_plugin for_memory for_core)
    else err (cannot_find_plugin name)
