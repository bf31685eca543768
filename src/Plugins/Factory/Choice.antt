-- ===== src/Plugins/Factory/Choice.antt =====
-- When the factory makes plugins, and which.
use elastic_gpu_agent.Prelude.{
  codes, false, ◌≢◌, ◌≡◌, refl, Option, some, List, Text, text_eq, text_eq_iff, Result, ok, err,
  Error, Dict, lookup, Bool-cases, inl, inr, arith, insert, subst,
}
use elastic_gpu_agent.Prelude.Order.{text_le}
use elastic_gpu_agent.Common.{resource_gpu_core, resource_gpu_memory}
use elastic_gpu_agent.Operator.Nvml.{GpuDevice}
use elastic_gpu_agent.Kube.PodResources.{Kubelet}
use elastic_gpu_agent.Kube.Locator.{KubeletDeviceLocator, new_kubelet_device_locator}
use elastic_gpu_agent.Plugins.Devices.{PluginDevice, core_devices, memory_devices}
use elastic_gpu_agent.Go.Strings.{join, split}
use elastic_gpu_agent.Go.FilePath.{join_path, clean}
use elastic_gpu_agent.Plugins.Registration.{socket_path, get_device_plugin_options}
use elastic_gpu_agent.Plugins.Factory.{
  gpushare, PluginServer, with_core, with_memory, new_gpu_share_plugin, plugin_factory,
  GpuSharePlugin, locators_of, with_locators,
}

-- A server for each resource, with the devices that its plugin announces, a socket of its own, and the
-- options that `GetDevicePluginOptions` answers.
pub record Serves (for_memory for_core : List GpuDevice × Option Error)
    (servers : Dict PluginServer) : Type 0 where
  pub memory : PluginServer
  pub core : PluginServer
  pub has_memory : lookup resource_gpu_memory servers ≡ some memory
  pub has_core : lookup resource_gpu_core servers ≡ some core
  pub memory_named : memory.resource_name ≡ resource_gpu_memory
  pub core_named : core.resource_name ≡ resource_gpu_core
  pub memory_devices_of : memory_devices for_memory ≡ ok memory.devices
  pub core_devices_of : core_devices for_core ≡ ok core.devices
  pub apart : socket_path memory.endpoint ≢ socket_path core.endpoint
  pub memory_options : memory.pre_start_required ≡ get_device_plugin_options
  pub core_options : core.pre_start_required ≡ get_device_plugin_options

different : (a b : Text) → text_eq a b ≡ false → a ≢ b
different a b h e = ground (arith, h, e, text_eq_iff a b)

sockets_differ :
    text_eq
      (socket_path (codes "elastic-gpushare-mem.sock"))
      (socket_path (codes "elastic-gpushare-core.sock"))
    ≡ false
unfolding socket_path join_path clean text_eq join split
sockets_differ = refl

sockets_apart :
    socket_path (codes "elastic-gpushare-mem.sock")
    ≢ socket_path (codes "elastic-gpushare-core.sock")
sockets_apart = different _ _ sockets_differ

with_memory-Serves :
    (m c : List GpuDevice × Option Error) (rm rc : Result (List PluginDevice))
    (servers : Dict PluginServer)
    → memory_devices m ≡ rm
    → core_devices c ≡ rc
    → with_memory rm rc ≡ ok servers
    → Serves m c servers
unfolding with_memory with_core lookup insert text_eq text_le get_device_plugin_options
with_memory-Serves m c (err e) rc servers g h s = absurd (cc)
with_memory-Serves m c (ok ms) (err e) servers g h s = absurd (cc)
with_memory-Serves m c (ok ms) (ok cs) servers g h s = subst (Serves m c) (inner s) (record {
  memory = _;
  core = _;
  has_memory = refl;
  has_core = refl;
  memory_named = refl;
  core_named = refl;
  memory_devices_of = g;
  core_devices_of = h;
  apart = sockets_apart;
  memory_options = refl;
  core_options = refl;
})
  where
    inner :
        {d : Dict PluginServer}
        → ◌≡◌ {A = Result (Dict PluginServer)} (ok d) (ok servers)
        → d ≡ servers
    inner e = cc

-- A locator for each resource, which asks for that resource.
pub record Locates (locators : Dict KubeletDeviceLocator) : Type 0 where
  pub core : KubeletDeviceLocator
  pub memory : KubeletDeviceLocator
  pub has_core : lookup resource_gpu_core locators ≡ some core
  pub has_memory : lookup resource_gpu_memory locators ≡ some memory
  pub core_asks : core.resource ≡ resource_gpu_core
  pub memory_asks : memory.resource ≡ resource_gpu_memory

locators_of-Locates : (core memory : Kubelet) → Locates (locators_of core memory)
unfolding lookup insert text_eq text_le new_kubelet_device_locator
locators_of-Locates core memory = record {
  core = _;
  memory = _;
  has_core = refl;
  has_memory = refl;
  core_asks = refl;
  memory_asks = refl;
}

-- The factory makes plugins only for the name `gpushare`, and then a server for the memory and one for
-- the cores, each with the devices of its own listing, at sockets that differ, and registered with
-- the options that it answers itself; and a locator for each, which asks the kubelet for the
-- plugin's resource.
pub plugin_factory-Serves :
    (name : Text) (core memory : Kubelet) (m c : List GpuDevice × Option Error)
    (plugin : GpuSharePlugin)
    → plugin_factory name core memory m c ≡ ok plugin
    → (name ≡ gpushare) × Serves m c plugin.servers × Locates plugin.locators
unfolding plugin_factory new_gpu_share_plugin with_locators
plugin_factory-Serves name core memory m c plugin e = elim (Bool-cases (text_eq name gpushare)) [
  | inl yes_ ↦
      (let (serves, locates) =
          go (with_memory (memory_devices m) (core_devices c)) refl (rw yes_ at e) in
        ((text_eq_iff name gpushare).0 yes_, serves, locates))
  | inr no_ ↦ absurd (ground arith)
]
  where
    go :
        (r : Result (Dict PluginServer))
        → with_memory (memory_devices m) (core_devices c) ≡ r
        → with_locators (locators_of core memory) r ≡ ok plugin
        → Serves m c plugin.servers × Locates plugin.locators
    go (ok servers) f g =
        let same : ◌≡◌ {A = GpuSharePlugin}
            (record { servers = servers; locators = locators_of core memory }) plugin =
          same_plugin g in
        subst (λ (x : GpuSharePlugin). Serves m c x.servers × Locates x.locators) same
          (
            with_memory-Serves m c (memory_devices m) (core_devices c) servers refl refl f,
            locators_of-Locates core memory,
          )
      where
        same_plugin : {x y : GpuSharePlugin} → ◌≡◌ {A = Result GpuSharePlugin} (ok x) (ok y) → x ≡ y
        same_plugin e = cc
    go (err x) f g = absurd (cc g)
