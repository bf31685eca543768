-- ===== src/Plugins/Plugin.antt =====
-- `Plugin` (pkg/plugins/plugin.go): a server of a device plugin like `DevicePluginServer` of
-- pkg/plugins/base.go, with the same code in its methods. Nothing makes one.
use elastic_gpu_agent.Prelude.{Bool, [], Text, Exec}
use elastic_gpu_agent.Plugins.Factory.{PluginServer}
use elastic_gpu_agent.Plugins.Server.{Server, Step}
use elastic_gpu_agent.Plugins.Registration.{Network, register, serve_socket, wait}

record Plugin : Type 0 where
  endpoint : Text
  resource_name : Text
  pre_start_required : Bool

-- The fields that the methods read; the devices are those of the service that it serves.
as_server : Plugin → PluginServer
as_server p = record {
  endpoint = p.endpoint;
  resource_name = p.resource_name;
  pre_start_required = p.pre_start_required;
  devices = [];
}

-- `Run`, step by step
RunStep : Server → Server → Type 0
RunStep = Step

module _ (network : Network) where
  open network use {State}

  plugin_register : Plugin → Exec State (Unit {0})
  unfolding as_server
  plugin_register p = register network (as_server p)

  plugin_serve : Plugin → Exec State (Unit {0})
  unfolding as_server
  plugin_serve p = serve_socket network (as_server p)

  plugin_wait : Plugin → Exec State (Unit {0})
  unfolding as_server
  plugin_wait p = wait network (as_server p)
