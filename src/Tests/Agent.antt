-- ===== src/Tests/Agent.antt =====
-- The start of the agent on a node with one GPU.
use elastic_gpu_agent.Prelude.{
  ◌↔◌, ◌⊎◌, ◌++◌, leb, Bool, some, ℕ, arith, ◌≡◌, refl, none, [], ◌∷◌, List, Text, codes, Result,
  ok, err, not_found, Option, Error, text_eq, if◌then◌else◌,
}
use elastic_gpu_agent.Storage.{new_storage}
use elastic_gpu_agent.Tests.Kube.{kubelet}
use elastic_gpu_agent.Operator.Nvml.{GpuDevice}
use elastic_gpu_agent.Kube.Client.{
  parse_endpoint, parse_endpoint_with_fallback_protocol, Url, get_address,
}
use elastic_gpu_agent.Kube.Client.Address.{IsUnix, HasNoScheme, get_address_iff}
use elastic_gpu_agent.Plugins.Devices.{core_devices, memory_devices}
use elastic_gpu_agent.Plugins.Factory.{
  GpuSharePlugin, plugin_factory, new_gpu_share_plugin, gpushare,
}
use elastic_gpu_agent.Plugins.Factory.Choice.{Serves, Locates, plugin_factory-Serves}
use elastic_gpu_agent.Manager.{
  Clients, Manager, new_gpu_manager, main_options, with_node_name, with_db_path, with_kubeconf,
  with_gpu_plugin_name,
}
use elastic_gpu_agent.Common.Clients.{ClientGo, must_new_client_in_cluster}
use elastic_gpu_agent.Kube.Sitter.{has_synced}
use elastic_gpu_agent.Manager.Run.{IsFirst}
use elastic_gpu_agent.Tests.Platform.{memory_bolt}

abbrev pub make_dir : Text → Result (Unit {0})
make_dir path = ok tt

abbrev listing : List GpuDevice × Option Error
listing =
    (record { uuid = codes "GPU"; gpu_index = codes "0"; paths = []; memory = 2097152 } ∷ [], none)

abbrev url : Text → Result Url
url s =
    if text_eq s (codes "unix:///var/lib/kubelet.sock")
    then ok (record { scheme = codes "unix"; host = []; path = codes "/var/lib/kubelet.sock" })
    else err not_found

get_address_iff_example :
    (get_address url (codes "/var/lib/kubelet.sock") ≡ ok (codes "/var/lib/kubelet.sock")) ↔ (
      IsUnix url (codes "/var/lib/kubelet.sock") (codes "/var/lib/kubelet.sock")
      ⊎ (HasNoScheme url (codes "/var/lib/kubelet.sock")
          × IsUnix url
              (codes "unix" ++ codes "://" ++ codes "/var/lib/kubelet.sock")
              (codes "/var/lib/kubelet.sock")))
get_address_iff_example =
    get_address_iff url (codes "/var/lib/kubelet.sock") (codes "/var/lib/kubelet.sock")

-- An endpoint without a scheme is taken for a socket's path.
bare_path : get_address url (codes "/var/lib/kubelet.sock") ≡ ok (codes "/var/lib/kubelet.sock")
unfolding get_address text_eq parse_endpoint_with_fallback_protocol parse_endpoint
bare_path = refl

made :
    (plugin : GpuSharePlugin) × (plugin_factory gpushare kubelet kubelet listing listing
      ≡ ok plugin)
unfolding plugin_factory new_gpu_share_plugin core_devices memory_devices text_eq
made = (_, refl)

plugin_factory-Serves_example :
    (gpushare ≡ gpushare) × Serves listing listing made.0.servers × Locates made.0.locators
plugin_factory-Serves_example =
    plugin_factory-Serves gpushare kubelet kubelet listing listing made.0 made.1

abbrev client_go : ClientGo
client_go = record {
  Config = Text;
  Clientset = Text;
  in_cluster_config = ok [];
  build_config_from_flags = λ master path. ok path;
  new_for_config = λ c. ok c;
}

abbrev pub clients : Clients
clients = record {
  go = client_go;
  versioned_for_config = λ c. ok tt;
  one_term_equal_selector = λ field value. value;
  kubelet_for_core = kubelet;
  kubelet_for_memory = kubelet;
  devices_for_memory = listing;
  devices_for_core = listing;
}

abbrev Agent : Type 0
Agent = Manager memory_bolt make_dir clients

pub started :
    (manager : Agent) × (new_gpu_manager memory_bolt make_dir clients
        (main_options (codes "node") (codes "meta.db") [] gpushare)
      ≡ ok manager)
unfolding new_gpu_manager main_options new_storage plugin_factory new_gpu_share_plugin core_devices
    memory_devices text_eq with_node_name with_db_path with_kubeconf with_gpu_plugin_name
    must_new_client_in_cluster
started = (_, refl)

-- The sitter has synced from the third poll on.
abbrev pub informer : ℕ → Option Bool
informer i = some (leb 2 i)

pub synced_third : IsFirst informer 2
unfolding has_synced
synced_third = record { synced = refl; before = λ j h. ground (arith, h) }
