-- ===== src/Manager.antt =====
-- pkg/manager/manager.go and cmd/main.go: how the agent is put together. The clients of the cluster
-- are parameters. The proofs are in the modules below.
pub mod Start
pub mod Connect
pub mod Run
pub mod Main
use elastic_gpu_agent.Prelude.{
  ℕ, ◌++◌, length, ltb, ◌≡◌, Option, none, some, List, [], ◌∷◌, Text, codes, text_eq, if◌then◌else◌,
  Result, ok, err, Error, Dict,
}
use elastic_gpu_agent.Common.Clients.{
  ClientGo, must_new_client_in_cluster, new_client_from_kubeconf,
}
use elastic_gpu_agent.Storage.{new_storage}
use elastic_gpu_agent.Storage.Bolt.{BoltDb}
use elastic_gpu_agent.Operator.Nvml.{GpuDevice}
use elastic_gpu_agent.Kube.PodResources.{Kubelet}
use elastic_gpu_agent.Kube.Sitter.{Cluster, Object, Sitter, new_sitter}
use elastic_gpu_agent.Plugins.Factory.{GpuSharePlugin, plugin_factory}

-- `make(chan interface{}, 1)`
abbrev pub gc_chan_cap : ℕ
gc_chan_cap = 1

-- A send on the channel; none while it waits for room.
unfoldable pub send : Object → List Object → Option (List Object)
send obj chan = if ltb (length chan) gc_chan_cap then some (chan ++ obj ∷ []) else none

-- The sitter of `NewGPUManager`, with its hook.
unfoldable pub manager_sitter :
    (Text → Text → Text) → Text → Cluster → Sitter (List Object → Option (List Object))
unfolding new_sitter send
manager_sitter one_term_equal_selector node_name cluster =
    new_sitter one_term_equal_selector cluster node_name send

-- of `GPUManagerImpl`, what the options set
pub record Settings : Type 0 where
  pub node_name : Text
  pub kubeconf : Text
  pub db_path : Text
  pub gpu_plugin_name : Text

-- `Option`
unfoldable pub with_node_name : Text → Settings → Settings
with_node_name node_name m = record m { node_name = node_name }

unfoldable pub with_kubeconf : Text → Settings → Settings
with_kubeconf kubeconf m = record m { kubeconf = kubeconf }

unfoldable pub with_db_path : Text → Settings → Settings
with_db_path path m = record m { db_path = path }

unfoldable pub with_gpu_plugin_name : Text → Settings → Settings
with_gpu_plugin_name name m = record m { gpu_plugin_name = name }

apply_options : List (Settings → Settings) → Settings → Settings
apply_options [] m = m
apply_options (option ∷ options) m = apply_options options (option m)

abbrev no_settings : Settings
no_settings = record { node_name = []; kubeconf = []; db_path = []; gpu_plugin_name = [] }

-- What the libraries answer: clients of the cluster, and the kubelet as each
-- locator finds it, and what the two calls of `Devices` return.
-- `versioned_for_config` is `versioned.NewForConfig`.
pub record Clients : Type 1 where
  pub go : ClientGo
  pub versioned_for_config : go.Config → Result (Unit {0})
  pub one_term_equal_selector : Text → Text → Text
  pub kubelet_for_core : Kubelet
  pub kubelet_for_memory : Kubelet
  pub devices_for_memory : List GpuDevice × Option Error
  pub devices_for_core : List GpuDevice × Option Error

module _ {A B : Type 0} where
  and_then : Result A → (A → Result B) → Result B
  and_then (ok a) f = f a
  and_then (err e) f = err e

unfoldable pub connect : Clients → Text → Result (Unit {0})
unfolding and_then
connect clients kubeconf =
    if text_eq kubeconf []
    then and_then (must_new_client_in_cluster clients.go)
        (λ _. and_then clients.go.in_cluster_config clients.versioned_for_config)
    else and_then (new_client_from_kubeconf clients.go kubeconf) (λ _.
      and_then (clients.go.build_config_from_flags [] kubeconf) clients.versioned_for_config)

module _ (bolt : BoltDb) (mkdir_all : Text → Result (Unit {0})) (clients : Clients) where
  pub record Manager : Type 0 where
    pub settings : Settings
    pub db : bolt.Db
    pub sitter : Cluster → Sitter (List Object → Option (List Object))
    pub plugin : GpuSharePlugin

  with_settings : Settings → Result Manager
  unfolding connect
  with_settings m = and_then (connect clients m.kubeconf) (λ _.
      and_then (new_storage bolt mkdir_all m.db_path) (λ db.
        and_then
          (plugin_factory m.gpu_plugin_name clients.kubelet_for_core clients.kubelet_for_memory
            clients.devices_for_memory clients.devices_for_core)
          (λ plugin. ok (record {
            settings = m;
            db = db;
            sitter = manager_sitter clients.one_term_equal_selector m.node_name;
            plugin = plugin;
          }))))

  -- `NewGPUManager`
  unfoldable pub new_gpu_manager : List (Settings → Settings) → Result Manager
  unfolding with_settings apply_options
  new_gpu_manager options = with_settings (apply_options options no_settings)

-- The options of `main`, from its four flags.
unfoldable pub main_options : Text → Text → Text → Text → List (Settings → Settings)
unfolding with_node_name with_db_path with_kubeconf with_gpu_plugin_name
main_options node dbfile kubeconf gpu_plugin_name =
    with_node_name node
    ∷ with_db_path dbfile
    ∷ with_kubeconf kubeconf
    ∷ with_gpu_plugin_name gpu_plugin_name
    ∷ []

-- the default of the flag `gpuPluginName`
abbrev pub default_plugin_name : Text
default_plugin_name = codes "qgpu"
