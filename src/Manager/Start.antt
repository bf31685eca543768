-- ===== src/Manager/Start.antt =====
-- When the manager starts.
use elastic_gpu_agent.Prelude.{◌≡◌, ◌≢◌, refl, subst, Text, Result, ok, err}
use elastic_gpu_agent.Storage.{new_storage}
use elastic_gpu_agent.Storage.Bolt.{BoltDb}
use elastic_gpu_agent.Plugins.Factory.{GpuSharePlugin, plugin_factory, gpushare}
use elastic_gpu_agent.Plugins.Factory.Choice.{Serves, Locates, plugin_factory-Serves}
use elastic_gpu_agent.Manager.Connect.{IsUsable, connect_iff}
use elastic_gpu_agent.Manager.{
  Settings, Clients, Manager, and_then, connect, with_settings, new_gpu_manager, main_options,
  default_plugin_name, manager_sitter,
}

and_then-ok :
    {A B : Type 0} (r : Result A) (f : A → Result B) (b : B)
    → and_then r f ≡ ok b
    → (a : A) × (r ≡ ok a) × (f a ≡ ok b)
unfolding and_then
and_then-ok (ok a) f b e = (a, refl, e)
and_then-ok (err x) f b e = absurd (cc)

module _ (bolt : BoltDb) (mkdir_all : Text → Result (Unit {0})) (clients : Clients) where
  -- A manager that runs: it has a configuration that its clients can be made with, its storage is
  -- open, its sitter is that of its node, its servers are those of the two listings, and its
  -- locators ask for the plugins' resources.
  pub record IsReady (m : Settings) (manager : Manager bolt mkdir_all clients) : Type 0 where
    pub usable : IsUsable clients m.kubeconf
    pub opens : new_storage bolt mkdir_all m.db_path ≡ ok manager.db
    pub sits : manager.sitter ≡ manager_sitter clients.one_term_equal_selector m.node_name
    pub named : m.gpu_plugin_name ≡ gpushare
    pub serves : Serves clients.devices_for_memory clients.devices_for_core manager.plugin.servers
    pub locates : Locates manager.plugin.locators

  with_settings-IsReady :
      (m : Settings) (manager : Manager bolt mkdir_all clients)
      → with_settings bolt mkdir_all clients m ≡ ok manager
      → IsReady m manager
  unfolding with_settings
  with_settings-IsReady m manager e =
      let (u, c, e1) = and_then-ok (connect clients m.kubeconf) _ manager e in
      let (db, o, e2) = and_then-ok (new_storage bolt mkdir_all m.db_path) _ manager e1 in
      let (plugin, f, e3) =
        and_then-ok
          (plugin_factory m.gpu_plugin_name clients.kubelet_for_core clients.kubelet_for_memory
            clients.devices_for_memory clients.devices_for_core)
          _ manager e2 in
      let (named, serves, locates) = plugin_factory-Serves m.gpu_plugin_name _ _ _ _ plugin f in
      ready db plugin ((connect_iff clients m.kubeconf).0 c) o named serves locates e3
    where
      ready :
          (db : bolt.Db) (plugin : GpuSharePlugin)
          → IsUsable clients m.kubeconf
          → new_storage bolt mkdir_all m.db_path ≡ ok db
          → m.gpu_plugin_name ≡ gpushare
          → Serves clients.devices_for_memory clients.devices_for_core plugin.servers
          → Locates plugin.locators
          → ◌≡◌ {A = Result (Manager bolt mkdir_all clients)}
              (ok (record {
                settings = m;
                db = db;
                sitter = manager_sitter clients.one_term_equal_selector m.node_name;
                plugin = plugin;
              }))
              (ok manager)
          → IsReady m manager
      ready db plugin k o n s l e =
          let same : ◌≡◌ {A = Manager bolt mkdir_all clients}
              (record {
                settings = m;
                db = db;
                sitter = manager_sitter clients.one_term_equal_selector m.node_name;
                plugin = plugin;
              })
              manager =
            cc in
          subst (IsReady m) same
            (record { usable = k; opens = o; sits = refl; named = n; serves = s; locates = l })

  pub new_gpu_manager-IsReady :
      (node dbfile kubeconf name : Text) (manager : Manager bolt mkdir_all clients)
      → new_gpu_manager bolt mkdir_all clients (main_options node dbfile kubeconf name) ≡ ok manager
      → IsReady
          (record {
            node_name = node;
            kubeconf = kubeconf;
            db_path = dbfile;
            gpu_plugin_name = name;
          })
          manager
  unfolding new_gpu_manager main_options
  new_gpu_manager-IsReady node dbfile kubeconf name manager e = with_settings-IsReady _ manager e

  -- With the default of the flag for the plugin's name the agent never starts.
  pub new_gpu_manager-default_plugin_name :
      (node dbfile kubeconf : Text) (manager : Manager bolt mkdir_all clients)
      → new_gpu_manager bolt mkdir_all clients
          (main_options node dbfile kubeconf default_plugin_name)
        ≢ ok manager
  new_gpu_manager-default_plugin_name node dbfile kubeconf manager e =
      different (new_gpu_manager-IsReady node dbfile kubeconf default_plugin_name manager e).named
    where
      different : default_plugin_name ≢ gpushare
      different e = cc
