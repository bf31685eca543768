-- ===== src/Plugins/World.antt =====
-- What the plugins of one agent share: the file system of the node, the database, and the two
-- locators, each with the state of its connection.
use elastic_gpu_agent.Prelude.{Exec}
use elastic_gpu_agent.Operator.FileSystem.{Files}
use elastic_gpu_agent.Storage.Bolt.{BoltDb}
use elastic_gpu_agent.Kube.Locator.{KubeletDeviceLocator}

pub record World (files : Files) (bolt : BoltDb) : Type 0 where
  pub fs : files.State
  pub db : bolt.Db
  pub core_locator : KubeletDeviceLocator
  pub memory_locator : KubeletDeviceLocator

module _ {files : Files} {bolt : BoltDb} {A : Type 0} where
  -- An action on one part of the world.
  abbrev pub on_fs : Exec files.State A → Exec (World files bolt) A
  on_fs m w = let (r, fs') = m w.fs in (r, record w { fs = fs' })

  abbrev pub on_core_locator : Exec KubeletDeviceLocator A → Exec (World files bolt) A
  on_core_locator m w = let (r, k) = m w.core_locator in (r, record w { core_locator = k })

  abbrev pub on_memory_locator : Exec KubeletDeviceLocator A → Exec (World files bolt) A
  on_memory_locator m w = let (r, k) = m w.memory_locator in (r, record w { memory_locator = k })
