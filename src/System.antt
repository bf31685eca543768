-- ===== src/System.antt =====
-- The agent as a whole: the handlers of the two plugins and the collector, which act on one file
-- system and one database. The handlers of one plugin exclude each other by its lock; those of the
-- other plugin and the collector may run at the same time, so the smallest steps are single calls.
pub mod Handlers
pub mod Safety
pub mod Runs
pub mod Journey
pub mod Hooked
pub mod Deletions
pub mod Toolkit
pub mod Recorded
pub mod Forgotten
pub mod Collided
pub mod Threads
use elastic_gpu_agent.Prelude.{ℕ, ◌≡◌, List, Text, Member, All, Result, ok, ℤ}
use elastic_gpu_agent.Common.{resource_gpu_core, resource_gpu_memory}
use elastic_gpu_agent.Go.FilePath.{IsSegment}
use elastic_gpu_agent.Types.Json.{Json, IsAscii}
use elastic_gpu_agent.Types.Pod.{PodInfo}
use elastic_gpu_agent.Types.Pod.RoundTrip.{IsValid}
use elastic_gpu_agent.Storage
use elastic_gpu_agent.Storage.{save}
use elastic_gpu_agent.Storage.Bolt.{BoltDb}
use elastic_gpu_agent.Storage.Iteration.{IsStore}
use elastic_gpu_agent.Operator.FileSystem.{Files}
use elastic_gpu_agent.Operator.Gpushare
use elastic_gpu_agent.Operator.Gpushare.{create}
use elastic_gpu_agent.Kube.Sitter.{PodSitter}
use elastic_gpu_agent.Kube.PodResources.{PodResources, ContainerResources, Kubelet}
use elastic_gpu_agent.Kube.Locator.{KubeletDeviceLocator}
use elastic_gpu_agent.Plugins.Share.{share_id}
use elastic_gpu_agent.Plugins.World.{World}
use elastic_gpu_agent.Plugins.PreStart.{pre_start_core, pre_start_memory}
use elastic_gpu_agent.Plugins.Gc.{Event, gc}

-- The names that a kubelet gives: those of pods are segments of a path, those of containers ASCII.
pub record IsNamed (kubelet : Kubelet) : Type 0 where
  pub namespaces :
      (pods : List PodResources) (pod : PodResources)
      → kubelet.list ≡ ok pods
      → Member pod pods
      → IsSegment pod.namespace
  pub names :
      (pods : List PodResources) (pod : PodResources)
      → kubelet.list ≡ ok pods
      → Member pod pods
      → IsSegment pod.name
  pub containers :
      (pods : List PodResources) (pod : PodResources) (c : ContainerResources)
      → kubelet.list ≡ ok pods
      → Member pod pods
      → Member c pod.containers
      → IsAscii c.name

module _ (files : Files) (bolt : BoltDb) (json : Json) where
  abbrev pub Agent : Type 0
  Agent = World files bolt

  -- A single call of the agent on what its parts share, with its outcome left open.
  pub data Action (w : Agent) : Agent → Type 0 where
    locates_core :
        (k : KubeletDeviceLocator)
        → k.resource ≡ w.core_locator.resource
        → Action w (record w { core_locator = k })
    locates_memory :
        (k : KubeletDeviceLocator)
        → k.resource ≡ w.memory_locator.resource
        → Action w (record w { memory_locator = k })
    makes_share :
        (index : ℤ) (hash : Text) (i : ℕ)
        → Action w (record w { fs = (create files index (share_id hash i) w.fs).1 })
    removes_share :
        (index : ℤ) (hash : Text) (i : ℕ)
        → Action w (record w { fs = (Gpushare.delete files index (share_id hash i) w.fs).1 })
    saves_record :
        (p : PodInfo) → IsValid p → Action w (record w { db = (save bolt json p w.db).1 })
    drops_record : (s n : Text) → Action w (record w { db = (Storage.delete bolt json s n w.db).1 })

  -- Any number of them.
  pub data Actions (w : Agent) : Agent → Type 0 where
    rest : Actions w w
    then_ : {v u : Agent} → Actions w v → Action v u → Actions w u

  -- The agent is called: by the kubelet, before a container starts, or by an event of the collector.
  -- The kubelet, the pods and the events may be others at each call.
  pub data Call (w : Agent) : Agent → Type 0 where
    core_starts :
        (kubelet : Kubelet) (sitter : PodSitter) (ids : List Text)
        → IsNamed kubelet
        → All IsAscii ids
        → Call w (pre_start_core files bolt json kubelet sitter ids w).1
    memory_starts :
        (kubelet : Kubelet) (sitter : PodSitter) (ids : List Text)
        → IsNamed kubelet
        → All IsAscii ids
        → Call w (pre_start_memory files bolt json kubelet sitter ids w).1
    collects : (sitter : PodSitter) (event : Event) → Call w (gc files bolt json sitter event w)

  pub data Reached (w : Agent) : Agent → Type 0 where
    start : Reached w w
    later : {v u : Agent} → Reached w v → Call v u → Reached w u

  -- The records are those of valid pods, and each locator is that of its plugin's resource.
  pub record IsSound (w : Agent) : Type 0 where
    pub store : IsStore bolt json w.db
    pub core : w.core_locator.resource ≡ resource_gpu_core
    pub memory : w.memory_locator.resource ≡ resource_gpu_memory
