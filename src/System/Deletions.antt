-- ===== src/System/Deletions.antt =====
-- From the deletion of a pod to the collector: the informer passes it to the handler of `NewSitter`
-- (pkg/kube/sitter.go), which sends it on the channel that `NewGPUManager` made
-- (pkg/manager/manager.go), from which `GC` (pkg/plugins/base.go) receives.
pub mod Order
pub mod Drained
use elastic_gpu_agent.Prelude.{
  ℕ, suc, ◌+◌, ◌*◌, ◌≡◌, Option, none, some, List, [], ◌∷◌, ◌++◌, Text, All, length, ltb,
  if◌then◌else◌,
}
use elastic_gpu_agent.Types.Json.{Json, IsAscii}
use elastic_gpu_agent.Storage.Bolt.{BoltDb}
use elastic_gpu_agent.Operator.FileSystem.{Files}
use elastic_gpu_agent.Kube.Sitter.{Cluster, Object, Sitter, new_sitter}
use elastic_gpu_agent.Kube.PodResources.{Kubelet}
use elastic_gpu_agent.Manager.{manager_sitter, send, gc_chan_cap}
use elastic_gpu_agent.Plugins.PreStart.{pre_start_core, pre_start_memory}
use elastic_gpu_agent.Plugins.Gc.{timer, event_of, gc}
use elastic_gpu_agent.System.{Agent, IsNamed}

module _ (files : Files) (bolt : BoltDb) (json : Json) (selector : Text → Text → Text)
    (node_name : Text) where
  -- The agent with what is on its way to the collector: the deletions that the informer has to pass
  -- on, of which the first is the handler's, and those in the channel. Beside them, all deletions
  -- that there were, and those that the collector has received.
  pub record NodeState : Type 0 where
    pub agent : Agent files bolt json
    pub pending : List Object
    pub gc_chan : List Object
    pub announced : List Object
    pub received : List Object

  -- A step on the way: the handler's send is done, or the collector receives and ends its round.
  pub data Turn (cluster : Cluster) (s : NodeState) : NodeState → Type 0 where
    sends :
        (obj : Object) (rest chan : List Object)
        → s.pending ≡ obj ∷ rest
        → (manager_sitter selector node_name cluster).delete_func obj s.gc_chan ≡ some chan
        → Turn cluster s (record s { pending = rest; gc_chan = chan })
    receives :
        (obj : Object) (rest : List Object)
        → s.gc_chan ≡ obj ∷ rest
        → Turn cluster s (record s {
          agent =
              gc files bolt json
                (manager_sitter selector node_name cluster).pods
                (event_of obj)
                s.agent;
          gc_chan = rest;
          received = s.received ++ obj ∷ [];
        })

  pub data Turns (cluster : Cluster) (s : NodeState) : ℕ → NodeState → Type 0 where
    none_yet : Turns cluster s 0 s
    another :
        {n : ℕ} {t u : NodeState}
        → Turns cluster s n t
        → Turn cluster t u
        → Turns cluster s (suc n) u

  -- Whatever happens on the node: a pod is deleted, a turn, the timer of the collector, a start of a
  -- container. What the cluster and the kubelet answer may be other at each step.
  pub data Happens (s : NodeState) : NodeState → Type 0 where
    deletes :
        (obj : Object)
        → Happens s
            (record s { pending = s.pending ++ obj ∷ []; announced = s.announced ++ obj ∷ [] })
    turns : {t : NodeState} (cluster : Cluster) → Turn cluster s t → Happens s t
    times_out :
        (cluster : Cluster)
        → Happens s (record s {
          agent = gc files bolt json (manager_sitter selector node_name cluster).pods timer s.agent;
        })
    starts_core :
        (kubelet : Kubelet) (cluster : Cluster) (ids : List Text)
        → IsNamed kubelet
        → All IsAscii ids
        → Happens s (record s {
          agent =
              (pre_start_core files bolt json kubelet
                (manager_sitter selector node_name cluster).pods
                ids
                s.agent).1;
        })
    starts_memory :
        (kubelet : Kubelet) (cluster : Cluster) (ids : List Text)
        → IsNamed kubelet
        → All IsAscii ids
        → Happens s (record s {
          agent =
              (pre_start_memory files bolt json kubelet
                (manager_sitter selector node_name cluster).pods
                ids
                s.agent).1;
        })

  pub data Steps (s : NodeState) : NodeState → Type 0 where
    here : Steps s s
    next : {t u : NodeState} → Steps s t → Happens t u → Steps s u

  -- The turns that are left: two for a deletion that is not sent yet, one for one in the channel.
  unfoldable pub turns_left : NodeState → ℕ
  turns_left s = 2 * length s.pending + length s.gc_chan
