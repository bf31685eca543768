-- ===== src/System/Recorded.antt =====
-- How long the agent keeps the record of a container's device.
use elastic_gpu_agent.Prelude.{◌≡◌, ◌∙◌, false, List, Text, All}
use elastic_gpu_agent.Common.{resource_gpu_core, resource_gpu_memory}
use elastic_gpu_agent.Go.FilePath.{IsSegment}
use elastic_gpu_agent.Types.Json.{Json, IsAscii}
use elastic_gpu_agent.Types.Device.{Device, new_device}
use elastic_gpu_agent.Types.Device.Plain.{new_device-IsPlainDevice}
use elastic_gpu_agent.Types.Pod.{PodContainer}
use elastic_gpu_agent.Storage.Bolt.{BoltDb}
use elastic_gpu_agent.Operator.FileSystem.{Files}
use elastic_gpu_agent.Kube.Sitter.{PodSitter}
use elastic_gpu_agent.Kube.PodResources.{Kubelet}
use elastic_gpu_agent.Plugins.PreStart.{Assumed, pre_start_core, pre_start_memory}
use elastic_gpu_agent.Plugins.PreStart.Assignment.{IsAssigned, find_assumed-IsAssigned}
use elastic_gpu_agent.Plugins.PreStart.Record.{Writes-IsValid}
use elastic_gpu_agent.Plugins.PreStart.Steps.{IsKept, pre_start_core-keeps, pre_start_memory-keeps}
use elastic_gpu_agent.Plugins.Gc.{Event, is_gone, gc}
use elastic_gpu_agent.Plugins.Gc.Rounds.{gc-load}
use elastic_gpu_agent.System.{
  Agent, Actions, rest, then_, locates_core, locates_memory, Call, IsNamed, IsSound,
}
use elastic_gpu_agent.System
use elastic_gpu_agent.System.Safety.{Actions-IsSound}
use elastic_gpu_agent.System.Handlers.{
  IsFit, HeldBy-IsFit, resource-find_assumed, core-IsAscii, memory-IsAscii, kept_Actions,
  Call-Actions,
}
use elastic_gpu_agent.Plugins.PreStart.Keeping.{HasDevice, IsNoOther, save-HasDevice}

module _ (files : Files) (bolt : BoltDb) (json : Json) (s n c : Text) (d : Device) where
  -- Calls of the agent that have no reason to forget the device of the container: the kubelet starts
  -- other containers, or the container again with the same device, and the collector runs while the
  -- lister has the pod, or the API server does not say that it is missing.
  pub data Sparing (w : Agent files bolt json) : Agent files bolt json → Type 0 where
    core_starts :
        (kubelet : Kubelet) (sitter : PodSitter) (ids : List Text)
        → IsNamed kubelet
        → All IsAscii ids
        → ((a : Assumed)
            → IsAssigned kubelet sitter resource_gpu_core ids a
            → IsNoOther bolt json s n c d a.curr (new_device ids resource_gpu_core))
        → Sparing w (pre_start_core files bolt json kubelet sitter ids w).1
    memory_starts :
        (kubelet : Kubelet) (sitter : PodSitter) (ids : List Text)
        → IsNamed kubelet
        → All IsAscii ids
        → ((a : Assumed)
            → IsAssigned kubelet sitter resource_gpu_memory ids a
            → IsNoOther bolt json s n c d a.curr (new_device ids resource_gpu_memory))
        → Sparing w (pre_start_memory files bolt json kubelet sitter ids w).1
    collects :
        (sitter : PodSitter) (event : Event)
        → is_gone sitter s n ≡ false
        → Sparing w (gc files bolt json sitter event w)

  pub data Spared (w : Agent files bolt json) : Agent files bolt json → Type 0 where
    start : Spared w w
    later : {v u : Agent files bolt json} → Spared w v → Sparing v u → Spared w u

  Sparing-Call : (w v : Agent files bolt json) → Sparing w v → Call files bolt json w v
  Sparing-Call w v (core_starts kubelet sitter ids m hi k) =
      System.core_starts kubelet sitter ids m hi
  Sparing-Call w v (memory_starts kubelet sitter ids m hi k) =
      System.memory_starts kubelet sitter ids m hi
  Sparing-Call w v (collects sitter event g) = System.collects sitter event

  -- What holds along a call: the actions so far, and that the device is recorded.
  abbrev Kept : Agent files bolt json → Agent files bolt json → Type 0
  Kept w v = Actions files bolt json w v × HasDevice bolt json s n c d v.db

  Kept-IsKept :
      (resource : Text) (ids : List Text) (curr : PodContainer) (w : Agent files bolt json)
      → IsSound files bolt json w
      → IsSegment s
      → IsSegment n
      → IsFit ids resource curr
      → IsNoOther bolt json s n c d curr (new_device ids resource)
      → IsKept files bolt json (Kept w) curr (new_device ids resource)
  Kept-IsKept resource ids curr w h hs hn fit no_other =
      let k = kept_Actions files bolt json resource ids curr w h fit in
      record {
        created = λ z i v p. (k.created z i v p.0, p.1);
        deleted = λ z i v p. (k.deleted z i v p.0, p.1);
        saved = λ q v wr p. (
          k.saved q v wr p.0,
          save-HasDevice bolt json s n c d v.db curr (new_device ids resource) q wr
              (Writes-IsValid bolt json v.db curr (new_device ids resource) q wr
                (Actions-IsSound files bolt json w v h p.0).store fit.namespace fit.name
                fit.container
                (new_device-IsPlainDevice ids resource fit.ids_ascii fit.resource_ascii))
              hs hn no_other p.1,
        );
      }

  Sparing-HasDevice :
      (w v : Agent files bolt json)
      → IsSound files bolt json w
      → IsSegment s
      → IsSegment n
      → HasDevice bolt json s n c d w.db
      → Sparing w v
      → HasDevice bolt json s n c d v.db
  Sparing-HasDevice w v h hs hn has (core_starts kubelet sitter ids m hi k) =
      (pre_start_core-keeps files bolt json (Kept w) kubelet sitter ids w
        (
          then_ rest (
              locates_core _
                (resource-find_assumed kubelet sitter resource_gpu_core ids w.core_locator)),
          has,
        )
        (λ a u e.
          let g = find_assumed-IsAssigned kubelet sitter resource_gpu_core ids _ _ a h.core e in
          Kept-IsKept resource_gpu_core ids a.curr w h hs hn
            (HeldBy-IsFit kubelet resource_gpu_core ids g.pods a.curr m hi core-IsAscii g.listed
              g.held)
            (k a g))).1
  Sparing-HasDevice w v h hs hn has (memory_starts kubelet sitter ids m hi k) =
      (pre_start_memory-keeps files bolt json (Kept w) kubelet sitter ids w
        (
          then_ rest (
              locates_memory _
                (resource-find_assumed kubelet sitter resource_gpu_memory ids w.memory_locator)),
          has,
        )
        (λ a u e.
          let g = find_assumed-IsAssigned kubelet sitter resource_gpu_memory ids _ _ a h.memory e in
          Kept-IsKept resource_gpu_memory ids a.curr w h hs hn
            (HeldBy-IsFit kubelet resource_gpu_memory ids g.pods a.curr m hi memory-IsAscii g.listed
              g.held)
            (k a g))).1
  Sparing-HasDevice w v h hs hn has (collects sitter event g) = record {
    pod = has.pod;
    loads = gc-load files bolt json sitter event w s n h.store hs hn g ∙ has.loads;
    devices = has.devices;
    has_devices = has.has_devices;
    listed = has.listed;
  }

  -- The agent does not forget. From a sound state in which the record of a pod has a device for a
  -- container, it still has it after any sequence of calls, whatever fails in them, in which the
  -- kubelet starts other containers, of this pod too, or the container again with the same device,
  -- and the collector runs while the lister has the pod or the API server does not say that it is
  -- missing. The pod's names are path segments, the kubelet's names of pods too, its names of
  -- containers and the ids are ASCII.
  pub Spared-HasDevice :
      (w v : Agent files bolt json)
      → IsSound files bolt json w
      → IsSegment s
      → IsSegment n
      → HasDevice bolt json s n c d w.db
      → Spared w v
      → HasDevice bolt json s n c d v.db
  Spared-HasDevice w v h hs hn has r = (along w v h hs hn has r).1
    where
      along :
          (w v : Agent files bolt json)
          → IsSound files bolt json w
          → IsSegment s
          → IsSegment n
          → HasDevice bolt json s n c d w.db
          → Spared w v
          → IsSound files bolt json v × HasDevice bolt json s n c d v.db
      along w v h hs hn has start = (h, has)
      along w v h hs hn has (later {v = u} r k) =
          let (g, has') = along w u h hs hn has r in
          (
            Actions-IsSound files bolt json u v g
                (Call-Actions files bolt json u v g (Sparing-Call u v k)),
            Sparing-HasDevice u v g hs hn has' k,
          )
