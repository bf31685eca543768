-- ===== src/System/Handlers.antt =====
-- Each call of the agent is a sequence of actions.
use elastic_gpu_agent.Prelude.{
  ◌≡◌, refl, sym, subst, List, [], ◌∷◌, Text, All, arith, ok, >>=-keeps, lift,
}
use elastic_gpu_agent.Common.{resource_gpu_core, resource_gpu_memory, useless_number}
use elastic_gpu_agent.Go.FilePath.{IsSegment}
use elastic_gpu_agent.Types.Json.{Json, IsAscii}
use elastic_gpu_agent.Types.Device.{new_device}
use elastic_gpu_agent.Types.Device.Plain.{new_device-IsPlainDevice}
use elastic_gpu_agent.Types.Pod.{PodContainer}
use elastic_gpu_agent.Storage.Bolt.{BoltDb}
use elastic_gpu_agent.Operator.FileSystem.{Files}
use elastic_gpu_agent.Kube.Sitter.{PodSitter}
use elastic_gpu_agent.Kube.PodResources.{PodResources, Kubelet}
use elastic_gpu_agent.Kube.Locator.{KubeletDeviceLocator, locate}
use elastic_gpu_agent.Kube.Locator.Search.{HeldBy, held}
use elastic_gpu_agent.Kube.Locator.Found.{resource-locate}
use elastic_gpu_agent.Plugins.PreStart.{find_assumed, pre_start_core, pre_start_memory}
use elastic_gpu_agent.Plugins.PreStart.Steps.{IsKept, pre_start_core-keeps, pre_start_memory-keeps}
use elastic_gpu_agent.Plugins.Gc.{Event, gc}
use elastic_gpu_agent.Plugins.Gc.Rounds.{gc-keeps}
use elastic_gpu_agent.System.Safety.{Actions-IsSound}
use elastic_gpu_agent.Plugins.PreStart.Assignment.{find_assumed-IsAssigned}
use elastic_gpu_agent.Plugins.PreStart.Record.{Writes-IsValid}
use elastic_gpu_agent.System.{
  collects, memory_starts, core_starts, Call, Agent, IsNamed, locates_core, locates_memory,
  makes_share, removes_share, saves_record, drops_record, Actions, rest, then_, IsSound,
}

-- The names of a container that is assigned, and its devices.
pub record IsFit (ids : List Text) (resource : Text) (curr : PodContainer) : Type 0 where
  pub namespace : IsSegment curr.namespace
  pub name : IsSegment curr.name
  pub container : IsAscii curr.container
  pub ids_ascii : All IsAscii ids
  pub resource_ascii : IsAscii resource

pub HeldBy-IsFit :
    (kubelet : Kubelet) (resource : Text) (ids : List Text) (pods : List PodResources)
    (curr : PodContainer)
    → IsNamed kubelet
    → All IsAscii ids
    → IsAscii resource
    → kubelet.list ≡ ok pods
    → HeldBy resource ids pods curr
    → IsFit ids resource curr
HeldBy-IsFit kubelet resource ids pods curr n hi hr l (held pod c mp mc h e) =
    subst (IsFit ids resource) (sym e) (record {
      namespace = n.namespaces pods pod l mp;
      name = n.names pods pod l mp;
      container = n.containers pods pod c l mp mc;
      ids_ascii = hi;
      resource_ascii = hr;
    })

pub resource-find_assumed :
    (kubelet : Kubelet) (sitter : PodSitter) (resource : Text) (ids : List Text)
    (k : KubeletDeviceLocator)
    → (find_assumed kubelet sitter resource ids k).1.resource ≡ k.resource
unfolding find_assumed
resource-find_assumed kubelet sitter resource [] k = refl
resource-find_assumed kubelet sitter resource (id ∷ ids) k =
    >>=-keeps (λ (j : KubeletDeviceLocator). j.resource ≡ k.resource)
      (locate kubelet (new_device (id ∷ ids) resource)) _ k
      (resource-locate kubelet (new_device (id ∷ ids) resource) k)
      (λ curr j e h.
        >>=-keeps (λ (j' : KubeletDeviceLocator). j'.resource ≡ k.resource)
          (lift (sitter.get_pod curr.namespace curr.name)) _ j h (λ pod u f g. g))

pub core-IsAscii : IsAscii resource_gpu_core
core-IsAscii = ground arith

pub memory-IsAscii : IsAscii resource_gpu_memory
memory-IsAscii = ground arith

module _ (files : Files) (bolt : BoltDb) (json : Json) where
  -- The calls that a `PreStartContainer` call makes for its container.
  pub kept_Actions :
      (resource : Text) (ids : List Text) (curr : PodContainer) (w : Agent files bolt json)
      → IsSound files bolt json w
      → IsFit ids resource curr
      → IsKept files bolt json (Actions files bolt json w) curr (new_device ids resource)
  kept_Actions resource ids curr w h fit = record {
    created = λ z i v as_. then_ as_ (makes_share z _ i);
    deleted = λ z i v as_. then_ as_ (removes_share z _ i);
    saved = λ p v writes as_. then_ as_ (
        saves_record p (
          Writes-IsValid bolt json v.db curr (new_device ids resource) p writes
            (Actions-IsSound files bolt json w v h as_).store fit.namespace fit.name fit.container
            (new_device-IsPlainDevice ids resource fit.ids_ascii fit.resource_ascii)));
  }

  pre_start_core-Actions :
      (kubelet : Kubelet) (sitter : PodSitter) (ids : List Text) (w : Agent files bolt json)
      → IsSound files bolt json w
      → IsNamed kubelet
      → All IsAscii ids
      → Actions files bolt json w (pre_start_core files bolt json kubelet sitter ids w).1
  pre_start_core-Actions kubelet sitter ids w h n hi =
      pre_start_core-keeps files bolt json (Actions files bolt json w) kubelet sitter ids w
        (then_ rest (
          locates_core _
            (resource-find_assumed kubelet sitter resource_gpu_core ids w.core_locator)))
        (λ a u e.
          let g = find_assumed-IsAssigned kubelet sitter resource_gpu_core ids _ _ a h.core e in
          kept_Actions resource_gpu_core ids a.curr w h (
            HeldBy-IsFit kubelet resource_gpu_core ids g.pods a.curr n hi core-IsAscii g.listed
              g.held))

  pre_start_memory-Actions :
      (kubelet : Kubelet) (sitter : PodSitter) (ids : List Text) (w : Agent files bolt json)
      → IsSound files bolt json w
      → IsNamed kubelet
      → All IsAscii ids
      → Actions files bolt json w (pre_start_memory files bolt json kubelet sitter ids w).1
  pre_start_memory-Actions kubelet sitter ids w h n hi =
      pre_start_memory-keeps files bolt json (Actions files bolt json w) kubelet sitter ids w
        (then_ rest (
          locates_memory _
            (resource-find_assumed kubelet sitter resource_gpu_memory ids w.memory_locator)))
        (λ a u e.
          let g = find_assumed-IsAssigned kubelet sitter resource_gpu_memory ids _ _ a h.memory e in
          kept_Actions resource_gpu_memory ids a.curr w h (
            HeldBy-IsFit kubelet resource_gpu_memory ids g.pods a.curr n hi memory-IsAscii g.listed
              g.held))

  gc-Actions :
      (sitter : PodSitter) (event : Event) (w : Agent files bolt json)
      → IsSound files bolt json w
      → Actions files bolt json w (gc files bolt json sitter event w)
  gc-Actions sitter event w h =
      gc-keeps files bolt json sitter event w (Actions files bolt json w) h.store
        (record {
          share = λ l i v q as_. then_ as_ (removes_share useless_number l.device.hash i);
          record_of = λ l v q as_. then_ as_ (drops_record l.namespace l.name);
        })
        rest

  -- A call of the agent on a sound state, of the kubelet for a list of ASCII ids or of an event of
  -- the collector, does nothing but a sequence of single actions: locating, making and removing
  -- the links of a share, saving the record of a valid pod, dropping a record. The kubelet's
  -- names of pods are path segments, and its names of containers are ASCII.
  pub Call-Actions :
      (w v : Agent files bolt json)
      → IsSound files bolt json w
      → Call files bolt json w v
      → Actions files bolt json w v
  Call-Actions w v h (core_starts kubelet sitter ids n hi) =
      pre_start_core-Actions kubelet sitter ids w h n hi
  Call-Actions w v h (memory_starts kubelet sitter ids n hi) =
      pre_start_memory-Actions kubelet sitter ids w h n hi
  Call-Actions w v h (collects sitter event) = gc-Actions sitter event w h
