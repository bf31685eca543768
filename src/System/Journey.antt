-- ===== src/System/Journey.antt =====
-- A container from the kubelet's `Allocate` call to its start: what is mounted, what is linked, and
-- what is recorded.
use mathlib.Core.List.{Perm}
use elastic_gpu_agent.Prelude.{
  ◌+◌, if◌then◌else◌, ℕ, ◌<◌, ◌≡◌, ◌≢◌, refl, sym, ap, ◌∙◌, subst, none, some, List, [], ◌∷◌, arith,
  Text, All, Dict, insert, lookup, lookup-insert, text_eq_refl, get_elem?, Member, length, ok, err,
  Error, ℤ,
}
use elastic_gpu_agent.Common.{resource_gpu_core, resource_gpu_memory}
use elastic_gpu_agent.Types.Json.{Json, IsAscii}
use elastic_gpu_agent.Types.Device.{Device, new_device}
use elastic_gpu_agent.Types.Device.Plain.{new_device-IsPlainDevice}
use elastic_gpu_agent.Types.Pod.{PodContainer, PodInfo}
use elastic_gpu_agent.Storage.{save, load}
use elastic_gpu_agent.Storage.Bolt.{BoltDb}
use elastic_gpu_agent.Storage.Records.{load-save, same_pod}
use elastic_gpu_agent.Operator.FileSystem.{Files, link}
use elastic_gpu_agent.Operator.Gpushare.{gpu_path, sym_path}
use elastic_gpu_agent.Kube.Sitter.{PodSitter}
use elastic_gpu_agent.Kube.PodResources.{Kubelet}
use elastic_gpu_agent.Plugins.Share.{share_id}
use elastic_gpu_agent.Plugins.Allocate.{
  DeviceSpec, ContainerResponse, all_ids, core_shares, allocate_core, allocate_memory,
}
use elastic_gpu_agent.Plugins.Allocate.Order.{core-Mounts, memory-Mounts}
use elastic_gpu_agent.Plugins.Allocate.Paths.{Mounts, agent_path}
use elastic_gpu_agent.Plugins.PreStart.{
  Assumed, parse_indexes, parse_index, delete_all, pre_start_core, pre_start_memory,
}
use elastic_gpu_agent.Plugins.PreStart.Assignment.{IsAssigned}
use elastic_gpu_agent.Plugins.PreStart.Record.{Writes, Writes-IsValid}
use elastic_gpu_agent.Plugins.PreStart.Shares.{AllCreated}
use elastic_gpu_agent.Plugins.PreStart.Outcome.{
  Started, kept, undone, pre_start_core-Started, pre_start_memory-Started,
}
use elastic_gpu_agent.System.{Agent, IsNamed, IsSound}
use elastic_gpu_agent.System.Handlers.{IsFit, HeldBy-IsFit, core-IsAscii, memory-IsAscii}

module _ (files : Files) (bolt : BoltDb) (json : Json) where
  open files use {entry}

  -- The node is ready for the container: for each of the first `n` shares that has an index, the
  -- response mounts a file of the host that is a link, as the agent sees it, and that points to the
  -- GPU of the index if no link stood there before; and the pod's record loads, with the device for
  -- the container.
  pub record IsReadyFor (ids : List Text) (resource : Text) (curr : PodContainer) (indexes : List ℤ)
      (n : ℕ) (r : ContainerResponse) (w w' : Agent files bolt json) : Type 0 where
    pub mounted :
        (k : ℕ) (index : ℤ)
        → k < n
        → get_elem? indexes k ≡ some index
        → (d : DeviceSpec) × Member d r.devices
          × (entry w'.fs (agent_path d.host_path) ≢ none)
          × (entry w.fs (agent_path d.host_path) ≡ none
              → entry w'.fs (agent_path d.host_path) ≡ some (link (gpu_path index)))
    pub pod : PodInfo
    pub loads : load bolt json curr.namespace curr.name w'.db ≡ ok pod
    pub devices : Dict Device
    pub has_devices : pod.container_device_map ≡ some devices
    pub device : lookup curr.container devices ≡ some (new_device ids resource)

  -- What a call leaves: a node that is ready, or the save of the pod's record, with the device for the
  -- container, failed: the database is unchanged, and the files are those of a state with all shares
  -- made from which the shares were deleted again.
  pub data Outcome (ids : List Text) (resource : Text) (curr : PodContainer) (indexes : List ℤ)
      (n : ℕ) (r : ContainerResponse) (w w' : Agent files bolt json) : Type 0 where
    ready :
        IsReadyFor ids resource curr indexes n r w w' → Outcome ids resource curr indexes n r w w'
    not_recorded :
        (p : PodInfo) (e : Error) (t : files.State)
        → Writes bolt json w.db curr (new_device ids resource) p
        → save bolt json p w.db ≡ (err e, w'.db)
        → w'.db ≡ w.db
        → AllCreated files (new_device ids resource).hash 0 indexes w.fs (ok tt, t)
        → w'.fs ≡ delete_all files (new_device ids resource).hash 0 indexes t
        → Outcome ids resource curr indexes n r w w'

  unsaved :
      (p : PodInfo) (db db' : bolt.Db) (e : Error) → save bolt json p db ≡ (err e, db') → db' ≡ db
  unfolding save
  unsaved p db db' e h = ground arith

  module _ (ids : List Text) (resource : Text) (a : Assumed) (indexes : List ℤ) (n : ℕ)
      (r : ContainerResponse) (w w' : Agent files bolt json) where
    shift : (k : ℕ) → k ≡ 0 + k
    shift k = omega arith

    mounted_at :
        Mounts (new_device ids resource).hash n r
        → AllCreated files (new_device ids resource).hash 0 indexes w.fs (ok tt, w'.fs)
        → (k : ℕ) (index : ℤ) → k < n
        → get_elem? indexes k ≡ some index
        → (d : DeviceSpec) × Member d r.devices
          × (entry w'.fs (agent_path d.host_path) ≢ none)
          × (entry w.fs (agent_path d.host_path) ≡ none
              → entry w'.fs (agent_path d.host_path) ≡ some (link (gpu_path index)))
    mounted_at m c k index h g =
        let (d, here, mount) = m.shares k h in
        let made =
          subst
            (λ q.
              (entry w'.fs q ≢ none)
              × (entry w.fs q ≡ none → entry w'.fs q ≡ some (link (gpu_path index))))
            (sym (
              mount.linked
              ∙ ap (λ j. sym_path (share_id (new_device ids resource).hash j)) (shift k)))
            (c.present refl k index g, c.target refl k index g) in
        (d, here, made.0, made.1)

    Started-Outcome :
        IsSound files bolt json w
        → IsFit ids resource a.curr
        → Mounts (new_device ids resource).hash n r
        → Started files bolt json ids resource a indexes w w'
        → Outcome ids resource a.curr indexes n r w w'
    Started-Outcome sound fit m (kept p c wr s) =
        let valid =
          Writes-IsValid bolt json w.db a.curr (new_device ids resource) p wr sound.store
            fit.namespace fit.name fit.container
            (new_device-IsPlainDevice ids resource fit.ids_ascii fit.resource_ascii) in
        ready (record {
          mounted = mounted_at m c;
          pod = p;
          loads = loaded p wr (
              load-save bolt json p a.curr.namespace a.curr.name w.db w'.db valid fit.namespace
                fit.name s);
          devices = insert a.curr.container (new_device ids resource) wr.old_map;
          has_devices = ap (λ (q : PodInfo). q.container_device_map) wr.written;
          device = found wr.old_map;
        })
      where
        loaded :
            (p : PodInfo)
            → Writes bolt json w.db a.curr (new_device ids resource) p
            → load bolt json a.curr.namespace a.curr.name w'.db ≡ (
                if same_pod p.namespace p.name a.curr.namespace a.curr.name
                then ok p
                else load bolt json a.curr.namespace a.curr.name w.db)
            → load bolt json a.curr.namespace a.curr.name w'.db ≡ ok p
        loaded p wr e = ground (
          arith,
          e,
          ap (λ (q : PodInfo). q.namespace) wr.written,
          ap (λ (q : PodInfo). q.name) wr.written,
          text_eq_refl a.curr.namespace,
          text_eq_refl a.curr.name,
        )

        found :
            (m : Dict Device)
            → lookup a.curr.container (insert a.curr.container (new_device ids resource) m)
              ≡ some (new_device ids resource)
        found m = ground (
          arith,
          lookup-insert a.curr.container a.curr.container (new_device ids resource) m,
          text_eq_refl a.curr.container,
        )
    Started-Outcome sound fit m (undone p e t c wr s f) =
        not_recorded p e t wr s (unsaved p w.db w'.db e s) c f

  -- The answer of `Allocate` and the start of a container that the kubelet makes of it. If `Allocate`
  -- answered a request for core units, and `PreStartContainer`, called on a sound state for the same
  -- ASCII ids in any order, returned no error, then the container that the kubelet lists with the
  -- ids was found in an assumed pod, with a list of indexes in its annotation; and either each of
  -- the mounted shares that has an index is linked, to the GPU of that index if there was no link
  -- before, and the pod's record loads with the container's device; or the save failed, which left
  -- the database as it was, and the shares were deleted again. The kubelet's names of pods are path
  -- segments, and its names of containers are ASCII.
  pub allocate_core-pre_start_core :
      (kubelet : Kubelet) (sitter : PodSitter) (requests : List (List Text)) (ids : List Text)
      (r : ContainerResponse) (w w' : Agent files bolt json)
      → IsSound files bolt json w
      → IsNamed kubelet
      → All IsAscii ids
      → Perm (all_ids requests) ids
      → allocate_core requests ≡ ok (r ∷ [])
      → pre_start_core files bolt json kubelet sitter ids w ≡ (ok tt, w')
      → (a : Assumed) × (indexes : List ℤ) × IsAssigned kubelet sitter resource_gpu_core ids a
        × (parse_indexes a.assumed ≡ ok indexes)
        × Outcome ids resource_gpu_core a.curr indexes
            (core_shares (length (all_ids requests)))
            r
            w
            w'
  allocate_core-pre_start_core kubelet sitter requests ids r w w' sound names hi perm e run =
      let (a, indexes, g, reads, s) =
        pre_start_core-Started files bolt json kubelet sitter ids w w' sound.core run in
      let fit =
        HeldBy-IsFit kubelet resource_gpu_core ids g.pods a.curr names hi core-IsAscii g.listed
          g.held in
      let n = core_shares (length (all_ids requests)) in
      let mounts = core-Mounts requests ids r perm e in
      (
        a,
        indexes,
        g,
        reads,
        Started-Outcome ids resource_gpu_core a indexes n r w w' sound fit mounts s,
      )

  -- The same of the memory plugin, whose annotation is one index and whose answer mounts one share.
  -- If `Allocate` answered a request for memory units, and `PreStartContainer`, called on a sound
  -- state for the same ASCII ids in any order, returned no error, then the container that the
  -- kubelet lists with the ids was found in an assumed pod, with an index in its annotation; and
  -- either the mounted share is linked, to the GPU of that index if there was no link before, and
  -- the pod's record loads with the container's device; or the save failed, which left the database
  -- as it was, and the share was deleted again. The kubelet's names of pods are path segments, and
  -- its names of containers are ASCII.
  pub allocate_memory-pre_start_memory :
      (kubelet : Kubelet) (sitter : PodSitter) (requests : List (List Text)) (ids : List Text)
      (r : ContainerResponse) (w w' : Agent files bolt json)
      → IsSound files bolt json w
      → IsNamed kubelet
      → All IsAscii ids
      → Perm (all_ids requests) ids
      → allocate_memory requests ≡ ok (r ∷ [])
      → pre_start_memory files bolt json kubelet sitter ids w ≡ (ok tt, w')
      → (a : Assumed) × (index : ℤ) × IsAssigned kubelet sitter resource_gpu_memory ids a
        × (parse_index a.assumed ≡ ok index)
        × Outcome ids resource_gpu_memory a.curr (index ∷ []) 1 r w w'
  allocate_memory-pre_start_memory kubelet sitter requests ids r w w' sound names hi perm e run =
      let (a, index, g, reads, s) =
        pre_start_memory-Started files bolt json kubelet sitter ids w w' sound.memory run in
      let fit =
        HeldBy-IsFit kubelet resource_gpu_memory ids g.pods a.curr names hi memory-IsAscii g.listed
          g.held in
      let mounts = memory-Mounts requests ids r perm e in
      (
        a,
        index,
        g,
        reads,
        Started-Outcome ids resource_gpu_memory a (index ∷ []) 1 r w w' sound fit mounts s,
      )
