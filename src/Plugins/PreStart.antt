-- ===== src/Plugins/PreStart.antt =====
-- `PreStartContainer` of the core and the memory plugin (pkg/plugins/gpushare.go). The handlers hold
-- the plugin's lock from the parsing of the annotation on, so the steps behind it are not
-- interleaved with another call of the same plugin. The proofs are in the modules below.
pub mod Shares
pub mod Assignment
pub mod Record
pub mod Keeping
pub mod Replacing
pub mod Ends
pub mod Steps
pub mod Indexes
pub mod Outcome
pub mod Failure
use elastic_gpu_agent.Prelude.{
  ℕ, zero, suc, Bool, Option, none, some, List, [], ◌∷◌, ◌++◌, Text, Dict, lookup, insert, Result,
  ok, err, Exec, ◌>>=◌, ◌>>◌, pure, lift, empty_device_list, not_assumed, container_not_assumed,
  not_gpu_index, nil_map_write, ℤ,
}
use elastic_gpu_agent.Common.{
  resource_gpu_core, resource_gpu_memory, assumed_annotation, container_annotation,
}
use elastic_gpu_agent.Go.Strings
use elastic_gpu_agent.Go.Strconv.{atoi}
use elastic_gpu_agent.Types.Device.{Device, new_device}
use elastic_gpu_agent.Types.Json.{Json}
use elastic_gpu_agent.Types.Pod.{PodContainer, PodInfo}
use elastic_gpu_agent.Storage.{save, load_or_create}
use elastic_gpu_agent.Storage.Bolt.{BoltDb}
use elastic_gpu_agent.Operator.FileSystem.{Files}
use elastic_gpu_agent.Operator.Gpushare.{create, delete}
use elastic_gpu_agent.Kube.Sitter.{Pod, PodSitter}
use elastic_gpu_agent.Kube.PodResources.{Kubelet}
use elastic_gpu_agent.Kube.Locator.{KubeletDeviceLocator, locate}
use elastic_gpu_agent.Plugins.Share.{share_id}
use elastic_gpu_agent.Plugins.World.{World, on_fs, on_core_locator, on_memory_locator}

-- The container that holds the devices, with the value of its annotation.
pub record Assumed : Type 0 where
  pub curr : PodContainer
  pub assumed : Text

assumed_value : PodContainer → Option Text → Result Assumed
assumed_value curr none = err (container_not_assumed (container_annotation curr.container))
assumed_value curr (some v) = ok (record { curr = curr; assumed = v })

-- The pod must be marked as assumed, and the container must have an annotation.
of_annotations : PodContainer → Dict Text → Option Text → Result Assumed
unfolding assumed_value
of_annotations curr annotations none = err not_assumed
of_annotations curr annotations (some mark) =
    assumed_value curr (lookup (container_annotation curr.container) annotations)

of_pod : PodContainer → Pod → Result Assumed
unfolding of_annotations
of_pod curr pod = of_annotations curr pod.annotations (lookup assumed_annotation pod.annotations)

-- From the request to the annotation: the part that both handlers share.
unfoldable pub find_assumed :
    Kubelet → PodSitter → Text → List Text → Exec KubeletDeviceLocator Assumed
unfolding of_pod
find_assumed kubelet sitter resource [] = lift (err empty_device_list)
find_assumed kubelet sitter resource (id ∷ ids) = do
  curr ← locate kubelet (new_device (id ∷ ids) resource)
  pod ← lift (sitter.get_pod curr.namespace curr.name)
  lift (of_pod curr pod)

-- The loop over the parts of the annotation; the error names the whole annotation.
unfoldable pub indexes_of : Text → List Text → List ℤ → Result (List ℤ)
indexes_of v [] done = ok done
indexes_of v (s ∷ ss) done = elim (atoi s) [
  | none ↦ err (not_gpu_index v)
  | some z ↦ indexes_of v ss (done ++ z ∷ [])
]

unfoldable pub parse_indexes : Text → Result (List ℤ)
unfolding indexes_of
parse_indexes v = indexes_of v (Strings.split v b',') []

index_of : Text → Option ℤ → Result ℤ
index_of v none = err (not_gpu_index v)
index_of v (some z) = ok z

unfoldable pub parse_index : Text → Result ℤ
unfolding index_of
parse_index v = index_of v (atoi v)

module _ (files : Files) where
  open files use {State}

  -- One `Create` for each index, the share numbers from `i` on; the first error ends the loop.
  unfoldable pub create_all : Text → ℕ → List ℤ → Exec State (Unit {0})
  create_all hash i [] = pure tt
  create_all hash i (id ∷ ids) = do create files id (share_id hash i); create_all hash (suc i) ids

  -- The deferred loop: an error of a `Delete` is logged, and the loop goes on.
  unfoldable pub delete_all : Text → ℕ → List ℤ → State → State
  delete_all hash i [] s = s
  delete_all hash i (id ∷ ids) s =
      delete_all hash (suc i) ids (delete files id (share_id hash i) s).1

module _ (files : Files) (bolt : BoltDb) (json : Json) where
  -- After the save: an error is logged, the shares are deleted again, and the handler still
  -- returns no error.
  finish :
      (files.State → files.State) → Result (Unit {0}) × bolt.Db → Exec (World files bolt) (Unit {0})
  finish undo (ok u, db') w = (ok tt, record w { db = db' })
  finish undo (err e, db') w = (ok tt, record w { db = db'; fs = undo w.fs })

  -- The write into a nil map panics, which ends the process; the deferred deletion does nothing then,
  -- since there is no error yet. The panic is the error `nil_map_write`.
  save_into :
      (files.State → files.State)
      → PodInfo
      → Text
      → Device
      → Option (Dict Device)
      → Exec (World files bolt) (Unit {0})
  unfolding finish
  save_into undo pif container devices none w = (err nil_map_write, w)
  save_into undo pif container devices (some m) w =
      finish undo
        (save bolt json (record pif { container_device_map = some (insert container devices m) })
          w.db)
        w

  -- The pod's record gets the container's device.
  unfoldable pub record_devices :
      (files.State → files.State) → PodContainer → Device → Exec (World files bolt) (Unit {0})
  unfolding save_into
  record_devices undo curr devices w =
      let pif = load_or_create bolt json curr.namespace curr.name w.db in
      save_into undo pif curr.container devices pif.container_device_map w

  -- The loop of `Create`, and the record.
  unfoldable pub start_core : List Text → Assumed → List ℤ → Exec (World files bolt) (Unit {0})
  start_core ids a indexes = do
    let devices = new_device ids resource_gpu_core
    on_fs (create_all files devices.hash 0 indexes)
    record_devices (delete_all files devices.hash 0 indexes) a.curr devices

  unfoldable pub start_memory : List Text → Assumed → ℤ → Exec (World files bolt) (Unit {0})
  start_memory ids a index = do
    let devices = new_device ids resource_gpu_memory
    on_fs (create files index (share_id devices.hash 0))
    record_devices (λ s. (delete files index (share_id devices.hash 0) s).1) a.curr devices

  module _ (kubelet : Kubelet) (sitter : PodSitter) where
    unfoldable pub pre_start_core : List Text → Exec (World files bolt) (Unit {0})
    unfolding start_core
    pre_start_core ids = do
      a ← on_core_locator (find_assumed kubelet sitter resource_gpu_core ids)
      indexes ← lift (parse_indexes a.assumed)
      start_core ids a indexes

    unfoldable pub pre_start_memory : List Text → Exec (World files bolt) (Unit {0})
    unfolding start_memory
    pre_start_memory ids = do
      a ← on_memory_locator (find_assumed kubelet sitter resource_gpu_memory ids)
      index ← lift (parse_index a.assumed)
      start_memory ids a index
