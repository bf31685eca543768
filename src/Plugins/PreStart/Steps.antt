-- ===== src/Plugins/PreStart/Steps.antt =====
-- A `PreStartContainer` call as a sequence of creations and deletions of shares and of saves.
use elastic_gpu_agent.Prelude.{
  ℕ, suc, ◌≡◌, refl, ap, Option, none, some, List, [], ◌∷◌, Text, Dict, Result, ok, err, ℤ,
  >>=-keeps, ◌>>=◌, lift, continue,
}
use elastic_gpu_agent.Common.{resource_gpu_core, resource_gpu_memory}
use elastic_gpu_agent.Types.Json.{Json}
use elastic_gpu_agent.Types.Device.{Device, new_device}
use elastic_gpu_agent.Types.Pod.{PodContainer, PodInfo}
use elastic_gpu_agent.Storage.{save, load_or_create}
use elastic_gpu_agent.Storage.Bolt.{BoltDb}
use elastic_gpu_agent.Operator.FileSystem.{Files}
use elastic_gpu_agent.Operator.Gpushare.{create, delete}
use elastic_gpu_agent.Kube.Sitter.{PodSitter}
use elastic_gpu_agent.Kube.PodResources.{Kubelet}
use elastic_gpu_agent.Plugins.Share.{share_id}
use elastic_gpu_agent.Plugins.World.{World, on_fs, on_core_locator, on_memory_locator}
use elastic_gpu_agent.Plugins.PreStart.{
  Assumed, find_assumed, parse_indexes, parse_index, create_all, delete_all, finish, start_core,
  start_memory, save_into, record_devices, pre_start_core, pre_start_memory,
}
use elastic_gpu_agent.Plugins.PreStart.Record.{Writes, Writes-of}

module _ (files : Files) (bolt : BoltDb) (json : Json) (P : World files bolt → Type 0) where
  -- What the creation and the deletion of a share keep, and the save of the record of a container.
  pub record IsKept (curr : PodContainer) (devices : Device) : Type 0 where
    pub created :
        (index : ℤ) (i : ℕ) (w : World files bolt)
        → P w
        → P (record w { fs = (create files index (share_id devices.hash i) w.fs).1 })
    pub deleted :
        (index : ℤ) (i : ℕ) (w : World files bolt)
        → P w
        → P (record w { fs = (delete files index (share_id devices.hash i) w.fs).1 })
    pub saved :
        (p : PodInfo) (w : World files bolt)
        → Writes bolt json w.db curr devices p
        → P w
        → P (record w { db = (save bolt json p w.db).1 })

  module _ (curr : PodContainer) (devices : Device) (k : IsKept curr devices) where
    create_all-keeps :
        (i : ℕ) (ids : List ℤ) (w : World files bolt)
        → P w
        → P (record w { fs = (create_all files devices.hash i ids w.fs).1 })
    unfolding create_all
    create_all-keeps i [] w h = h
    create_all-keeps i (id ∷ ids) w h =
        after (create files id (share_id devices.hash i) w.fs) (k.created id i w h)
          (λ v. create_all-keeps (suc i) ids v)
      where
        after :
            (r : Result (Unit {0}) × files.State)
            → P (record w { fs = r.1 })
            → ((v : World files bolt)
                → P v
                → P (record v { fs = (create_all files devices.hash (suc i) ids v.fs).1 }))
            → P (record w {
              fs = (continue r.0 (λ _. create_all files devices.hash (suc i) ids) r.1).1;
            })
        after (ok u, s) g more = more (record w { fs = s }) g
        after (err e, s) g more = g

    delete_all-keeps :
        (i : ℕ) (ids : List ℤ) (w : World files bolt)
        → P w
        → P (record w { fs = delete_all files devices.hash i ids w.fs })
    unfolding delete_all
    delete_all-keeps i [] w h = h
    delete_all-keeps i (id ∷ ids) w h = delete_all-keeps (suc i) ids _ (k.deleted id i w h)

    record_devices-keeps :
        (undo : files.State → files.State) (w : World files bolt)
        → ((v : World files bolt) → P v → P (record v { fs = undo v.fs }))
        → P w
        → P (record_devices files bolt json undo curr devices w).1
    unfolding record_devices
    record_devices-keeps undo w u h =
        with_map (load_or_create bolt json curr.namespace curr.name w.db).container_device_map refl
      where
        with_save :
            (r : Result (Unit {0}) × bolt.Db)
            → P (record w { db = r.1 })
            → P (finish files bolt json undo r w).1
        with_save (ok x, db') g = g
        with_save (err e, db') g = u (record w { db = db' }) g

        with_map :
            (o : Option (Dict Device))
            → (load_or_create bolt json curr.namespace curr.name w.db).container_device_map ≡ o
            → P
                (save_into files bolt json undo
                  (load_or_create bolt json curr.namespace curr.name w.db)
                  curr.container
                  devices
                  o
                  w).1
        with_map none g = h
        with_map (some m) g =
            with_save _ (k.saved _ w (Writes-of bolt json w.db curr devices m g) h)

  start_core-keeps :
      (ids : List Text) (a : Assumed) (indexes : List ℤ) (w : World files bolt)
      → IsKept a.curr (new_device ids resource_gpu_core)
      → P w
      → P (start_core files bolt json ids a indexes w).1
  unfolding start_core
  start_core-keeps ids a indexes w k h =
      let devices = new_device ids resource_gpu_core in
      >>=-keeps P (on_fs (create_all files devices.hash 0 indexes))
        (λ _.
          record_devices files bolt json (delete_all files devices.hash 0 indexes) a.curr devices)
        w (create_all-keeps a.curr devices k 0 indexes w h)
        (λ x v e g.
          record_devices-keeps a.curr devices k (delete_all files devices.hash 0 indexes) v
            (delete_all-keeps a.curr devices k 0 indexes) g)

  start_memory-keeps :
      (ids : List Text) (a : Assumed) (index : ℤ) (w : World files bolt)
      → IsKept a.curr (new_device ids resource_gpu_memory)
      → P w
      → P (start_memory files bolt json ids a index w).1
  unfolding start_memory
  start_memory-keeps ids a index w k h =
      let devices = new_device ids resource_gpu_memory in
      let undo = λ (s : files.State). (delete files index (share_id devices.hash 0) s).1 in
      >>=-keeps P (on_fs (create files index (share_id devices.hash 0)))
        (λ _. record_devices files bolt json undo a.curr devices) w (k.created index 0 w h)
        (λ x v e g. record_devices-keeps a.curr devices k undo v (k.deleted index 0) g)

  module _ (kubelet : Kubelet) (sitter : PodSitter) (ids : List Text) (w : World files bolt) where
    -- What the search of the container keeps, and the steps behind it, the whole call keeps.
    pub pre_start_core-keeps :
        P (record w {
          core_locator = (find_assumed kubelet sitter resource_gpu_core ids w.core_locator).1;
        })
        → ((a : Assumed) (u : World files bolt)
            → find_assumed kubelet sitter resource_gpu_core ids w.core_locator
              ≡ (ok a, u.core_locator)
            → IsKept a.curr (new_device ids resource_gpu_core))
        → P (pre_start_core files bolt json kubelet sitter ids w).1
    unfolding pre_start_core
    pre_start_core-keeps h k =
        let start = start_core files bolt json ids in
        >>=-keeps P (on_core_locator (find_assumed kubelet sitter resource_gpu_core ids))
          (λ a. lift (parse_indexes a.assumed) >>= start a) w h
          (λ a u e g. >>=-keeps P (lift (parse_indexes a.assumed)) (start a) u g (λ indexes v f g'.
            start_core-keeps ids a indexes v (k a u (ap (λ r. (r.0, r.1.core_locator)) e)) g'))

    pub pre_start_memory-keeps :
        P (record w {
          memory_locator = (find_assumed kubelet sitter resource_gpu_memory ids w.memory_locator).1;
        })
        → ((a : Assumed) (u : World files bolt)
            → find_assumed kubelet sitter resource_gpu_memory ids w.memory_locator
              ≡ (ok a, u.memory_locator)
            → IsKept a.curr (new_device ids resource_gpu_memory))
        → P (pre_start_memory files bolt json kubelet sitter ids w).1
    unfolding pre_start_memory
    pre_start_memory-keeps h k =
        let start = start_memory files bolt json ids in
        >>=-keeps P (on_memory_locator (find_assumed kubelet sitter resource_gpu_memory ids))
          (λ a. lift (parse_index a.assumed) >>= start a) w h
          (λ a u e g. >>=-keeps P (lift (parse_index a.assumed)) (start a) u g (λ index v f g'.
            start_memory-keeps ids a index v (k a u (ap (λ r. (r.0, r.1.memory_locator)) e)) g'))
