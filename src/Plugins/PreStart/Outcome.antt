-- ===== src/Plugins/PreStart/Outcome.antt =====
-- What a `PreStartContainer` call that returned no error has done.
use elastic_gpu_agent.Prelude.{
  ◌≡◌, refl, sym, ap, ◌∙◌, List, [], ◌∷◌, Text, Result, ok, err, Error, ◌>>=◌, >>=-ok, pure, lift,
  continue, ℤ, subst,
}
use elastic_gpu_agent.Common.{resource_gpu_core, resource_gpu_memory}
use elastic_gpu_agent.Types.Device.{new_device}
use elastic_gpu_agent.Types.Json.{Json}
use elastic_gpu_agent.Types.Pod.{PodInfo}
use elastic_gpu_agent.Storage.{save}
use elastic_gpu_agent.Storage.Bolt.{BoltDb}
use elastic_gpu_agent.Operator.FileSystem.{Files}
use elastic_gpu_agent.Operator.Gpushare.{create, delete}
use elastic_gpu_agent.Kube.Sitter.{PodSitter}
use elastic_gpu_agent.Kube.PodResources.{Kubelet}
use elastic_gpu_agent.Plugins.Share.{share_id}
use elastic_gpu_agent.Plugins.World.{World, on_fs, on_core_locator, on_memory_locator}
use elastic_gpu_agent.Plugins.PreStart.{
  Assumed, find_assumed, parse_indexes, parse_index, create_all, delete_all, start_core,
  start_memory, record_devices, pre_start_core, pre_start_memory,
}
use elastic_gpu_agent.Plugins.PreStart.Assignment.{IsAssigned, find_assumed-IsAssigned}
use elastic_gpu_agent.Plugins.PreStart.Record.{
  Writes, Recorded, saved, unsaved, record_devices-Recorded,
}
use elastic_gpu_agent.Plugins.PreStart.Shares.{AllCreated, create_all-AllCreated}

module _ (files : Files) (bolt : BoltDb) (json : Json) where
  open files use {State, entry}
  open bolt use {Db}

  abbrev Agent : Type 0
  Agent = World files bolt

  delete_all_one :
      (hash : Text) (id : ℤ) (s : State)
      → (delete files id (share_id hash 0) s).1 ≡ delete_all files hash 0 (id ∷ []) s
  unfolding delete_all
  delete_all_one hash id s = refl

  create_all_one :
      (hash : Text) (id : ℤ) (s : State)
      → create_all files hash 0 (id ∷ []) s ≡ create files id (share_id hash 0) s
  unfolding create_all
  create_all_one hash id s = pure-last (create files id (share_id hash 0) s)
    where
      pure-last : (r : Result (Unit {0}) × State) → continue r.0 (λ _. pure tt) r.1 ≡ r
      pure-last (ok u, t) = refl
      pure-last (err e, t) = refl

  -- What a call without an error has done, for a container with the annotation `a.assumed` that
  -- reads as `indexes`: it made the shares, and saved the pod's record with the devices for the
  -- container; or the save failed, and it deleted the shares again.
  pub data Started (ids : List Text) (resource : Text) (a : Assumed) (indexes : List ℤ)
      (w w' : Agent) : Type 0 where
    kept :
        (p : PodInfo)
        → AllCreated files (new_device ids resource).hash 0 indexes w.fs (ok tt, w'.fs)
        → Writes bolt json w.db a.curr (new_device ids resource) p
        → save bolt json p w.db ≡ (ok tt, w'.db)
        → Started ids resource a indexes w w'
    undone :
        (p : PodInfo) (e : Error) (t : State)
        → AllCreated files (new_device ids resource).hash 0 indexes w.fs (ok tt, t)
        → Writes bolt json w.db a.curr (new_device ids resource) p
        → save bolt json p w.db ≡ (err e, w'.db)
        → w'.fs ≡ delete_all files (new_device ids resource).hash 0 indexes t
        → Started ids resource a indexes w w'

  module _ (ids : List Text) (resource : Text) (a : Assumed) (indexes : List ℤ) where
    made :
        (w : Agent) (t : State)
        → create_all files (new_device ids resource).hash 0 indexes w.fs ≡ (ok tt, t)
        → AllCreated files (new_device ids resource).hash 0 indexes w.fs (ok tt, t)
    made w t c =
        subst (AllCreated files (new_device ids resource).hash 0 indexes w.fs) c
          (create_all-AllCreated files (new_device ids resource).hash 0 indexes w.fs)

    Recorded-Started :
        (undo : State → State) (w v w' : Agent) (t : State)
        → ((s : State) → undo s ≡ delete_all files (new_device ids resource).hash 0 indexes s)
        → create_all files (new_device ids resource).hash 0 indexes w.fs ≡ (ok tt, t)
        → v.db ≡ w.db
        → v.fs ≡ t
        → Recorded files bolt json undo a.curr (new_device ids resource) v w'
        → Started ids resource a indexes w w'
    Recorded-Started undo w v w' t u c d f (saved p db' wr s e) =
        kept p
          (subst (λ x. AllCreated files (new_device ids resource).hash 0 indexes w.fs (ok tt, x))
            (sym (ap (λ (x : Agent). x.fs) e ∙ f)) (made w t c))
          (subst (λ b. Writes bolt json b a.curr (new_device ids resource) p) d wr)
          (ap (save bolt json p) (sym d)
            ∙ s
            ∙ ap (λ x. (ok tt, x)) (sym (ap (λ (x : Agent). x.db) e)))
    Recorded-Started undo w v w' t u c d f (unsaved p x db' wr s e) =
        undone p x t (made w t c)
          (subst (λ b. Writes bolt json b a.curr (new_device ids resource) p) d wr)
          (ap (save bolt json p) (sym d)
            ∙ s
            ∙ ap (λ y. (err x, y)) (sym (ap (λ (y : Agent). y.db) e)))
          (ap (λ (y : Agent). y.fs) e
            ∙ u v.fs
            ∙ ap (delete_all files (new_device ids resource).hash 0 indexes) f)

  module _ (kubelet : Kubelet) (sitter : PodSitter) (ids : List Text) where
    -- If a call of the core plugin's `PreStartContainer` returns no error, it found the container of the
    -- devices and its annotation, and the annotation reads as a list of indexes. The links of the shares
    -- were then made, one for each index, and the pod's record was saved with the devices for the
    -- container; or the save failed, and the shares were deleted again.
    pub pre_start_core-Started :
        (w w' : Agent)
        → w.core_locator.resource ≡ resource_gpu_core
        → pre_start_core files bolt json kubelet sitter ids w ≡ (ok tt, w')
        → (a : Assumed) × (indexes : List ℤ) × IsAssigned kubelet sitter resource_gpu_core ids a
          × (parse_indexes a.assumed ≡ ok indexes)
          × Started ids resource_gpu_core a indexes w w'
    unfolding pre_start_core
    pre_start_core-Started w w' h e =
        let start = start_core files bolt json ids in
        let find = find_assumed kubelet sitter resource_gpu_core ids in
        let (a, u, found, e1) =
          >>=-ok (on_core_locator find) (λ a. lift (parse_indexes a.assumed) >>= start a) w w' e in
        let (indexes, u2, reads, e2) = >>=-ok (lift (parse_indexes a.assumed)) (start a) u w' e1 in
        let hash = (new_device ids resource_gpu_core).hash in
        let record_it =
          record_devices files bolt json (delete_all files hash 0 indexes) a.curr
            (new_device ids resource_gpu_core) in
        let (x, v, made_all, e3) =
          >>=-ok (on_fs (create_all files hash 0 indexes)) (λ _. record_it) u2 w' e2 in
        (
          a,
          indexes,
          find_assumed-IsAssigned kubelet sitter resource_gpu_core ids w.core_locator u.core_locator
              a h (ap (λ r. (r.0, r.1.core_locator)) found),
          ap (λ r. r.0) reads,
          Recorded-Started ids resource_gpu_core a indexes (delete_all files hash 0 indexes) w v w'
              v.fs (λ s. refl)
              (ap (λ r. create_all files hash 0 indexes r.1.fs) found
                ∙ ap (λ r. create_all files hash 0 indexes r.1.fs) reads
                ∙ ap (λ r. (r.0, r.1.fs)) made_all)
              (sym (ap (λ r. r.1.db) made_all)
                ∙ sym (ap (λ r. r.1.db) reads)
                ∙ sym (ap (λ r. r.1.db) found))
              refl
              (record_devices-Recorded files bolt json (delete_all files hash 0 indexes) a.curr
                (new_device ids resource_gpu_core) v w' e3),
        )

    -- If a call of the memory plugin's `PreStartContainer` returns no error, it found the container of
    -- the devices and its annotation, and the annotation reads as one index. The links of the share were
    -- then made, and the pod's record was saved with the devices for the container; or the save failed,
    -- and the share was deleted again.
    pub pre_start_memory-Started :
        (w w' : Agent)
        → w.memory_locator.resource ≡ resource_gpu_memory
        → pre_start_memory files bolt json kubelet sitter ids w ≡ (ok tt, w')
        → (a : Assumed) × (index : ℤ) × IsAssigned kubelet sitter resource_gpu_memory ids a
          × (parse_index a.assumed ≡ ok index)
          × Started ids resource_gpu_memory a (index ∷ []) w w'
    unfolding pre_start_memory
    pre_start_memory-Started w w' h e =
        let start = start_memory files bolt json ids in
        let find = find_assumed kubelet sitter resource_gpu_memory ids in
        let (a, u, found, e1) =
          >>=-ok (on_memory_locator find) (λ a. lift (parse_index a.assumed) >>= start a) w w' e in
        let (index, u2, reads, e2) = >>=-ok (lift (parse_index a.assumed)) (start a) u w' e1 in
        let hash = (new_device ids resource_gpu_memory).hash in
        let undo = λ (s : State). (delete files index (share_id hash 0) s).1 in
        let record_it =
          record_devices files bolt json undo a.curr (new_device ids resource_gpu_memory) in
        let (x, v, made_one, e3) =
          >>=-ok (on_fs (create files index (share_id hash 0))) (λ _. record_it) u2 w' e2 in
        (
          a,
          index,
          find_assumed-IsAssigned kubelet sitter resource_gpu_memory ids w.memory_locator
              u.memory_locator a h (ap (λ r. (r.0, r.1.memory_locator)) found),
          ap (λ r. r.0) reads,
          Recorded-Started ids resource_gpu_memory a (index ∷ []) undo w v w' v.fs
              (delete_all_one hash index)
              (create_all_one hash index w.fs
                ∙ ap (λ r. create files index (share_id hash 0) r.1.fs) found
                ∙ ap (λ r. create files index (share_id hash 0) r.1.fs) reads
                ∙ ap (λ r. (r.0, r.1.fs)) made_one)
              (sym (ap (λ r. r.1.db) made_one)
                ∙ sym (ap (λ r. r.1.db) reads)
                ∙ sym (ap (λ r. r.1.db) found))
              refl
              (record_devices-Recorded files bolt json undo a.curr
                (new_device ids resource_gpu_memory) v w' e3),
        )
