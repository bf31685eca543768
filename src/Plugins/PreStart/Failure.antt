-- ===== src/Plugins/PreStart/Failure.antt =====
-- What a `PreStartContainer` call that returned an error has left.
use elastic_gpu_agent.Prelude.{
  ◌≡◌, sym, ap, ◌∙◌, Option, none, some, List, Text, Dict, Result, ok, err, Error, ◌>>=◌, >>=-err,
  lift, inl, inr, ℤ, subst,
}
use elastic_gpu_agent.Common.{resource_gpu_core, resource_gpu_memory}
use elastic_gpu_agent.Types.Device.{Device, new_device}
use elastic_gpu_agent.Types.Json.{Json}
use elastic_gpu_agent.Types.Pod.{PodContainer, PodInfo}
use elastic_gpu_agent.Storage.{load_or_create}
use elastic_gpu_agent.Storage.Bolt.{BoltDb}
use elastic_gpu_agent.Operator.FileSystem.{Files}
use elastic_gpu_agent.Operator.Gpushare.{create, delete}
use elastic_gpu_agent.Plugins.Share.{share_id}
use elastic_gpu_agent.Operator.Gpushare.Links.{Extends, Extends-refl}
use elastic_gpu_agent.Kube.Sitter.{PodSitter}
use elastic_gpu_agent.Kube.PodResources.{Kubelet}
use elastic_gpu_agent.Plugins.World.{World, on_fs, on_core_locator, on_memory_locator}
use elastic_gpu_agent.Plugins.PreStart.{
  Assumed, find_assumed, parse_indexes, create_all, delete_all, finish, start_core, save_into,
  record_devices, pre_start_core, parse_index, start_memory, pre_start_memory,
}
use elastic_gpu_agent.Plugins.PreStart.Shares.{IsShareLink, create_all-AllCreated, create-Extends}

module _ (files : Files) (bolt : BoltDb) (json : Json) where
  abbrev Agent : Type 0
  Agent = World files bolt

  -- What an error leaves: the database as it was, and of the directory entries at most links of the
  -- shares of the device more than before.
  pub record Left (hash : Text) (w w' : Agent) : Type 0 where
    pub db : w'.db ≡ w.db
    pub links : Extends files (IsShareLink hash) w.fs w'.fs

  same_parts :
      (hash : Text) (w v w' : Agent) → v.fs ≡ w.fs → v.db ≡ w.db → Left hash v w' → Left hash w w'
  same_parts hash w v w' f d l = record {
    db = l.db ∙ d;
    links = subst (λ s. Extends files (IsShareLink hash) s w'.fs) f l.links;
  }

  unchanged : (hash : Text) (w w' : Agent) → w'.fs ≡ w.fs → w'.db ≡ w.db → Left hash w w'
  unchanged hash w w' f d = record {
    db = d;
    links =
        subst (Extends files (IsShareLink hash) w.fs) (sym f)
          (Extends-refl files (IsShareLink hash) w.fs);
  }

  -- The record is the last step: an error there is the write to a nil map, which changes nothing.
  record_devices-err :
      (undo : files.State → files.State) (curr : PodContainer) (devices : Device) (w w' : Agent)
      (e : Error)
      → record_devices files bolt json undo curr devices w ≡ (err e, w')
      → w' ≡ w
  unfolding record_devices
  record_devices-err undo curr devices w w' e h = with_map pif.container_device_map h
    where
      pif : PodInfo
      pif = load_or_create bolt json curr.namespace curr.name w.db

      with_save :
          (r : Result (Unit {0}) × bolt.Db) → finish files bolt json undo r w ≡ (err e, w') → w' ≡ w
      with_save (ok u, db') f = absurd (cc)
      with_save (err x, db') f = absurd (cc)

      with_map :
          (o : Option (Dict Device))
          → save_into files bolt json undo pif curr.container devices o w ≡ (err e, w')
          → w' ≡ w
      with_map none f = sym (ap (λ r. r.1) f)
      with_map (some m) f = with_save _ f

  start_core-Left :
      (ids : List Text) (a : Assumed) (indexes : List ℤ) (w w' : Agent) (e : Error)
      → start_core files bolt json ids a indexes w ≡ (err e, w')
      → Left (new_device ids resource_gpu_core).hash w w'
  unfolding start_core
  start_core-Left ids a indexes w w' e h =
      elim (>>=-err (on_fs (create_all files hash 0 indexes)) (λ _. rest) w w' h) [
        | inl g ↦ record { db = sym (ap (λ r. r.1.db) g); links = made w' (ap (λ r. r.1.fs) g) }
        | inr (u, v, g, k) ↦
            let same = record_devices-err (delete_all files hash 0 indexes) a.curr _ v w' e k in
            record {
              db = ap (λ (x : Agent). x.db) same ∙ sym (ap (λ r. r.1.db) g);
              links = made w' (ap (λ r. r.1.fs) g ∙ sym (ap (λ (x : Agent). x.fs) same));
            }
      ]
    where
      hash : Text
      hash = (new_device ids resource_gpu_core).hash

      rest : Agent → Result (Unit {0}) × Agent
      rest =
          record_devices files bolt json (delete_all files hash 0 indexes) a.curr
            (new_device ids resource_gpu_core)

      made :
          (x : Agent)
          → (create_all files hash 0 indexes w.fs).1 ≡ x.fs
          → Extends files (IsShareLink hash) w.fs x.fs
      made x f =
          subst (Extends files (IsShareLink hash) w.fs) f
            (create_all-AllCreated files hash 0 indexes w.fs).extends

  -- If a call of the core plugin's `PreStartContainer` returns an error, the database is as it was,
  -- and of the directory entries none is changed or removed and only links of shares of the device
  -- are new.
  pub pre_start_core-Left :
      (kubelet : Kubelet) (sitter : PodSitter) (ids : List Text) (w w' : Agent) (e : Error)
      → pre_start_core files bolt json kubelet sitter ids w ≡ (err e, w')
      → Left (new_device ids resource_gpu_core).hash w w'
  unfolding pre_start_core
  pre_start_core-Left kubelet sitter ids w w' e h =
      let start = start_core files bolt json ids in
      let find = find_assumed kubelet sitter resource_gpu_core ids in
      let hash = (new_device ids resource_gpu_core).hash in
      elim (>>=-err (on_core_locator find) (λ a. lift (parse_indexes a.assumed) >>= start a) w w'
        h) [
          | inl g ↦ unchanged hash w w' (sym (ap (λ r. r.1.fs) g)) (sym (ap (λ r. r.1.db) g))
          | inr (a, u, g, k) ↦
              same_parts hash w u w' (sym (ap (λ r. r.1.fs) g)) (sym (ap (λ r. r.1.db) g))
                (elim (>>=-err (lift (parse_indexes a.assumed)) (start a) u w' k) [
                  | inl p ↦
                      unchanged hash u w' (sym (ap (λ r. r.1.fs) p)) (sym (ap (λ r. r.1.db) p))
                  | inr (indexes, v, p, q) ↦
                      same_parts hash u v w' (sym (ap (λ r. r.1.fs) p)) (sym (ap (λ r. r.1.db) p))
                        (start_core-Left ids a indexes v w' e q)
                ])
        ]

  start_memory-Left :
      (ids : List Text) (a : Assumed) (index : ℤ) (w w' : Agent) (e : Error)
      → start_memory files bolt json ids a index w ≡ (err e, w')
      → Left (new_device ids resource_gpu_memory).hash w w'
  unfolding start_memory
  start_memory-Left ids a index w w' e h =
      elim (>>=-err (on_fs (create files index (share_id hash 0))) (λ _. rest) w w' h) [
        | inl g ↦ record { db = sym (ap (λ r. r.1.db) g); links = made w' (ap (λ r. r.1.fs) g) }
        | inr (u, v, g, k) ↦
            let same = record_devices-err undo a.curr _ v w' e k in
            record {
              db = ap (λ (x : Agent). x.db) same ∙ sym (ap (λ r. r.1.db) g);
              links = made w' (ap (λ r. r.1.fs) g ∙ sym (ap (λ (x : Agent). x.fs) same));
            }
      ]
    where
      hash : Text
      hash = (new_device ids resource_gpu_memory).hash

      undo : files.State → files.State
      undo s = (delete files index (share_id hash 0) s).1

      rest : Agent → Result (Unit {0}) × Agent
      rest = record_devices files bolt json undo a.curr (new_device ids resource_gpu_memory)

      made :
          (x : Agent)
          → (create files index (share_id hash 0) w.fs).1 ≡ x.fs
          → Extends files (IsShareLink hash) w.fs x.fs
      made x f =
          subst (Extends files (IsShareLink hash) w.fs) f (create-Extends files hash 0 index w.fs)

  -- If a call of the memory plugin's `PreStartContainer` returns an error, the database is as it was,
  -- and of the directory entries none is changed or removed and only links of shares of the device
  -- are new.
  pub pre_start_memory-Left :
      (kubelet : Kubelet) (sitter : PodSitter) (ids : List Text) (w w' : Agent) (e : Error)
      → pre_start_memory files bolt json kubelet sitter ids w ≡ (err e, w')
      → Left (new_device ids resource_gpu_memory).hash w w'
  unfolding pre_start_memory
  pre_start_memory-Left kubelet sitter ids w w' e h =
      let start = start_memory files bolt json ids in
      let find = find_assumed kubelet sitter resource_gpu_memory ids in
      let hash = (new_device ids resource_gpu_memory).hash in
      elim (>>=-err (on_memory_locator find) (λ a. lift (parse_index a.assumed) >>= start a) w w'
        h) [
          | inl g ↦ unchanged hash w w' (sym (ap (λ r. r.1.fs) g)) (sym (ap (λ r. r.1.db) g))
          | inr (a, u, g, k) ↦
              same_parts hash w u w' (sym (ap (λ r. r.1.fs) g)) (sym (ap (λ r. r.1.db) g))
                (elim (>>=-err (lift (parse_index a.assumed)) (start a) u w' k) [
                  | inl p ↦
                      unchanged hash u w' (sym (ap (λ r. r.1.fs) p)) (sym (ap (λ r. r.1.db) p))
                  | inr (index, v, p, q) ↦
                      same_parts hash u v w' (sym (ap (λ r. r.1.fs) p)) (sym (ap (λ r. r.1.db) p))
                        (start_memory-Left ids a index v w' e q)
                ])
        ]
