-- ===== src/System/Collided.antt =====
-- What becomes of two containers whose devices have one hash (pkg/types/device.go): the hash is of
-- the ids alone, and the core and the memory plugin announce ids of one form.
use elastic_gpu_agent.Prelude.{
  ◌≡◌, refl, sym, ap, ◌∙◌, ◌⊎◌, inl, inr, subst, none, some, List, [], ◌∷◌, Text, All, ok, ℤ,
  get_elem?, Result,
}
use elastic_gpu_agent.Common.{resource_gpu_core, resource_gpu_memory}
use elastic_gpu_agent.Types.Json.{Json, IsAscii}
use elastic_gpu_agent.Types.Device.{Device, new_device}
use elastic_gpu_agent.Types.Device.Identity.{new_device_lem}
use elastic_gpu_agent.Storage.Bolt.{BoltDb}
use elastic_gpu_agent.Storage.Records.{failed_save}
use elastic_gpu_agent.Operator.FileSystem.{Files, link}
use elastic_gpu_agent.Operator.Gpushare.{gpu_path, sym_path}
use elastic_gpu_agent.Kube.Sitter.{PodSitter}
use elastic_gpu_agent.Kube.PodResources.{Kubelet}
use elastic_gpu_agent.Plugins.Share.{share_id}
use elastic_gpu_agent.Plugins.PreStart.{
  Assumed, parse_indexes, parse_index, pre_start_core, pre_start_memory,
}
use elastic_gpu_agent.Plugins.PreStart.Assignment.{IsAssigned}
use elastic_gpu_agent.Plugins.PreStart.Outcome.{
  Started, kept, undone, pre_start_memory-Started, pre_start_core-Started,
}
use elastic_gpu_agent.System.{Agent, IsNamed, IsSound, core_starts}
use elastic_gpu_agent.System.Safety.{Actions-IsSound}
use elastic_gpu_agent.System.Handlers.{Call-Actions}

-- The link of a device's first share.
abbrev pub first_link : List Text → Text → Text
first_link ids resource = sym_path (share_id (new_device ids resource).hash 0)

one_link : (ids : List Text) → first_link ids resource_gpu_core ≡ first_link ids resource_gpu_memory
one_link ids =
    ap (λ h. sym_path (share_id h 0))
      (ap (λ (d : Device). d.hash) (new_device_lem ids resource_gpu_core)
        ∙ sym (ap (λ (d : Device). d.hash) (new_device_lem ids resource_gpu_memory)))

module _ (files : Files) (bolt : BoltDb) (json : Json) where
  open files use {entry}

  -- The two containers' annotations, and the link that both containers are given.
  pub record Collided (kubelet : Kubelet) (sitter : PodSitter) (ids : List Text)
      (w : Agent files bolt json) : Type 0 where
    pub core : Assumed
    pub assigned_core : IsAssigned kubelet sitter resource_gpu_core ids core
    pub indexes : List ℤ
    pub reads_core : parse_indexes core.assumed ≡ ok indexes
    pub memory : Assumed
    pub assigned_memory : IsAssigned kubelet sitter resource_gpu_memory ids memory
    pub index : ℤ
    pub reads_memory : parse_index memory.assumed ≡ ok index
    pub first_of_core :
        (z : ℤ)
        → get_elem? indexes 0 ≡ some z
        → entry w.fs (first_link ids resource_gpu_memory) ≡ some (link (gpu_path z))

  -- From a sound state in which the first link of the core plugin's device does not stand, let the
  -- core plugin start a container and then the memory plugin a container with the same ids, without
  -- an error. Then one of the saves failed and left the database, or the link that the memory
  -- plugin's container is given leads to the first GPU of the core plugin's container, whatever
  -- index the memory plugin's container is annotated with. The kubelet's names of pods are path
  -- segments, its names of containers and the ids are ASCII.
  pub both_start-Collided :
      (kubelet : Kubelet) (sitter : PodSitter) (ids : List Text) (w v w' : Agent files bolt json)
      → IsSound files bolt json w
      → IsNamed kubelet
      → All IsAscii ids
      → entry w.fs (first_link ids resource_gpu_core) ≡ none
      → pre_start_core files bolt json kubelet sitter ids w ≡ (ok tt, v)
      → pre_start_memory files bolt json kubelet sitter ids v ≡ (ok tt, w')
      → (v.db ≡ w.db) ⊎ (w'.db ≡ v.db) ⊎ Collided kubelet sitter ids w'
  both_start-Collided kubelet sitter ids w v w' h named ascii fresh e f =
      let (a, indexes, g, reads, started) =
        pre_start_core-Started files bolt json kubelet sitter ids w v h.core e in
      let (b, index, k, reads', started') =
        pre_start_memory-Started files bolt json kubelet sitter ids v w' sound.memory f in
      go a indexes g reads started b index k reads' started'
    where
      sound : IsSound files bolt json v
      sound =
          subst (λ (r : Result (Unit {0}) × Agent files bolt json). IsSound files bolt json r.1) e
            (Actions-IsSound files bolt json w _ h
              (Call-Actions files bolt json w _ h (core_starts kubelet sitter ids named ascii)))

      go :
          (a : Assumed) (indexes : List ℤ)
          → IsAssigned kubelet sitter resource_gpu_core ids a
          → parse_indexes a.assumed ≡ ok indexes
          → Started files bolt json ids resource_gpu_core a indexes w v
          → (b : Assumed) (index : ℤ) → IsAssigned kubelet sitter resource_gpu_memory ids b
          → parse_index b.assumed ≡ ok index
          → Started files bolt json ids resource_gpu_memory b (index ∷ []) v w'
          → (v.db ≡ w.db) ⊎ (w'.db ≡ v.db) ⊎ Collided kubelet sitter ids w'
      go a indexes g reads (undone p x t made wr s back) b index k reads' st =
          inl (failed_save bolt json p w.db v.db x s)
      go a indexes g reads (kept p made wr s) b index k reads' (undone p' x t made' wr' s' back) =
          inr (inl (failed_save bolt json p' v.db w'.db x s'))
      go a indexes g reads (kept p made wr s) b index k reads' (kept p' made' wr' s') = inr (
          inr (record {
            core = a;
            assigned_core = g;
            indexes = indexes;
            reads_core = reads;
            memory = b;
            assigned_memory = k;
            index = index;
            reads_memory = reads';
            first_of_core = λ z first. made'.extends.keeps (first_link ids resource_gpu_memory) _ (
                subst (λ q. entry v.fs q ≡ some (link (gpu_path z))) (one_link ids)
                  (made.target refl 0 z first fresh));
          }))
