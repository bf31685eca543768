-- ===== src/System/Forgotten.antt =====
-- What becomes of a container's links when the memory plugin starts it after the core plugin
-- (pkg/plugins/gpushare.go): both write their device under the container's name.
use elastic_gpu_agent.Prelude.{
  arith, Lacks, [], ◌∷◌, ℤ, ◌≡◌, ◌∙◌, ◌⊎◌, inl, inr, ◌≢◌, subst, List, Text, All, ok, Result,
}
use elastic_gpu_agent.Common.{resource_gpu_memory, resource_gpu_core}
use elastic_gpu_agent.Types.Json.{Json, IsAscii}
use elastic_gpu_agent.Types.Device.{new_device}
use elastic_gpu_agent.Types.Device.HashText.{hash-Lacks}
use elastic_gpu_agent.Types.Device.Identity.{new_device_lem}
use elastic_gpu_agent.Go.Sort
use elastic_gpu_agent.Types.Device.Plain.{new_device-IsPlainDevice}
use elastic_gpu_agent.Storage.Bolt.{BoltDb}
use elastic_gpu_agent.Storage.Records.{failed_save}
use elastic_gpu_agent.Storage.Iteration.{save-IsStore}
use elastic_gpu_agent.Operator.FileSystem.{Files}
use elastic_gpu_agent.Kube.Sitter.{PodSitter}
use elastic_gpu_agent.Kube.PodResources.{Kubelet}
use elastic_gpu_agent.Plugins.PreStart.{Assumed, pre_start_memory, pre_start_core}
use elastic_gpu_agent.Plugins.PreStart.Assignment.{IsAssigned}
use elastic_gpu_agent.Plugins.PreStart.Record.{Writes-IsValid}
use elastic_gpu_agent.Plugins.PreStart.Replacing.{
  IsUnlisted, IsOnlyAt, save-IsUnlisted, save-IsOnlyAt,
}
use elastic_gpu_agent.Plugins.PreStart.Shares.{IsShareLink, of_share}
use elastic_gpu_agent.Plugins.PreStart.Outcome.{
  Started, kept, undone, pre_start_memory-Started, pre_start_core-Started,
}
use elastic_gpu_agent.Plugins.Gc.{Event}
use elastic_gpu_agent.Plugins.Gc.Unlisted.{rounds, rounds-entry}
use elastic_gpu_agent.System.{Agent, IsNamed, IsSound, core_starts}
use elastic_gpu_agent.System.Handlers.{HeldBy-IsFit, memory-IsAscii, core-IsAscii, Call-Actions}
use elastic_gpu_agent.System.Safety.{Actions-IsSound}
use elastic_gpu_agent.Plugins.Gc.Shares.{one_share, hash_of_share}

no_dash : (ids : List Text) (resource : Text) → Lacks b'-' (new_device ids resource).hash
no_dash ids resource =
    rw (new_device_lem ids resource) (hash-Lacks b'-' (Sort.strings ids) (omega arith))

-- A path is a link of shares of one hash at most.
other_hash :
    (core_ids memory_ids : List Text) (path : Text)
    → (new_device core_ids resource_gpu_core).hash
      ≢ (new_device memory_ids resource_gpu_memory).hash
    → IsShareLink (new_device core_ids resource_gpu_core).hash path
    → ¬ IsShareLink (new_device memory_ids resource_gpu_memory).hash path
other_hash core_ids memory_ids path differ (of_share i l) (of_share j k) = differ (
    hash_of_share _ _ i j (no_dash core_ids resource_gpu_core)
      (no_dash memory_ids resource_gpu_memory) (one_share _ _ path l k))

module _ (files : Files) (bolt : BoltDb) (json : Json) where
  open files use {entry}

  -- What a memory start of the container of a listed device does to its links: if the save failed,
  -- nothing is forgotten.
  memory_start-rounds :
      (kubelet : Kubelet) (sitter : PodSitter) (ids : List Text) (w w' : Agent files bolt json)
      (path : Text)
      → IsSound files bolt json w
      → IsNamed kubelet
      → All IsAscii ids
      → ¬ IsShareLink (new_device ids resource_gpu_memory).hash path
      → ((a : Assumed)
          → IsAssigned kubelet sitter resource_gpu_memory ids a
          → IsOnlyAt bolt json path a.curr w.db)
      → pre_start_memory files bolt json kubelet sitter ids w ≡ (ok tt, w')
      → (w'.db ≡ w.db)
        ⊎ ((events : List (PodSitter × Event))
            → entry (rounds files bolt json events w').fs path ≡ entry w.fs path)
  memory_start-rounds kubelet sitter ids w w' path h named ascii clean only e =
      let (a, index, g, reads, started) =
        pre_start_memory-Started files bolt json kubelet sitter ids w w' h.memory e in
      go a index g started
    where
      go :
          (a : Assumed) (index : ℤ)
          → IsAssigned kubelet sitter resource_gpu_memory ids a
          → Started files bolt json ids resource_gpu_memory a (index ∷ []) w w'
          → (w'.db ≡ w.db)
            ⊎ ((events : List (PodSitter × Event))
                → entry (rounds files bolt json events w').fs path ≡ entry w.fs path)
      go a index g (undone p x t made wr f back) = inl (failed_save bolt json p w.db w'.db x f)
      go a index g (kept p made wr saved) =
          let fit =
            HeldBy-IsFit kubelet resource_gpu_memory ids g.pods a.curr named ascii memory-IsAscii
              g.listed g.held in
          let valid =
            Writes-IsValid bolt json w.db a.curr (new_device ids resource_gpu_memory) p wr h.store
              fit.namespace fit.name fit.container
              (new_device-IsPlainDevice ids resource_gpu_memory fit.ids_ascii fit.resource_ascii) in
          inr (λ events.
            rounds-entry files bolt json path events w'
              (save-IsStore bolt json p w.db w'.db valid h.store saved)
              (save-IsUnlisted bolt json path w.db w'.db a.curr (new_device ids resource_gpu_memory)
                p wr h.store valid saved clean (only a g))
            ∙ made.extends.frame path clean)

  -- What a core start leaves listed, if its save does not fail.
  core_start-IsOnlyAt :
      (kubelet : Kubelet) (sitter : PodSitter) (ids : List Text) (w v : Agent files bolt json)
      (path : Text)
      → IsSound files bolt json w
      → IsNamed kubelet
      → All IsAscii ids
      → IsUnlisted bolt json path w.db
      → pre_start_core files bolt json kubelet sitter ids w ≡ (ok tt, v)
      → (v.db ≡ w.db)
        ⊎ ((a : Assumed) × IsAssigned kubelet sitter resource_gpu_core ids a
            × IsOnlyAt bolt json path a.curr v.db)
  core_start-IsOnlyAt kubelet sitter ids w v path h named ascii unlisted e =
      let (a, indexes, g, reads, started) =
        pre_start_core-Started files bolt json kubelet sitter ids w v h.core e in
      go a indexes g started
    where
      go :
          (a : Assumed) (indexes : List ℤ)
          → IsAssigned kubelet sitter resource_gpu_core ids a
          → Started files bolt json ids resource_gpu_core a indexes w v
          → (v.db ≡ w.db)
            ⊎ ((a : Assumed) × IsAssigned kubelet sitter resource_gpu_core ids a
                × IsOnlyAt bolt json path a.curr v.db)
      go a indexes g (undone p x t made wr f back) = inl (failed_save bolt json p w.db v.db x f)
      go a indexes g (kept p made wr saved) =
          let fit =
            HeldBy-IsFit kubelet resource_gpu_core ids g.pods a.curr named ascii core-IsAscii
              g.listed g.held in
          let valid =
            Writes-IsValid bolt json w.db a.curr (new_device ids resource_gpu_core) p wr h.store
              fit.namespace fit.name fit.container
              (new_device-IsPlainDevice ids resource_gpu_core fit.ids_ascii fit.resource_ascii) in
          inr (
            a,
            g,
            save-IsOnlyAt bolt json path w.db v.db a.curr (new_device ids resource_gpu_core) p wr
                h.store valid saved unlisted,
          )

  -- Let both plugins start one container from a sound state, the core plugin first, with devices of
  -- different hashes, and both calls return no error. Let a path be a link of a share of the core
  -- plugin's device that no record listed before. Then one of the two saves failed and left the
  -- database, or the link is forgotten: after any of the collector's events, whatever the lister and
  -- the API server say of the pod, the entry is what the core plugin left. The kubelet's names of
  -- pods are path segments, its names of containers and the ids are ASCII.
  pub both_start-IsForgotten :
      (kubelet : Kubelet) (sitter : PodSitter) (core_ids memory_ids : List Text)
      (w v w' : Agent files bolt json) (path : Text)
      → IsSound files bolt json w
      → IsNamed kubelet
      → All IsAscii core_ids
      → All IsAscii memory_ids
      → ((a b : Assumed)
          → IsAssigned kubelet sitter resource_gpu_core core_ids a
          → IsAssigned kubelet sitter resource_gpu_memory memory_ids b
          → a.curr ≡ b.curr)
      → (new_device core_ids resource_gpu_core).hash
        ≢ (new_device memory_ids resource_gpu_memory).hash
      → IsUnlisted bolt json path w.db
      → IsShareLink (new_device core_ids resource_gpu_core).hash path
      → pre_start_core files bolt json kubelet sitter core_ids w ≡ (ok tt, v)
      → pre_start_memory files bolt json kubelet sitter memory_ids v ≡ (ok tt, w')
      → (v.db ≡ w.db)
        ⊎ (w'.db ≡ v.db)
        ⊎ ((events : List (PodSitter × Event))
            → entry (rounds files bolt json events w').fs path ≡ entry v.fs path)
  both_start-IsForgotten kubelet sitter core_ids memory_ids w v w' path h named ascii ascii' one
        differ unlisted link e f =
      elim (core_start-IsOnlyAt kubelet sitter core_ids w v path h named ascii unlisted e) [
        | inl failed ↦ inl failed
        | inr (a, g, only) ↦ inr (
            memory_start-rounds kubelet sitter memory_ids v w' path sound named ascii'
              (other_hash core_ids memory_ids path differ link)
              (λ b k. subst (λ c. IsOnlyAt bolt json path c v.db) (one a b g k) only) f)
      ]
    where
      sound : IsSound files bolt json v
      sound =
          subst (λ (r : Result (Unit {0}) × Agent files bolt json). IsSound files bolt json r.1) e
            (Actions-IsSound files bolt json w _ h (
              Call-Actions files bolt json w _ h (core_starts kubelet sitter core_ids named ascii)))
