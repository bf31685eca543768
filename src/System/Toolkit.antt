-- ===== src/System/Toolkit.antt =====
-- A container's way from the kubelet's `Allocate` call to NVIDIA's toolkit: the agent answers, links
-- and records, the runtime passes the variables on, and the hook runs the toolkit.
use mathlib.Core.List.{Perm}
use elastic_gpu_agent.Prelude.{
  some, length, ℕ, ◌≡◌, ◌⊎◌, ◌↔◌, ◌∙◌, refl, sym, subst, inl, inr, false, none, List, [], ◌∷◌, Text,
  codes, text_eq, lookup, arith, Dict, Member, map, ok, ℤ,
}
use elastic_gpu_agent.Common.{resource_gpu_core}
use elastic_gpu_agent.Types.Json.{Json}
use elastic_gpu_agent.Types.Device.{new_device}
use elastic_gpu_agent.Types.Device.HashText.{hash-IsHex}
use elastic_gpu_agent.Types.Pod.{PodContainer}
use elastic_gpu_agent.Storage.Bolt.{BoltDb}
use elastic_gpu_agent.Operator.FileSystem.{Files}
use elastic_gpu_agent.Operator.Gpushare.{sym_path}
use elastic_gpu_agent.Kube.Sitter.{PodSitter}
use elastic_gpu_agent.Kube.PodResources.{Kubelet}
use elastic_gpu_agent.Plugins.Share.{share_id}
use elastic_gpu_agent.Plugins.Allocate.{ContainerResponse, all_ids, allocate_core}
use elastic_gpu_agent.Plugins.Allocate.Order.{core-Mounts}
use elastic_gpu_agent.Plugins.PreStart.{Assumed, parse_indexes, pre_start_core}
use elastic_gpu_agent.Plugins.PreStart.Assignment.{IsAssigned}
use elastic_gpu_agent.System.{Agent}
use elastic_gpu_agent.System.Hooked.{IsUnsaved, Mirrors, Finds, pre_start_core-find_gpu_indexes}
use elastic_gpu_agent.Hook.{done, find_gpu_indexes, toolkit_args}
use elastic_gpu_agent.Hook.Shares.{Node, dir_entry}
use elastic_gpu_agent.Hook.Process.{Host, returns, toolkit_run, main, IsStartedFor, main-gpus}

-- A hash is not empty.
hash_ne_nil :
    (ids : List Text) (resource : Text) → text_eq (new_device ids resource).hash [] ≡ false
unfolding new_device
hash_ne_nil ids resource = eight _ (hash-IsHex _).0
  where
    eight : (s : Text) → length s ≡ 8 → text_eq s [] ≡ false
    eight [] e = absurd (omega (arith, e))
    eight (c ∷ s) e = unfold text_eq in refl

-- The hook ran the toolkit once, fed it the whole input, and told it just these GPUs.
pub record RanWith (host : Host) (buf : Text) (indexes : List ℤ) : Type 0 where
  pub gpus : List ℤ
  pub ran : main host ≡ (returns, toolkit_run (toolkit_args gpus) buf ∷ [])
  pub exact : (z : ℤ) → Member z gpus ↔ Member z indexes

Finds-RanWith :
    (host : Host) (env : Dict Text) (buf h : Text) (ns : List Node) (indexes : List ℤ)
    → IsStartedFor host env buf
    → lookup (codes "GPU") env ≡ some h
    → text_eq h [] ≡ false
    → host.read_dev ≡ ok (map dir_entry ns)
    → Finds host.readlink h ns indexes
    → RanWith host buf indexes
Finds-RanWith host env buf h ns indexes st g n d f = record {
  gpus = f.gpus;
  ran =
      main-gpus host env buf h f.gpus st g n
        (subst (λ r. find_gpu_indexes host.readlink h r ≡ done f.gpus) (sym d) f.found);
  exact = f.exact;
}

module _ (files : Files) (bolt : BoltDb) (json : Json) where
  open files use {entry}

  -- From the kubelet to the toolkit. Let `Allocate` answer a request for core units,
  -- `PreStartContainer`, called for the same ids in any order, return no error where no link of the
  -- device's hash stood before, and the hook be started for the container, whose variables have the
  -- answer's value of `GPU`. Let /dev hold the links of shares of equally long hashes, of the
  -- device's hash just those that the agent left, and besides only links whose names do not begin
  -- like those of a share, and files that are no links. Then the container that the kubelet lists
  -- with the ids was found in an assumed pod, with a list of indexes in its annotation; and either
  -- the hook runs the toolkit once, feeds it its whole input and tells it exactly the GPUs of these
  -- indexes, whether the toolkit succeeds or not, or the save of the pod's record with the device
  -- failed.
  pub allocate_core-main :
      (kubelet : Kubelet) (sitter : PodSitter) (requests : List (List Text)) (ids : List Text)
      (r : ContainerResponse) (host : Host) (env : Dict Text) (buf : Text) (ns : List Node)
      (w w' : Agent files bolt json)
      → w.core_locator.resource ≡ resource_gpu_core
      → Perm (all_ids requests) ids
      → allocate_core requests ≡ ok (r ∷ [])
      → pre_start_core files bolt json kubelet sitter ids w ≡ (ok tt, w')
      → ((k : ℕ)
          → entry w.fs (sym_path (share_id (new_device ids resource_gpu_core).hash k)) ≡ none)
      → Mirrors files host.readlink (new_device ids resource_gpu_core).hash ns w'.fs
      → host.read_dev ≡ ok (map dir_entry ns)
      → IsStartedFor host env buf
      → lookup (codes "GPU") env ≡ lookup (codes "GPU") r.envs
      → (a : Assumed) × (indexes : List ℤ) × IsAssigned kubelet sitter resource_gpu_core ids a
        × (parse_indexes a.assumed ≡ ok indexes)
        × (RanWith host buf indexes ⊎ IsUnsaved bolt json ids a.curr w.db w'.db)
  allocate_core-main kubelet sitter requests ids r host env buf ns w w' locates perm answers runs
        fresh m d st passed =
      let (a, indexes, g, reads, found) =
        pre_start_core-find_gpu_indexes files bolt json kubelet sitter ids host.readlink ns w w'
          locates runs fresh m in
      (a, indexes, g, reads, outcome a.curr indexes found)
    where
      outcome :
          (curr : PodContainer) (indexes : List ℤ)
          → Finds host.readlink (new_device ids resource_gpu_core).hash ns indexes
            ⊎ IsUnsaved bolt json ids curr w.db w'.db
          → RanWith host buf indexes ⊎ IsUnsaved bolt json ids curr w.db w'.db
      outcome curr indexes (inr failed) = inr failed
      outcome curr indexes (inl f) = inl (
          Finds-RanWith host env buf _ ns indexes st
            (passed ∙ (core-Mounts requests ids r perm answers).gpu)
            (hash_ne_nil ids resource_gpu_core) d f)
