-- ===== src/Tests/System.antt =====
-- The agent on a node with one pod: the kubelet starts its container, and the collector runs.
use mathlib.Core.List.Perm
use elastic_gpu_agent.Prelude.{
  Result, ◌≡◌, refl, subst, List, [], ◌∷◌, arith, Text, codes, lookup, inl, inr, All, Member, first,
  later, ok, ℤ, length,
}
use elastic_gpu_agent.Common.{resource_gpu_core, resource_gpu_memory}
use elastic_gpu_agent.Go.FilePath.{IsSegment}
use elastic_gpu_agent.Types.Json.{IsAscii}
use elastic_gpu_agent.Types.Device.{hash, new_device}
use elastic_gpu_agent.Storage.Iteration.{IsStore}
use elastic_gpu_agent.Operator.Gpushare.{sym_path, sym_ctl_path}
use elastic_gpu_agent.Kube.PodResources.{PodResources, ContainerResources}
use elastic_gpu_agent.Plugins.PreStart.Shares.{IsShareLink, of_share}
use elastic_gpu_agent.Plugins.PreStart.{Assumed, parse_indexes, parse_index, pre_start_core}
use elastic_gpu_agent.Plugins.PreStart.Assignment.{IsAssigned}
use elastic_gpu_agent.Plugins.Allocate.{
  ContainerResponse, all_ids, core_shares, allocate_core, allocate_memory,
}
use elastic_gpu_agent.Plugins.Gc.{timer, gc}
use elastic_gpu_agent.System.{
  IsNamed, IsSound, Actions, Call, core_starts, collects, Reached, start,
}
use elastic_gpu_agent.System
use elastic_gpu_agent.System.Handlers.{Call-Actions}
use elastic_gpu_agent.System.Runs.{Reached-entry}
use elastic_gpu_agent.System.Journey.{
  Outcome, allocate_core-pre_start_core, allocate_memory-pre_start_memory,
}
use elastic_gpu_agent.Tests.Platform.{memory_files, memory_bolt}
use elastic_gpu_agent.Tests.Codec.{counted_json}
use elastic_gpu_agent.Tests.Kube.{unit, pods, kubelet}
use elastic_gpu_agent.Tests.Pods.{IsSegment-s, IsSegment-web}
use elastic_gpu_agent.Tests.Plugins.{
  World', idle, sitter, after_job, core_started, core_runs, memory_started, memory_runs, requests,
}
use mathlib.Core.List.{Perm}

empty-IsStore : IsStore memory_bolt counted_json []
unfolding lookup
empty-IsStore k v e = absurd (cc)

pub idle-IsSound : IsSound memory_files memory_bolt counted_json idle
idle-IsSound = record { store = empty-IsStore; core = refl; memory = refl }

pub unit-IsAscii : All IsAscii unit
unit-IsAscii = ground arith

pub member_All : {A : Type 0} (P : A → Type 0) (x : A) (l : List A) → Member x l → All P l → P x
member_All P x [] m h = elim m [ ]
member_All P x (y ∷ l) first (p, h) = p
member_All P x (y ∷ l) (later m) (p, h) = member_All P x l m h

-- What holds of all pods that the kubelet lists.
pub only_of :
    (qs : List PodResources) (P : PodResources → Type 0) (ps : List PodResources) (p : PodResources)
    → ◌≡◌ {A = Result (List PodResources)} (ok qs) (ok ps)
    → Member p ps
    → All P qs
    → P p
only_of qs P ps p e m h = member_All P p qs (subst (Member p) (cc) m) h

pub only_pod :
    (P : PodResources → Type 0) (ps : List PodResources) (p : PodResources)
    → kubelet.list ≡ ok ps
    → Member p ps
    → All P pods
    → P p
only_pod P ps p e m h = only_of pods P ps p e m h

pub kubelet-IsNamed : IsNamed kubelet
kubelet-IsNamed = record {
  namespaces = λ ps p e m. only_pod (λ q. IsSegment q.namespace) ps p e m (IsSegment-s, tt);
  names = λ ps p e m. only_pod (λ q. IsSegment q.name) ps p e m (IsSegment-web, tt);
  containers = λ ps p c e m n.
      member_All (λ (d : ContainerResources). IsAscii d.name) c p.containers n
        (only_pod (λ q. All (λ (d : ContainerResources). IsAscii d.name) q.containers) ps p e m
          (((omega arith, tt), tt), tt));
}

-- The container starts, and then the collector runs.
abbrev collected : World'
collected =
    gc memory_files memory_bolt counted_json after_job timer
      (pre_start_core memory_files memory_bolt counted_json kubelet sitter unit idle).1

starts_core :
    Call memory_files memory_bolt counted_json idle
      (pre_start_core memory_files memory_bolt counted_json kubelet sitter unit idle).1
starts_core = core_starts kubelet sitter unit kubelet-IsNamed unit-IsAscii

two_calls : Reached memory_files memory_bolt counted_json idle collected
two_calls = System.later (System.later start starts_core) (collects after_job timer)

Call-Actions_example :
    Actions memory_files memory_bolt counted_json idle
      (pre_start_core memory_files memory_bolt counted_json kubelet sitter unit idle).1
Call-Actions_example =
    Call-Actions memory_files memory_bolt counted_json idle
      (pre_start_core memory_files memory_bolt counted_json kubelet sitter unit idle).1 idle-IsSound
      starts_core

no_share : (hash : Text) → ¬ IsShareLink hash (codes "/dev/nvidia0")
unfolding sym_path sym_ctl_path
no_share hash (of_share i (inl e)) = cc
no_share hash (of_share i (inr e)) = cc

Reached-entry_example :
    lookup (codes "/dev/nvidia0") collected.fs ≡ lookup (codes "/dev/nvidia0") idle.fs
Reached-entry_example =
    Reached-entry memory_files memory_bolt counted_json idle collected (codes "/dev/nvidia0")
      idle-IsSound no_share two_calls

pub core_answer : (r : ContainerResponse) × (allocate_core requests ≡ ok (r ∷ []))
unfolding allocate_core new_device
core_answer = (_, refl)

memory_answer : (r : ContainerResponse) × (allocate_memory requests ≡ ok (r ∷ []))
unfolding allocate_memory new_device
memory_answer = (_, refl)

pub same_ids : Perm (all_ids requests) unit
unfolding all_ids
same_ids = Perm.refl unit

allocate_core-pre_start_core_example :
    (a : Assumed) × (indexes : List ℤ) × IsAssigned kubelet sitter resource_gpu_core unit a
    × (parse_indexes a.assumed ≡ ok indexes)
    × Outcome memory_files memory_bolt counted_json unit resource_gpu_core a.curr indexes
        (core_shares (length (all_ids requests)))
        core_answer.0
        idle
        core_started
allocate_core-pre_start_core_example =
    allocate_core-pre_start_core memory_files memory_bolt counted_json kubelet sitter requests unit
      core_answer.0 idle core_started idle-IsSound kubelet-IsNamed unit-IsAscii same_ids
      core_answer.1 core_runs

allocate_memory-pre_start_memory_example :
    (a : Assumed) × (index : ℤ) × IsAssigned kubelet sitter resource_gpu_memory unit a
    × (parse_index a.assumed ≡ ok index)
    × Outcome memory_files memory_bolt counted_json unit resource_gpu_memory a.curr
        (index ∷ [])
        1
        memory_answer.0
        idle
        memory_started
allocate_memory-pre_start_memory_example =
    allocate_memory-pre_start_memory memory_files memory_bolt counted_json kubelet sitter requests
      unit memory_answer.0 idle memory_started idle-IsSound kubelet-IsNamed unit-IsAscii same_ids
      memory_answer.1 memory_runs
