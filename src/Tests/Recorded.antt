-- ===== src/Tests/Recorded.antt =====
-- A node where one pod is recorded, and a container of another pod is started.
use elastic_gpu_agent.Prelude.{
  ◌≡◌, ◌≢◌, refl, sym, ap, ◌∙◌, true, false, [], ◌∷◌, codes, text_eq, lookup,
}
use elastic_gpu_agent.Common.{resource_gpu_core}
use elastic_gpu_agent.Types.Device.{new_device}
use elastic_gpu_agent.Types.Pod.{PodContainer}
use elastic_gpu_agent.Kube.PodResources.{PodResources}
use elastic_gpu_agent.Kube.Locator.Search.{HeldBy, held}
use elastic_gpu_agent.Plugins.PreStart.{Assumed, pre_start_core}
use elastic_gpu_agent.Plugins.PreStart.Assignment.{IsAssigned}
use elastic_gpu_agent.Plugins.PreStart.Keeping.{HasDevice, IsNoOther}
use elastic_gpu_agent.Plugins.Gc.{timer, is_gone, gc}
use elastic_gpu_agent.System.{IsSound}
use elastic_gpu_agent.System.Recorded.{
  core_starts, collects, Spared, start, later, Spared-HasDevice,
}
use elastic_gpu_agent.Tests.Platform.{memory_files, memory_bolt}
use elastic_gpu_agent.Tests.Codec.{counted_json}
use elastic_gpu_agent.Tests.Kube.{unit, kubelet}
use elastic_gpu_agent.Tests.Pods.{device, job, two_pods-IsStore, IsSegment-s, IsSegment-job}
use elastic_gpu_agent.Tests.Plugins.{World', recorded, sitter}
use elastic_gpu_agent.Tests.System.{only_pod, kubelet-IsNamed, unit-IsAscii}
use elastic_gpu_agent.Tests.Collector.{job_loads}

job_listed :
    HasDevice memory_bolt counted_json (codes "s") (codes "job") (codes "c") device recorded.db
unfolding lookup text_eq
job_listed = record {
  pod = job;
  loads = job_loads;
  devices = (codes "c", device) ∷ [];
  has_devices = refl;
  listed = refl;
}

recorded-IsSound : IsSound memory_files memory_bolt counted_json recorded
recorded-IsSound = record { store = two_pods-IsStore; core = refl; memory = refl }

-- The two names differ.
web_ne_job : codes "web" ≢ codes "job"
unfolding text_eq
web_ne_job e = let differ : true ≡ false = ap (λ t. text_eq (codes "web") t) e in cc (differ)

not_job :
    (a : Assumed) → IsAssigned kubelet sitter resource_gpu_core unit a → a.curr.name ≢ codes "job"
not_job a g e = go g.held
  where
    go : HeldBy resource_gpu_core unit g.pods a.curr → ⊥
    go (held pod c mp mc h f) =
        only_pod (λ (q : PodResources). q.name ≢ codes "job") g.pods pod g.listed mp
          (web_ne_job, tt) (sym (ap (λ (x : PodContainer). x.name) f) ∙ e)

spares :
    (a : Assumed)
    → IsAssigned kubelet sitter resource_gpu_core unit a
    → IsNoOther memory_bolt counted_json
        (codes "s")
        (codes "job")
        (codes "c")
        device
        a.curr
        (new_device unit resource_gpu_core)
spares a g es en ec = absurd (not_job a g en)

job_stays : is_gone sitter (codes "s") (codes "job") ≡ false
unfolding is_gone
job_stays = refl

abbrev web_started : World'
web_started = (pre_start_core memory_files memory_bolt counted_json kubelet sitter unit recorded).1

abbrev swept : World'
swept = gc memory_files memory_bolt counted_json sitter timer web_started

two_calls :
    Spared memory_files memory_bolt counted_json
      (codes "s")
      (codes "job")
      (codes "c")
      device
      recorded
      swept
two_calls =
    later (later start (core_starts kubelet sitter unit kubelet-IsNamed unit-IsAscii spares))
      (collects sitter timer job_stays)

Spared-HasDevice_example :
    HasDevice memory_bolt counted_json (codes "s") (codes "job") (codes "c") device swept.db
Spared-HasDevice_example =
    Spared-HasDevice memory_files memory_bolt counted_json (codes "s") (codes "job") (codes "c")
      device recorded swept recorded-IsSound IsSegment-s IsSegment-job job_listed two_calls
