-- ===== src/Tests/Storage.antt =====
-- The storage on a database in memory.
use elastic_gpu_agent.Prelude.{[], List, ◌≡◌, codes, ◌∷◌}
use elastic_gpu_agent.Storage.Iteration.{Visits, for_each-Visits}
use elastic_gpu_agent.Storage.Refinement.{
  Operation, saves, deletes, view, apply_all, perform_all, perform_all-apply_all,
}
use elastic_gpu_agent.Tests.Platform.{memory_bolt}
use elastic_gpu_agent.Tests.Codec.{counted_json}
use elastic_gpu_agent.Tests.Pods.{
  web-IsValid, web, job, two_pods, IsSegment-s, IsSegment-web, job-IsValid, two_pods-IsStore,
}

for_each-Visits_example : Visits memory_bolt counted_json two_pods
for_each-Visits_example = for_each-Visits memory_bolt counted_json two_pods two_pods-IsStore

abbrev operations : List Operation
operations = saves web ∷ saves job ∷ deletes (codes "s") (codes "web") ∷ []

perform_all-apply_all_example :
    view memory_bolt counted_json
      (perform_all memory_bolt counted_json operations []).1
      (codes "s")
      (codes "web")
    ≡ apply_all operations
        (perform_all memory_bolt counted_json operations []).0
        (view memory_bolt counted_json [])
        (codes "s")
        (codes "web")
perform_all-apply_all_example =
    perform_all-apply_all memory_bolt counted_json operations [] (codes "s") (codes "web")
      (web-IsValid, (job-IsValid, ((IsSegment-s, IsSegment-web), tt))) IsSegment-s IsSegment-web
