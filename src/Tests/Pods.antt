-- ===== src/Tests/Pods.antt =====
-- Two pods with one device each, and a database that holds their records.
use elastic_gpu_agent.Prelude.{◌≡◌, refl, some, [], ◌∷◌, arith, Text, codes, Dict, lookup, ok}
use elastic_gpu_agent.Common.{resource_gpu_core}
use elastic_gpu_agent.Go.FilePath.{IsSegment}
use elastic_gpu_agent.Types.Device.{Device}
use elastic_gpu_agent.Types.Pod.{PodInfo}
use elastic_gpu_agent.Types.Pod.RoundTrip.{IsValid}
use elastic_gpu_agent.Storage.{save}
use elastic_gpu_agent.Storage.Iteration.{IsStore, save-IsStore}
use elastic_gpu_agent.Tests.Platform.{memory_bolt}
use elastic_gpu_agent.Tests.Codec.{counted_json}

abbrev pub device : Device
device = record {
  hash = codes "0a1b2c3d";
  list = codes "0-00" ∷ [];
  resource_name = resource_gpu_core;
}

abbrev pub web : PodInfo
web = record {
  namespace = codes "s";
  name = codes "web";
  container_device_map = some ((codes "c", device) ∷ []);
}

abbrev pub job : PodInfo
job = record {
  namespace = codes "s";
  name = codes "job";
  container_device_map = some ((codes "c", device) ∷ []);
}

pub IsSegment-s : IsSegment (codes "s")
IsSegment-s = record {
  not_empty = λ e. cc;
  not_dot = λ e. cc;
  not_dot_dot = λ e. cc;
  no_slash = omega arith;
}

pub IsSegment-web : IsSegment (codes "web")
IsSegment-web = record {
  not_empty = λ e. cc;
  not_dot = λ e. cc;
  not_dot_dot = λ e. cc;
  no_slash = omega arith;
}

pub IsSegment-job : IsSegment (codes "job")
IsSegment-job = record {
  not_empty = λ e. cc;
  not_dot = λ e. cc;
  not_dot_dot = λ e. cc;
  no_slash = omega arith;
}

pub web-IsValid : IsValid web
web-IsValid = record {
  namespace = IsSegment-s;
  name = IsSegment-web;
  storable = ((tt, tt), omega arith);
}

pub job-IsValid : IsValid job
job-IsValid = record {
  namespace = IsSegment-s;
  name = IsSegment-job;
  storable = ((tt, tt), omega arith);
}

abbrev pub one_pod : Dict Text
one_pod = (save memory_bolt counted_json web []).1

save-web : save memory_bolt counted_json web [] ≡ (ok tt, one_pod)
unfolding save
save-web = refl

abbrev pub two_pods : Dict Text
two_pods = (save memory_bolt counted_json job one_pod).1

pub save-job : save memory_bolt counted_json job one_pod ≡ (ok tt, two_pods)
unfolding save
save-job = refl

empty-IsStore : IsStore memory_bolt counted_json []
unfolding lookup
empty-IsStore k v e = absurd (cc)

pub one_pod-IsStore : IsStore memory_bolt counted_json one_pod
one_pod-IsStore =
    save-IsStore memory_bolt counted_json web [] one_pod web-IsValid empty-IsStore save-web

pub two_pods-IsStore : IsStore memory_bolt counted_json two_pods
two_pods-IsStore =
    save-IsStore memory_bolt counted_json job one_pod two_pods job-IsValid one_pod-IsStore save-job
