-- ===== src/Tests/Deletions.antt =====
-- A node where a pod that is gone is still recorded, and its deletion is announced.
use elastic_gpu_agent.Prelude.{
  ◌≡◌, ◌≢◌, ◌⊎◌, ◌+◌, refl, sym, subst, arith, [], ◌∷◌, Text, codes, first,
}
use elastic_gpu_agent.Kube.Sitter.{Cluster, Object, pod_pointer}
use elastic_gpu_agent.Plugins.Gc.{event_of, gc}
use elastic_gpu_agent.Plugins.Gc.Completion.{AreIntact}
use elastic_gpu_agent.Plugins.Gc.Progress.{IsCollected}
use elastic_gpu_agent.System.{IsSound}
use elastic_gpu_agent.Manager.{manager_sitter}
use elastic_gpu_agent.System.Deletions.{
  NodeState, Turn, sends, receives, Turns, none_yet, another, Steps, here, next, deletes, turns,
  turns_left,
}
use elastic_gpu_agent.System.Deletions.Order.{IsOrdered, Steps-IsDelivered}
use elastic_gpu_agent.System.Deletions.Drained.{IsClearable, Turns-IsCollected}
use elastic_gpu_agent.Tests.Platform.{memory_files, memory_bolt}
use elastic_gpu_agent.Tests.Codec.{counted_json}
use elastic_gpu_agent.Tests.Pods.{device, job, job-IsValid, two_pods-IsStore}
use elastic_gpu_agent.Tests.Plugins.{after_job}
use elastic_gpu_agent.Tests.Collector.{
  linked, files-IsRemovable, bolt-IsDroppable, job_gone, job_loads, one_line, intact,
}

abbrev selector : Text → Text → Text
selector field value = value

abbrev cluster : Cluster
cluster = record { lister_get = after_job.get_pod; pods_get = after_job.get_pod_from_api_server }

abbrev deleted_job : Object
deleted_job = pod_pointer (record { namespace = codes "s"; name = codes "job"; annotations = [] })

abbrev Node' : Type 0
Node' = NodeState memory_files memory_bolt counted_json selector (codes "node")

abbrev quiet : Node'
quiet = record { agent = linked; pending = []; gc_chan = []; announced = []; received = [] }

abbrev announced : Node'
announced = record quiet { pending = deleted_job ∷ []; announced = deleted_job ∷ [] }

abbrev sent : Node'
sent = record announced { pending = []; gc_chan = deleted_job ∷ [] }

abbrev collected : Node'
collected = record sent {
  agent =
      gc memory_files memory_bolt counted_json (manager_sitter selector (codes "node") cluster).pods
        (event_of deleted_job) linked;
  gc_chan = [];
  received = deleted_job ∷ [];
}

is_sent : Turn memory_files memory_bolt counted_json selector (codes "node") cluster announced sent
unfolding manager_sitter
is_sent = sends deleted_job [] (deleted_job ∷ []) refl refl

is_received :
    Turn memory_files memory_bolt counted_json selector (codes "node") cluster sent collected
is_received = receives deleted_job [] refl

sent_received :
    Turns memory_files memory_bolt counted_json selector
      (codes "node")
      cluster
      announced
      2
      collected
sent_received = another (another none_yet is_sent) is_received

whole_way : Steps memory_files memory_bolt counted_json selector (codes "node") quiet collected
whole_way =
    next (next (next here (deletes deleted_job)) (turns cluster is_sent))
      (turns cluster is_received)

job-IsClearable :
    IsClearable memory_files memory_bolt counted_json
      (manager_sitter selector (codes "node") cluster).pods
      linked
      job
      (codes "c")
      device
unfolding manager_sitter
job-IsClearable = record {
  store = two_pods-IsStore;
  removable = files-IsRemovable;
  droppable = bolt-IsDroppable;
  intact =
      subst (λ ls. AreIntact memory_files memory_bolt counted_json ls linked.fs) (sym one_line)
        intact;
  valid = job-IsValid;
  recorded = job_loads;
  gone = job_gone;
  devices = (codes "c", device) ∷ [];
  has_devices = refl;
  listed = first;
}

some_left : turns_left memory_files memory_bolt counted_json selector (codes "node") announced ≢ 0
unfolding turns_left
some_left = omega arith

Turns-IsCollected_example :
    (2 + turns_left memory_files memory_bolt counted_json selector (codes "node") collected
      ≡ turns_left memory_files memory_bolt counted_json selector (codes "node") announced)
    × (((u : Node') × Turn memory_files memory_bolt counted_json selector
            (codes "node")
            cluster
            collected
            u)
        ⊎ ((turns_left memory_files memory_bolt counted_json selector (codes "node") collected ≡ 0)
            × IsCollected memory_files memory_bolt counted_json job
                (codes "c")
                device
                collected.agent))
Turns-IsCollected_example =
    Turns-IsCollected memory_files memory_bolt counted_json selector (codes "node") cluster job
      (codes "c") device announced 2 collected some_left job-IsClearable sent_received

quiet-IsOrdered : IsOrdered memory_files memory_bolt counted_json selector (codes "node") quiet
quiet-IsOrdered = record { order = refl; fits = omega arith }

linked-IsSound : IsSound memory_files memory_bolt counted_json linked
linked-IsSound = record { store = two_pods-IsStore; core = refl; memory = refl }

Steps-IsDelivered_example :
    IsOrdered memory_files memory_bolt counted_json selector (codes "node") collected
    × IsSound memory_files memory_bolt counted_json collected.agent
Steps-IsDelivered_example =
    Steps-IsDelivered memory_files memory_bolt counted_json selector (codes "node") quiet collected
      quiet-IsOrdered linked-IsSound whole_way
