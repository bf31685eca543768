-- ===== src/Tests/Threads.antt =====
-- Handlers of both plugins for the containers of one pod.
use elastic_gpu_agent.Prelude.{
  Text, some, ◌≡◌, ◌≢◌, refl, ap, arith, true, false, lookup, text_eq, none, [], ◌∷◌, codes, pos,
}
use elastic_gpu_agent.Common.{resource_gpu_core, resource_gpu_memory}
use elastic_gpu_agent.Types.Device.{Device, new_device}
use elastic_gpu_agent.Types.Device.Plain.{new_device-IsPlainDevice}
use elastic_gpu_agent.Types.Pod.{new_pi, key}
use elastic_gpu_agent.Storage.{load_or_create, load}
use elastic_gpu_agent.Operator.Gpushare.{sym_path}
use elastic_gpu_agent.Plugins.Share.{share_id}
use elastic_gpu_agent.Plugins.Gc.{timer, gc}
use elastic_gpu_agent.Plugins.Gc.Lines.{line_of}
use elastic_gpu_agent.Plugins.Gc.Blocked.{gc_blocked}
use elastic_gpu_agent.System.{IsSound}
use elastic_gpu_agent.System.Handlers.{core-IsAscii, memory-IsAscii}
use elastic_gpu_agent.System.Threads.{
  Job, new_thread, move, Pair, Woven, start, core_next, memory_next, collector_next, resting,
  dropping, sweep,
}
use elastic_gpu_agent.System.Threads.Interleaved.{IsFitJob, HasMade, Woven-IsSound}
use elastic_gpu_agent.System.Threads.Lost.{
  both_read, IsLost, core_job, memory_job, both_load-IsLost,
}
use elastic_gpu_agent.Tests.Platform.{memory_files, memory_bolt}
use elastic_gpu_agent.Tests.Codec.{counted_json}
use elastic_gpu_agent.Tests.Kube.{unit}
use elastic_gpu_agent.Tests.Pods.{IsSegment-s, IsSegment-web, device, job}
use elastic_gpu_agent.Tests.Plugins.{idle, recorded, sitter, after_job}
use elastic_gpu_agent.Tests.System.{unit-IsAscii, idle-IsSound}
use elastic_gpu_agent.Tests.Collector.{one_line}

abbrev core_device : Device
core_device = new_device unit resource_gpu_core

abbrev memory_device : Device
memory_device = new_device unit resource_gpu_memory

abbrev first_job : Job
first_job =
    core_job memory_files memory_bolt counted_json (codes "s") (codes "web") (codes "c") (codes "d")
      core_device memory_device (pos 0 ∷ []) (pos 0 ∷ []) idle

abbrev second_job : Job
second_job =
    memory_job memory_files memory_bolt counted_json (codes "s") (codes "web") (codes "c")
      (codes "d") core_device memory_device (pos 0 ∷ []) (pos 0 ∷ []) idle

first-IsFitJob : IsFitJob first_job
first-IsFitJob = record {
  namespace = IsSegment-s;
  name = IsSegment-web;
  container = omega arith;
  devices = new_device-IsPlainDevice unit resource_gpu_core unit-IsAscii core-IsAscii;
}

second-IsFitJob : IsFitJob second_job
second-IsFitJob = record {
  namespace = IsSegment-s;
  name = IsSegment-web;
  container = omega arith;
  devices = new_device-IsPlainDevice unit resource_gpu_memory unit-IsAscii memory-IsAscii;
}

abbrev both : Pair memory_files memory_bolt counted_json
both = record {
  agent = idle;
  core = new_thread first_job;
  memory = new_thread second_job;
  collector = dropping (line_of job (codes "c") device) [];
}

-- The core plugin's handler makes its link, and then the collector drops a record.
abbrev last : Pair memory_files memory_bolt counted_json
last =
    let (t, w) = move memory_files memory_bolt counted_json both.core idle in
    let (c, v) = sweep memory_files memory_bolt counted_json sitter timer both.collector w in
    record { agent = v; core = t; memory = both.memory; collector = c }

one_call : Woven memory_files memory_bolt counted_json both 1 0 last
one_call = collector_next sitter timer (core_next start)

Woven-IsSound_example :
    IsSound memory_files memory_bolt counted_json last.agent
    × HasMade memory_files memory_bolt counted_json 1 both.core last.core
    × HasMade memory_files memory_bolt counted_json 0 both.memory last.memory
Woven-IsSound_example =
    Woven-IsSound memory_files memory_bolt counted_json both last 1 0 idle-IsSound first-IsFitJob
      second-IsFitJob one_call

differ : codes "c" ≢ codes "d"
unfolding text_eq
differ e = let apart : true ≡ false = ap (λ t. text_eq (codes "c") t) e in cc (apart)

nothing_yet :
    (load_or_create memory_bolt counted_json (codes "s") (codes "web") idle.db).container_device_map
    ≡ some []
unfolding load_or_create load new_pi key lookup
nothing_yet = refl

abbrev readers : Pair memory_files memory_bolt counted_json
readers =
    both_read memory_files memory_bolt counted_json (codes "s") (codes "web") (codes "c")
      (codes "d") core_device memory_device (pos 0 ∷ []) (pos 0 ∷ []) idle resting

-- The memory plugin's handler saves first, then the core plugin's.
abbrev savers : Pair memory_files memory_bolt counted_json
savers =
    let (t', w) = move memory_files memory_bolt counted_json readers.memory readers.agent in
    let (t, v) = move memory_files memory_bolt counted_json readers.core w in
    record { agent = v; core = t; memory = t'; collector = resting }

both_save : Woven memory_files memory_bolt counted_json readers 1 1 savers
both_save = core_next (memory_next start)

none_yet : (c : Text) (d : Device) → lookup c [] ≢ some d
unfolding lookup
none_yet c d e = cc

both_load-IsLost_example :
    IsLost memory_files memory_bolt counted_json
      (codes "s")
      (codes "web")
      (codes "c")
      (codes "d")
      core_device
      memory_device
      (pos 0 ∷ [])
      (pos 0 ∷ [])
      idle
      savers
both_load-IsLost_example =
    both_load-IsLost memory_files memory_bolt counted_json (codes "s") (codes "web") (codes "c")
      (codes "d") core_device memory_device (pos 0 ∷ []) (pos 0 ∷ []) idle [] savers resting 1 1
      idle-IsSound.store first-IsFitJob second-IsFitJob differ nothing_yet
      (none_yet (codes "c") core_device) (none_yet (codes "d") memory_device) both_save

-- The record of the pod that is gone, where no link stands.
no_link :
    lookup (sym_path (share_id (line_of job (codes "c") device).device.hash 0)) recorded.fs ≡ none
unfolding lookup
no_link = refl

gc_blocked_example : gc memory_files memory_bolt counted_json after_job timer recorded ≡ recorded
gc_blocked_example =
    gc_blocked memory_files memory_bolt counted_json after_job timer recorded
      (line_of job (codes "c") device) [] one_line no_link
