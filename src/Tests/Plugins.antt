-- ===== src/Tests/Plugins.antt =====
-- The plugins on a node with one pod, which holds one unit of a GPU's cores.
use elastic_gpu_agent.Prelude.{
  pos, ◌≡◌, ◌⊎◌, inl, inr, refl, none, List, [], ◌∷◌, Text, codes, ok, err, not_found,
  not_gpu_index, lookup, false, devices_empty, length, Distinct, map, text_eq, insert,
  if◌then◌else◌, ◌*◌,
}
use elastic_gpu_agent.Prelude.Order.{text_le}
use elastic_gpu_agent.Common.{
  resource_gpu_core, resource_gpu_memory, container_annotation, assumed_annotation,
}
use elastic_gpu_agent.Go.Strings.{join, split}
use elastic_gpu_agent.Go.Sort.{strings}
use elastic_gpu_agent.Go.Hex.{encode_to_string, nibble}
use elastic_gpu_agent.Go.Sha256.{sum256}
use elastic_gpu_agent.Go.Strconv.{atoi, itoa, format_uint}
use elastic_gpu_agent.Go.FilePath.{clean, join_path}
use elastic_gpu_agent.Types.Device.{hash, equals, new_device, device_equals}
use elastic_gpu_agent.Types.Pod.{key, val, new_pi}
use elastic_gpu_agent.Storage.{save, load, load_or_create}
use elastic_gpu_agent.Operator.FileSystem.{link}
use elastic_gpu_agent.Operator.Gpushare.{
  gpu_ctl_path, create, delete, gpu_path, sym_path, sym_ctl_path, is_exist,
}
use elastic_gpu_agent.Operator.Nvml.{GpuDevice}
use elastic_gpu_agent.Kube.Sitter.{Pod, PodSitter}
use elastic_gpu_agent.Kube.Locator.{locate}
use elastic_gpu_agent.Plugins.Share.{share_id}
use elastic_gpu_agent.Plugins.World.{World}
use elastic_gpu_agent.Plugins.Devices.{PluginDevice, core_devices}
use elastic_gpu_agent.Plugins.Devices.Distinctness.{core_devices-Distinct}
use elastic_gpu_agent.Plugins.Allocate.{ContainerResponse, all_ids, allocate_core, core_shares}
use elastic_gpu_agent.Plugins.Allocate.Paths.{Mounts, allocate_core-Mounts}
use elastic_gpu_agent.Plugins.PreStart.{
  find_assumed, parse_indexes, parse_index, create_all, delete_all, record_devices, pre_start_core,
  pre_start_memory,
}
use elastic_gpu_agent.Plugins.PreStart.Failure.{Left, pre_start_core-Left}
use elastic_gpu_agent.Plugins.Gc.{timer, is_gone, gc}
use elastic_gpu_agent.Plugins.Gc.Rounds.{gc-load, gc-entry, IsCollectable, collectable}
use elastic_gpu_agent.Tests.Platform.{memory_files, memory_bolt, make_link, stat_entry}
use elastic_gpu_agent.Tests.Codec.{counted_json, write, read}
use elastic_gpu_agent.Tests.Kube.{unit, kubelet, core_locator}
use elastic_gpu_agent.Tests.Pods.{two_pods, two_pods-IsStore, IsSegment-s, IsSegment-web}

abbrev pub pod : Pod
pod = record {
  namespace = codes "s";
  name = codes "web";
  annotations =
      (assumed_annotation, codes "true") ∷ (container_annotation (codes "c"), codes "0") ∷ [];
}

abbrev pub sitter : PodSitter
sitter = record { get_pod = λ s n. ok pod; get_pod_from_api_server = λ s n. ok pod }

abbrev pub World' : Type 0
World' = World memory_files memory_bolt

abbrev pub idle : World'
idle = record {
  fs = [];
  db = [];
  core_locator = core_locator;
  memory_locator = record { err = none; resource = resource_gpu_memory };
}

abbrev pub core_started : World'
core_started = (pre_start_core memory_files memory_bolt counted_json kubelet sitter unit idle).1

abbrev pub memory_started : World'
memory_started = (pre_start_memory memory_files memory_bolt counted_json kubelet sitter unit idle).1

pub core_runs :
    pre_start_core memory_files memory_bolt counted_json kubelet sitter unit idle
    ≡ (ok tt, core_started)
unfolding pre_start_core find_assumed locate text_eq device_equals new_device hash encode_to_string
    sum256 join strings lookup container_annotation parse_indexes split atoi create_all create clean
    join_path nibble format_uint itoa delete gpu_path is_exist sym_ctl_path sym_path delete_all
    record_devices share_id insert text_le load load_or_create save equals key new_pi val make_link
    stat_entry write read
core_runs = refl

pub core_fs :
    core_started.fs
    ≡ (sym_path (share_id (new_device unit resource_gpu_core).hash 0), link (gpu_path (pos 0)))
      ∷ (sym_ctl_path (share_id (new_device unit resource_gpu_core).hash 0), link gpu_ctl_path)
      ∷ []
unfolding pre_start_core find_assumed locate text_eq device_equals new_device hash encode_to_string
    sum256 join strings lookup container_annotation parse_indexes split atoi create_all create clean
    join_path nibble format_uint itoa delete gpu_path is_exist sym_ctl_path sym_path delete_all
    record_devices share_id insert text_le load load_or_create save equals key new_pi val make_link
    stat_entry write read
core_fs = refl

pub memory_runs :
    pre_start_memory memory_files memory_bolt counted_json kubelet sitter unit idle
    ≡ (ok tt, memory_started)
unfolding pre_start_memory find_assumed locate text_eq device_equals new_device hash
    encode_to_string sum256 join strings lookup container_annotation parse_index split atoi
    create_all create clean join_path nibble format_uint itoa delete gpu_path is_exist sym_ctl_path
    sym_path delete_all record_devices share_id insert text_le load load_or_create save equals key
    new_pi val make_link stat_entry write read
memory_runs = refl

-- An annotation with a part that is no number.
abbrev bad_annotation : PodSitter
bad_annotation = record sitter {
  get_pod = λ s n. ok (record pod {
    annotations =
        (assumed_annotation, codes "true") ∷ (container_annotation (codes "c"), codes "0,x") ∷ [];
  });
}

core_fails :
    pre_start_core memory_files memory_bolt counted_json kubelet bad_annotation unit idle
    ≡ (err (not_gpu_index (codes "0,x")), idle)
unfolding pre_start_core find_assumed locate text_eq device_equals new_device hash encode_to_string
    sum256 join strings lookup container_annotation parse_indexes split atoi create_all create clean
    join_path nibble format_uint itoa delete gpu_path is_exist sym_ctl_path sym_path delete_all
    record_devices share_id insert text_le load load_or_create save equals key new_pi val make_link
    stat_entry write read
core_fails = refl

pre_start_core-Left_example :
    Left memory_files memory_bolt counted_json (new_device unit resource_gpu_core).hash idle idle
pre_start_core-Left_example =
    pre_start_core-Left memory_files memory_bolt counted_json kubelet bad_annotation unit idle idle
      (not_gpu_index (codes "0,x")) core_fails

-- The pod `web` is still there, and `job` is gone.
abbrev pub after_job : PodSitter
after_job = record {
  get_pod = λ s n. if text_eq n (codes "web") then ok pod else err not_found;
  get_pod_from_api_server = λ s n. err not_found;
}

abbrev pub recorded : World'
recorded = record idle { db = two_pods }

web_stays : is_gone after_job (codes "s") (codes "web") ≡ false
unfolding is_gone text_eq
web_stays = refl

gc-load_example :
    load memory_bolt counted_json
      (codes "s")
      (codes "web")
      (gc memory_files memory_bolt counted_json after_job timer recorded).db
    ≡ load memory_bolt counted_json (codes "s") (codes "web") two_pods
gc-load_example =
    gc-load memory_files memory_bolt counted_json after_job timer recorded (codes "s") (codes "web")
      two_pods-IsStore IsSegment-s IsSegment-web web_stays

no_link :
    ¬ IsCollectable memory_files memory_bolt counted_json after_job recorded (codes "/dev/null")
unfolding sym_path sym_ctl_path
no_link (collectable p m c d i r g h k (inl e)) = cc
no_link (collectable p m c d i r g h k (inr e)) = cc

gc-entry_example :
    lookup
      (codes "/dev/null")
      (gc memory_files memory_bolt counted_json after_job timer recorded).fs
    ≡ lookup (codes "/dev/null") recorded.fs
gc-entry_example =
    gc-entry memory_files memory_bolt counted_json after_job timer recorded (codes "/dev/null")
      two_pods-IsStore no_link

abbrev pub requests : List (List Text)
requests = unit ∷ []

allocate_core-Mounts_example :
    ((all_ids requests ≡ []) × (allocate_core requests ≡ err devices_empty))
    ⊎ ((r : ContainerResponse) × (allocate_core requests ≡ ok (r ∷ []))
        × Mounts
            (new_device (all_ids requests) resource_gpu_core).hash
            (core_shares (length (all_ids requests)))
            r)
allocate_core-Mounts_example = allocate_core-Mounts requests

abbrev gpu : GpuDevice
gpu = record { uuid = codes "GPU"; gpu_index = codes "0"; paths = []; memory = 2097152 }

core_devices-Distinct_example :
    (units : List PluginDevice) × (core_devices (gpu ∷ [], none) ≡ ok units)
    × (length units ≡ 100 * length (gpu ∷ []))
    × Distinct (map (λ (d : PluginDevice). d.id) units)
core_devices-Distinct_example = core_devices-Distinct (gpu ∷ [])
