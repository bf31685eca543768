-- ===== src/Tests/Collided.antt =====
-- Two containers of one pod, one with a unit of cores and one with the unit of memory of the same id,
-- and with the annotations of different GPUs.
use elastic_gpu_agent.Prelude.{
  ◌≡◌, ◌⊎◌, refl, List, [], ◌∷◌, codes, ok, text_eq, lookup, All, arith, insert,
}
use elastic_gpu_agent.Prelude.Order.{text_le}
use elastic_gpu_agent.Common.{
  resource_gpu_core, resource_gpu_memory, container_annotation, assumed_annotation,
}
use elastic_gpu_agent.Go.FilePath.{IsSegment, clean, join_path}
use elastic_gpu_agent.Go.Strings.{join, split}
use elastic_gpu_agent.Go.Sort.{strings}
use elastic_gpu_agent.Go.Hex.{encode_to_string, nibble}
use elastic_gpu_agent.Go.Sha256.{sum256}
use elastic_gpu_agent.Go.Strconv.{atoi, itoa, format_uint}
use elastic_gpu_agent.Types.Json.{IsAscii}
use elastic_gpu_agent.Types.Device.{hash, equals, new_device, device_equals}
use elastic_gpu_agent.Types.Pod.{key, val, new_pi, set_val}
use elastic_gpu_agent.Storage.{save, load, load_or_create}
use elastic_gpu_agent.Operator.Gpushare.{create, delete, gpu_path, sym_path, sym_ctl_path, is_exist}
use elastic_gpu_agent.Kube.Sitter.{Pod, PodSitter}
use elastic_gpu_agent.Kube.PodResources.{PodResources, ContainerResources, Kubelet}
use elastic_gpu_agent.Kube.Locator.{locate}
use elastic_gpu_agent.Plugins.Share.{share_id}
use elastic_gpu_agent.Plugins.PreStart.{
  find_assumed, parse_indexes, parse_index, create_all, delete_all, record_devices, pre_start_core,
  pre_start_memory,
}
use elastic_gpu_agent.System.{IsNamed}
use elastic_gpu_agent.System.Collided.{Collided, both_start-Collided}
use elastic_gpu_agent.Tests.Platform.{memory_files, memory_bolt, make_link, stat_entry}
use elastic_gpu_agent.Tests.Codec.{counted_json, write, read}
use elastic_gpu_agent.Tests.Kube.{unit}
use elastic_gpu_agent.Tests.Pods.{IsSegment-s, IsSegment-web}
use elastic_gpu_agent.Tests.Plugins.{World', idle}
use elastic_gpu_agent.Tests.System.{idle-IsSound, unit-IsAscii, member_All, only_of}

abbrev core_container : ContainerResources
core_container = record {
  name = codes "c";
  devices = record { resource_name = resource_gpu_core; device_ids = unit } ∷ [];
}

abbrev memory_container : ContainerResources
memory_container = record {
  name = codes "d";
  devices = record { resource_name = resource_gpu_memory; device_ids = unit } ∷ [];
}

abbrev pods : List PodResources
pods =
    record {
      name = codes "web";
      namespace = codes "s";
      containers = core_container ∷ memory_container ∷ [];
    }
    ∷ []

abbrev kubelet : Kubelet
kubelet = record { get_client = ok tt; list = ok pods }

abbrev pod : Pod
pod = record {
  namespace = codes "s";
  name = codes "web";
  annotations =
      (assumed_annotation, codes "true")
      ∷ (container_annotation (codes "c"), codes "0")
      ∷ (container_annotation (codes "d"), codes "1")
      ∷ [];
}

abbrev sitter : PodSitter
sitter = record { get_pod = λ s n. ok pod; get_pod_from_api_server = λ s n. ok pod }

abbrev cores : World'
cores = (pre_start_core memory_files memory_bolt counted_json kubelet sitter unit idle).1

abbrev memories : World'
memories = (pre_start_memory memory_files memory_bolt counted_json kubelet sitter unit cores).1

cores_run :
    pre_start_core memory_files memory_bolt counted_json kubelet sitter unit idle ≡ (ok tt, cores)
unfolding pre_start_core find_assumed locate text_eq device_equals new_device hash encode_to_string
    sum256 join strings lookup container_annotation parse_indexes split atoi create_all create clean
    join_path nibble format_uint itoa delete gpu_path is_exist sym_ctl_path sym_path delete_all
    record_devices share_id insert text_le load load_or_create save equals key new_pi val make_link
    stat_entry write read
cores_run = refl

memories_run :
    pre_start_memory memory_files memory_bolt counted_json kubelet sitter unit cores
    ≡ (ok tt, memories)
unfolding pre_start_core pre_start_memory find_assumed locate text_eq device_equals new_device hash
    encode_to_string sum256 join strings lookup container_annotation parse_indexes parse_index split
    atoi create_all create clean join_path nibble format_uint itoa delete gpu_path is_exist
    sym_ctl_path sym_path delete_all record_devices share_id insert text_le load load_or_create save
    equals key new_pi val make_link stat_entry write read set_val
memories_run = refl

kubelet-IsNamed : IsNamed kubelet
kubelet-IsNamed = record {
  namespaces = λ ps p e m. only_of pods (λ q. IsSegment q.namespace) ps p e m (IsSegment-s, tt);
  names = λ ps p e m. only_of pods (λ q. IsSegment q.name) ps p e m (IsSegment-web, tt);
  containers = λ ps p c e m n.
      member_All (λ (d : ContainerResources). IsAscii d.name) c p.containers n
        (only_of pods (λ q. All (λ (d : ContainerResources). IsAscii d.name) q.containers) ps p e m
          (((omega arith, tt), ((omega arith, tt), tt)), tt));
}

both_start-Collided_example :
    (cores.db ≡ idle.db)
    ⊎ (memories.db ≡ cores.db)
    ⊎ Collided memory_files memory_bolt counted_json kubelet sitter unit memories
unfolding lookup
both_start-Collided_example =
    both_start-Collided memory_files memory_bolt counted_json kubelet sitter unit idle cores
      memories idle-IsSound kubelet-IsNamed unit-IsAscii refl cores_run memories_run
