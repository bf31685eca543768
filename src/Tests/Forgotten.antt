-- ===== src/Tests/Forgotten.antt =====
-- A container with a unit of cores and a unit of memory, which both plugins start.
use elastic_gpu_agent.Prelude.{
  ◌≡◌, ◌≢◌, ◌⊎◌, inl, refl, sym, ap, ◌∙◌, true, false, List, [], ◌∷◌, Text, codes, ok, text_eq,
  lookup, Member, All, arith, insert,
}
use elastic_gpu_agent.Prelude.Order.{text_le}
use elastic_gpu_agent.Common.{resource_gpu_core, resource_gpu_memory, container_annotation}
use elastic_gpu_agent.Go.FilePath.{IsSegment, clean, join_path}
use elastic_gpu_agent.Go.Strings.{join, split}
use elastic_gpu_agent.Go.Sort.{strings}
use elastic_gpu_agent.Go.Hex.{encode_to_string, nibble}
use elastic_gpu_agent.Go.Sha256.{sum256}
use elastic_gpu_agent.Go.Strconv.{atoi, itoa, format_uint}
use elastic_gpu_agent.Types.Json.{IsAscii}
use elastic_gpu_agent.Types.Device.{hash, equals, new_device, device_equals}
use elastic_gpu_agent.Types.Pod.{key, val, new_pi, set_val, PodContainer}
use elastic_gpu_agent.Storage.{save, load, load_or_create}
use elastic_gpu_agent.Operator.Gpushare.{create, delete, gpu_path, sym_path, sym_ctl_path, is_exist}
use elastic_gpu_agent.Kube.Sitter.{PodSitter}
use elastic_gpu_agent.Kube.PodResources.{PodResources, ContainerResources, Kubelet}
use elastic_gpu_agent.Kube.Locator.{locate}
use elastic_gpu_agent.Kube.Locator.Search.{HeldBy, held}
use elastic_gpu_agent.Plugins.Share.{share_id}
use elastic_gpu_agent.Plugins.PreStart.{
  Assumed, find_assumed, parse_indexes, parse_index, create_all, delete_all, record_devices,
  pre_start_core, pre_start_memory,
}
use elastic_gpu_agent.Plugins.PreStart.Assignment.{IsAssigned}
use elastic_gpu_agent.Plugins.PreStart.Replacing.{IsUnlisted}
use elastic_gpu_agent.Plugins.PreStart.Shares.{of_share}
use elastic_gpu_agent.Plugins.Gc.{Event}
use elastic_gpu_agent.Plugins.Gc.Unlisted.{rounds}
use elastic_gpu_agent.System.{IsNamed}
use elastic_gpu_agent.System.Forgotten.{both_start-IsForgotten}
use elastic_gpu_agent.Tests.Platform.{memory_files, memory_bolt, make_link, stat_entry}
use elastic_gpu_agent.Tests.Codec.{counted_json, write, read}
use elastic_gpu_agent.Tests.Kube.{unit}
use elastic_gpu_agent.Tests.Pods.{IsSegment-s, IsSegment-web}
use elastic_gpu_agent.Tests.Plugins.{World', idle, sitter}
use elastic_gpu_agent.Tests.System.{idle-IsSound, unit-IsAscii, member_All, only_of}

abbrev memory_unit : List Text
memory_unit = codes "0-07" ∷ []

abbrev both : ContainerResources
both = record {
  name = codes "c";
  devices =
      record { resource_name = resource_gpu_core; device_ids = unit }
      ∷ record { resource_name = resource_gpu_memory; device_ids = memory_unit }
      ∷ [];
}

abbrev pods : List PodResources
pods = record { name = codes "web"; namespace = codes "s"; containers = both ∷ [] } ∷ []

abbrev kubelet : Kubelet
kubelet = record { get_client = ok tt; list = ok pods }

abbrev cores : World'
cores = (pre_start_core memory_files memory_bolt counted_json kubelet sitter unit idle).1

abbrev memories : World'
memories =
    (pre_start_memory memory_files memory_bolt counted_json kubelet sitter memory_unit cores).1

abbrev path : Text
path = sym_path (share_id (new_device unit resource_gpu_core).hash 0)

cores_run :
    pre_start_core memory_files memory_bolt counted_json kubelet sitter unit idle ≡ (ok tt, cores)
unfolding pre_start_core find_assumed locate text_eq device_equals new_device hash encode_to_string
    sum256 join strings lookup container_annotation parse_indexes split atoi create_all create clean
    join_path nibble format_uint itoa delete gpu_path is_exist sym_ctl_path sym_path delete_all
    record_devices share_id insert text_le load load_or_create save equals key new_pi val make_link
    stat_entry write read
cores_run = refl

memories_run :
    pre_start_memory memory_files memory_bolt counted_json kubelet sitter memory_unit cores
    ≡ (ok tt, memories)
unfolding pre_start_core pre_start_memory find_assumed locate text_eq device_equals new_device hash
    encode_to_string sum256 join strings lookup container_annotation parse_indexes parse_index split
    atoi create_all create clean join_path nibble format_uint itoa delete gpu_path is_exist
    sym_ctl_path sym_path delete_all record_devices share_id insert text_le load load_or_create save
    equals key new_pi val make_link stat_entry write read set_val
memories_run = refl

kubelet-IsNamed : IsNamed kubelet
kubelet-IsNamed = record {
  namespaces = λ ps p e m. only_of pods (λ q. IsSegment q.namespace) ps p e m (IsSegment-s, tt);
  names = λ ps p e m. only_of pods (λ q. IsSegment q.name) ps p e m (IsSegment-web, tt);
  containers = λ ps p c e m n.
      member_All (λ (d : ContainerResources). IsAscii d.name) c p.containers n
        (only_of pods (λ q. All (λ (d : ContainerResources). IsAscii d.name) q.containers) ps p e m
          (((omega arith, tt), tt), tt));
}

abbrev the_container : PodContainer
the_container = record { namespace = codes "s"; name = codes "web"; container = codes "c" }

-- The kubelet lists one container.
one_container :
    (resource : Text) (ids : List Text) (a : Assumed)
    → IsAssigned kubelet sitter resource ids a
    → a.curr ≡ the_container
one_container resource ids a g = go g.held
  where
    go : HeldBy resource ids g.pods a.curr → a.curr ≡ the_container
    go (held pod c mp mc h e) =
        e
        ∙ only_of pods
            (λ (q : PodResources).
              (d : ContainerResources)
              → Member d q.containers
              → ◌≡◌ {A = PodContainer}
                  (record { namespace = q.namespace; name = q.name; container = d.name })
                  the_container)
            g.pods pod g.listed mp
            (
              λ d k.
                  member_All
                    (λ (d : ContainerResources).
                      ◌≡◌ {A = PodContainer}
                        (record { namespace = codes "s"; name = codes "web"; container = d.name })
                        the_container)
                    d (both ∷ []) k (refl, tt),
              tt,
            )
            c mc

hashes_differ :
    (new_device unit resource_gpu_core).hash ≢ (new_device memory_unit resource_gpu_memory).hash
unfolding text_eq new_device hash encode_to_string sum256 join strings nibble
hashes_differ e =
    let differ : true ≡ false = ap (λ t. text_eq (new_device unit resource_gpu_core).hash t) e in
    cc (differ)

nothing_listed : IsUnlisted memory_bolt counted_json path idle.db
unfolding load lookup
nothing_listed p m c d h e f k l = absurd (cc (e))

both_start-IsForgotten_example :
    (cores.db ≡ idle.db)
    ⊎ (memories.db ≡ cores.db)
    ⊎ ((events : List (PodSitter × Event))
        → lookup path (rounds memory_files memory_bolt counted_json events memories).fs
          ≡ lookup path cores.fs)
both_start-IsForgotten_example =
    both_start-IsForgotten memory_files memory_bolt counted_json kubelet sitter unit memory_unit
      idle cores memories path idle-IsSound kubelet-IsNamed unit-IsAscii (omega arith)
      (λ a b g h.
        one_container resource_gpu_core unit a g
        ∙ sym (one_container resource_gpu_memory memory_unit b h))
      hashes_differ nothing_listed (of_share 0 (inl refl)) cores_run memories_run
