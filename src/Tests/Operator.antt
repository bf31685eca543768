-- ===== src/Tests/Operator.antt =====
-- Shares on a file system in memory, and an NVML with two GPUs.
use elastic_gpu_agent.Prelude.{
  ℕ, ◌≡◌, refl, pos, Option, none, [], Text, codes, lookup, ok, map, range_from, insert, erase,
  text_eq,
}
use elastic_gpu_agent.Prelude.Order.{text_le}
use elastic_gpu_agent.Operator.FileSystem.{Entry}
use elastic_gpu_agent.Operator.Gpushare.{create, delete, sym_path, sym_ctl_path}
use elastic_gpu_agent.Operator.Gpushare.Links.{Created, create-Created}
use elastic_gpu_agent.Operator.Gpushare.Removal.{Deleted, delete-Deleted, delete-create}
use elastic_gpu_agent.Operator.Nvml.{Nvml, success, describe, devices}
use elastic_gpu_agent.Operator.Nvml.Listing.{handle_at, devices_of_Answers}
use elastic_gpu_agent.Tests.Platform.{memory_files, Disk, make_link, drop_entry, stat_entry}

abbrev id : Text
id = codes "0a1b2c3d-0"

abbrev created : Disk
created = (create memory_files (pos 0) id []).1

abbrev removed : Disk
removed = (delete memory_files (pos 1) id created).1

creates : create memory_files (pos 0) id [] ≡ (ok tt, created)
unfolding create make_link stat_entry lookup insert text_eq sym_path sym_ctl_path
creates = refl

deletes : delete memory_files (pos 1) id created ≡ (ok tt, removed)
unfolding create delete make_link stat_entry drop_entry lookup insert text_eq sym_path sym_ctl_path
    text_le erase
deletes = refl

create-Created_example : Created memory_files (pos 0) id [] (create memory_files (pos 0) id [])
create-Created_example = create-Created memory_files (pos 0) id []

delete-Deleted_example : Deleted memory_files id created (delete memory_files (pos 1) id created)
delete-Deleted_example = delete-Deleted memory_files (pos 1) id created

absent : (p : Text) → ◌≡◌ {A = Option Entry} (lookup p []) none
unfolding lookup
absent p = refl

delete-create_example : lookup (codes "/dev/null") removed ≡ lookup (codes "/dev/null") []
delete-create_example =
    delete-create memory_files (pos 0) (pos 1) id (codes "/dev/null") [] created removed (absent _)
      (absent _) creates deletes

abbrev two_gpus : Nvml
two_gpus = record {
  Handle = ℕ;
  init = success;
  shutdown = success;
  device_get_count = (2, success);
  device_get_handle_by_index = λ i. (i, success);
  get_uuid = λ h. (codes "GPU", success);
  get_index = λ h. (pos h, success);
  get_memory_info = λ h. (1073741824, success);
}

devices_of_Answers_example :
    devices two_gpus ≡ (map (describe two_gpus) (map (handle_at two_gpus) (range_from 0 2)), none)
devices_of_Answers_example =
    devices_of_Answers two_gpus 2
      (record { starts = refl; stops = refl; counts = refl; has_handles = (refl, (refl, tt)) })
