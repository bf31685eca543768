-- ===== src/Tests/Collector.antt =====
-- The collector on a node where the links of a gone pod stand.
use elastic_gpu_agent.Prelude.{
  zero, suc, ◌+◌, ◌<◌, insert, ℕ, ◌≡◌, ◌≢◌, refl, sym, subst, arith, Option, none, some, [], ◌∷◌,
  Text, codes, true, ok, lookup, first, text_eq,
}
use elastic_gpu_agent.Prelude.Order.{text_le}
use elastic_gpu_agent.Go.FilePath.{join_path}
use elastic_gpu_agent.Go.Strings.{join, split}
use elastic_gpu_agent.Go.Strconv.{itoa, format_uint}
use elastic_gpu_agent.Types.Pod.{key, val, new_pi_from_raw}
use elastic_gpu_agent.Storage.{load, save, for_each}
use elastic_gpu_agent.Storage.Records.{load-save}
use elastic_gpu_agent.Operator.FileSystem.{Entry, link}
use elastic_gpu_agent.Operator.Gpushare.{sym_path, sym_ctl_path}
use elastic_gpu_agent.Operator.Gpushare.Removal.{IsPresent, IsRemovable}
use elastic_gpu_agent.Plugins.Share.{share_id}
use elastic_gpu_agent.Plugins.Allocate.{core_shares}
use elastic_gpu_agent.Plugins.Gc.{lines_of_map, timer, starts, is_gone, gc, collect}
use elastic_gpu_agent.Plugins.Gc.Lines.{line_of}
use elastic_gpu_agent.Plugins.Gc.Completion.{IsDroppable, AreIntact}
use elastic_gpu_agent.Plugins.Gc.Progress.{lines_in, IsCollected, gc-IsCollected}
use elastic_gpu_agent.Tests.Platform.{first_entries, Disk, memory_files, memory_bolt, drop_entry}
use elastic_gpu_agent.Tests.Codec.{
  counted_json, write, read, read_entries, read_text, read_device, write_entries, read_list,
  write_text, read_bytes, write_device, read_texts, write_texts,
}
use elastic_gpu_agent.Tests.Pods.{
  IsSegment-s, IsSegment-job, save-job, one_pod, device, job, job-IsValid, two_pods,
  two_pods-IsStore,
}
use elastic_gpu_agent.Tests.Plugins.{World', idle, after_job}

-- The links of the device that both records list.
abbrev pub linked : World'
linked = record idle {
  fs =
      (codes "/host/dev/elastic-gpu-0a1b2c3d-0", link (codes "/dev/nvidia0"))
      ∷ (codes "/host/dev/elastic-gpuctl-0a1b2c3d-0", link (codes "/dev/nvidiactl"))
      ∷ [];
  db = two_pods;
}

drop_entry-ok :
    (o : Option Entry) (s : Disk) (p : Text) → o ≢ none → (s' : Disk) × (drop_entry o s p ≡ ok s')
unfolding drop_entry
drop_entry-ok none s p h = absurd (h refl)
drop_entry-ok (some e) s p h = (_, refl)

pub files-IsRemovable : IsRemovable memory_files
files-IsRemovable s p h = drop_entry-ok (lookup p s) s p h

pub bolt-IsDroppable : IsDroppable memory_bolt
bolt-IsDroppable db k = (_, refl)

starts-timer : starts timer ≡ true
unfolding starts
starts-timer = refl

pub job_gone : is_gone after_job (codes "s") (codes "job") ≡ true
unfolding is_gone text_eq
job_gone = refl

pub job_loads : load memory_bolt counted_json (codes "s") (codes "job") linked.db ≡ ok job
unfolding text_eq
job_loads =
    load-save memory_bolt counted_json job (codes "s") (codes "job") one_pod two_pods job-IsValid
      IsSegment-s IsSegment-job save-job

pub one_line :
    lines_in memory_files memory_bolt counted_json after_job linked
    ≡ line_of job (codes "c") device ∷ []
unfolding for_each collect is_gone text_eq key val new_pi_from_raw write read first_entries save
    insert join_path join split text_le lines_of_map read_entries read_text read_device
    write_entries read_list write_text read_bytes write_device read_texts write_texts
one_line = refl

job-IsPresent :
    (k : ℕ) → k < 1 → IsPresent memory_files (share_id (codes "0a1b2c3d") (0 + k)) linked.fs
unfolding sym_path sym_ctl_path share_id itoa format_uint lookup text_eq
job-IsPresent zero h = (λ e. cc, λ e. cc)
job-IsPresent (suc k) h = absurd (omega (arith, h))

pub intact :
    AreIntact memory_files memory_bolt counted_json (line_of job (codes "c") device ∷ []) linked.fs
unfolding core_shares text_eq
intact = record { present = (job-IsPresent, tt); dashless = (omega arith, tt); distinct = (tt, tt) }

gc-IsCollected_example :
    IsCollected memory_files memory_bolt counted_json job
      (codes "c")
      device
      (gc memory_files memory_bolt counted_json after_job timer linked)
gc-IsCollected_example =
    gc-IsCollected memory_files memory_bolt counted_json after_job timer linked job
      ((codes "c", device) ∷ []) (codes "c") device starts-timer two_pods-IsStore files-IsRemovable
      bolt-IsDroppable
      (subst (λ ls. AreIntact memory_files memory_bolt counted_json ls linked.fs) (sym one_line)
        intact)
      job-IsValid job_loads job_gone refl first
