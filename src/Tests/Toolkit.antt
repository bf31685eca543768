-- ===== src/Tests/Toolkit.antt =====
-- The hook, started for the container that the agent has started.
use elastic_gpu_agent.Prelude.{
  ◌≡◌, ◌⊎◌, refl, sym, ◌∙◌, arith, true, some, List, [], ◌∷◌, Text, codes, Dict, lookup, text_eq,
  map, ok, ℤ,
}
use elastic_gpu_agent.Common.{resource_gpu_core}
use elastic_gpu_agent.Plugins.PreStart.{Assumed, parse_indexes}
use elastic_gpu_agent.Plugins.PreStart.Assignment.{IsAssigned}
use elastic_gpu_agent.Plugins.Allocate.Order.{core-Mounts}
use elastic_gpu_agent.Hook.Choice.{env_of}
use elastic_gpu_agent.Hook.Shares.{dir_entry}
use elastic_gpu_agent.Hook.Process.{Host, IsStartedFor}
use elastic_gpu_agent.System.Hooked.{IsUnsaved}
use elastic_gpu_agent.System.Toolkit.{RanWith, allocate_core-main}
use elastic_gpu_agent.Tests.Platform.{memory_files, memory_bolt}
use elastic_gpu_agent.Tests.Codec.{counted_json}
use elastic_gpu_agent.Tests.Kube.{unit, kubelet}
use elastic_gpu_agent.Tests.Plugins.{idle, sitter, core_started, core_runs, requests}
use elastic_gpu_agent.Tests.Hooked.{gpu_hash, nodes, readlink, no_links, dev_Mirrors}
use elastic_gpu_agent.Tests.System.{core_answer, same_ids}

abbrev env : Dict Text
env = (codes "GPU", gpu_hash) ∷ []

abbrev host : Host
host = record {
  open_log = ok tt;
  read_stdin = ok (codes "{}");
  bundle_of = λ buf. some (codes "/run/bundle");
  read_spec =
      λ path. some (record { version = codes "1.0.2"; env = some (env_of env); has_root = true });
  readlink = readlink;
  read_dev = ok (map dir_entry nodes);
  stdin_pipe = ok tt;
  combined_output = λ run. ok [];
}

host-IsStartedFor : IsStartedFor host env (codes "{}")
unfolding text_eq
host-IsStartedFor = record {
  log = refl;
  stdin = refl;
  bundle = codes "/run/bundle";
  has_bundle = refl;
  version = codes "1.0.2";
  has_version = refl;
  spec = refl;
  names = (omega arith, tt);
  pipe = refl;
}

env_gpu : lookup (codes "GPU") env ≡ some gpu_hash
unfolding lookup text_eq
env_gpu = refl

allocate_core-main_example :
    (a : Assumed) × (indexes : List ℤ) × IsAssigned kubelet sitter resource_gpu_core unit a
    × (parse_indexes a.assumed ≡ ok indexes)
    × (RanWith host (codes "{}") indexes
        ⊎ IsUnsaved memory_bolt counted_json unit a.curr idle.db core_started.db)
allocate_core-main_example =
    allocate_core-main memory_files memory_bolt counted_json kubelet sitter requests unit
      core_answer.0 host env (codes "{}") nodes idle core_started refl same_ids core_answer.1
      core_runs no_links dev_Mirrors refl host-IsStartedFor
      (env_gpu ∙ sym (core-Mounts requests unit core_answer.0 same_ids core_answer.1).gpu)
