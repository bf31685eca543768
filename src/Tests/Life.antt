-- ===== src/Tests/Life.antt =====
-- The agent's life on a node with one GPU: it dumps its stacks once, and is then ended.
use elastic_gpu_agent.Prelude.{
  ◌≤◌, ◌≡◌, ◌++◌, refl, arith, true, false, Bool, ◌==◌, if◌then◌else◌, [], ◌∷◌, codes,
}
use elastic_gpu_agent.Common.Stacks.{doubled}
use elastic_gpu_agent.Plugins.Factory.{gpushare}
use elastic_gpu_agent.Manager.Run.{sitter_starts, polled, collector_runs, run_servers}
use elastic_gpu_agent.Manager.Main.{
  Signal, other_signal, Arrival, Life, sigterm, sigquit, sigusr1, main,
}
use elastic_gpu_agent.Manager.Main.Ends.{EndsBy, main-EndsBy}
use elastic_gpu_agent.Tests.Platform.{memory_bolt}
use elastic_gpu_agent.Tests.Common.{output, trace, short}
use elastic_gpu_agent.Tests.Agent.{make_dir, clients, started, informer, synced_third}

-- SIGQUIT comes before `main` waits, and then SIGUSR1 and SIGTERM.
abbrev too_early : Arrival
too_early = record {
  signal = sigquit;
  asked = true;
  awaited = false;
  trace = trace;
  now = codes "12:00";
}

abbrev dump : Arrival
dump = record { signal = sigusr1; asked = true; awaited = true; trace = trace; now = codes "12:01" }

-- SIGURG and the like are ignored, and every other signal ends the program.
abbrev default_ends : Signal → Bool
default_ends s = elim s [
  | sigterm ↦ true
  | sigquit ↦ true
  | sigusr1 ↦ false
  | other_signal n ↦ if n == 23 then false else true
]

abbrev urgent : Arrival
urgent = record {
  signal = other_signal 23;
  asked = false;
  awaited = false;
  trace = trace;
  now = codes "12:01";
}

abbrev term : Arrival
term = record { signal = sigterm; asked = true; awaited = true; trace = trace; now = codes "12:02" }

abbrev life : Life output default_ends
life =
    main output default_ends memory_bolt make_dir clients informer 3 (codes "node")
      (codes "meta.db") [] gpushare (too_early ∷ dump ∷ urgent ∷ term ∷ []) []

room_twice : 16384 ≤ doubled 1 16384
unfolding doubled
room_twice = omega arith

main-EndsBy_example :
    EndsBy output default_ends (too_early ∷ dump ∷ urgent ∷ []) sigterm [] life
    × (life.activities
        ≡ sitter_starts ∷ polled 2 ∷ run_servers started.0.plugin.servers ++ collector_runs ∷ [])
main-EndsBy_example =
    main-EndsBy output default_ends 1 16384 (omega arith) room_twice memory_bolt make_dir clients
      informer 2 (codes "node") (codes "meta.db") [] gpushare started.0
      (too_early ∷ dump ∷ urgent ∷ []) [] term [] started.1 synced_third (omega arith)
      (short, (short, (short, tt))) (refl, (refl, (refl, tt))) refl
