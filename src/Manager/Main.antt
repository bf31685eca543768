-- ===== src/Manager/Main.antt =====
-- The agent's `main` (cmd/main.go), with `ExitSignal` and `DumpSignal` (pkg/common/util.go).
pub mod Ends
use elastic_gpu_agent.Prelude.{
  ℕ, suc, ◌+◌, ◌<◌, ◌≤◌, ◌≡◌, ◌⊎◌, inl, inr, refl, ap, ◌∙◌, Bool, true, false, ◌&&◌, Option, none,
  some, List, [], ◌∷◌, ◌++◌, arith, Text, codes, length, All, if◌then◌else◌, Result, ok, err, Error,
  Dict,
}
use elastic_gpu_agent.Common.Stacks.{
  Output, dump_stacks, write_stacks, doubled, dump_stacks-doubled,
}
use elastic_gpu_agent.Storage.Bolt.{BoltDb}
use elastic_gpu_agent.Plugins.Factory.{PluginServer}
use elastic_gpu_agent.Manager.{Clients, Manager, new_gpu_manager, main_options}
use elastic_gpu_agent.Manager.Run.{
  Activity, sitter_starts, polled, collector_runs, run_servers, run, IsFirst, run_lem,
}

-- The signals that the agent asks for with `signal.Notify`, and any other, by its number.
pub data Signal : Type 0 where
  sigterm : Signal
  sigquit : Signal
  sigusr1 : Signal
  other_signal : ℕ → Signal

-- A signal arrives after `Run` has returned. `asked` says whether the `signal.Notify` for it, if there is
-- one, was called before; if not, the default action of Go's runtime is taken. The channels have no
-- buffer, so that a signal that was asked for is lost unless its receiver waits at that time. `trace` and
-- `now` are what a dump would find; a dump ends before the next signal arrives that is received.
pub record Arrival : Type 0 where
  pub signal : Signal
  pub asked : Bool
  pub awaited : Bool
  pub trace : ℕ → Text
  pub now : Text

-- The signals that `ExitSignal` and `DumpSignal` ask for.
abbrev pub notifies : Signal → Bool
notifies sigterm = true
notifies sigquit = true
notifies sigusr1 = true
notifies (other_signal n) = false

-- How the agent stands: it waits for a signal, it was ended by one, a dump has panicked, the start
-- failed, or the sitter has not synced yet.
pub data End : Type 0 where
  waits : End
  ended : Signal → End
  panicked : End
  fatal : Error → End
  polls : End

-- `default_ends` is the default action of Go's runtime for a signal that the program did not ask for
-- (package os/signal): whether it ends the program.
module _ (output : Output) (default_ends : Signal → Bool) where
  open output use {State}

  -- What was started, how it stands, and what the dumps returned.
  pub record Life : Type 0 where
    pub activities : List Activity
    pub end : End
    pub dumps : List (Result Text)
    pub state : State

  -- the stacks of one signal, and then the rest; the error of a dump is logged
  dump_one : Option (Result Text × State) → (State → Life) → State → Life
  dump_one none rest s = record { activities = []; end = panicked; dumps = []; state = s }
  dump_one (some (r, s')) rest s = let life = rest s' in record life { dumps = r ∷ life.dumps }

  -- `DumpSignal` and the receive from `ExitSignal`
  received : ℕ → Arrival → Signal → (State → Life) → State → Life
  unfolding dump_one
  received fuel a sigterm rest s = record {
    activities = [];
    end = ended sigterm;
    dumps = [];
    state = s;
  }
  received fuel a sigquit rest s = record {
    activities = [];
    end = ended sigquit;
    dumps = [];
    state = s;
  }
  received fuel a (other_signal k) rest s = rest s
  received fuel a sigusr1 rest s =
      dump_one (dump_stacks output a.trace fuel (codes "/var/log") a.now s) rest s

  -- A signal that was asked for: it is received or lost.
  asked_for : ℕ → Arrival → (State → Life) → State → Life
  unfolding received
  asked_for fuel a rest s = if a.awaited then received fuel a a.signal rest s else rest s

  -- The default action: it ends the program, or the signal is ignored.
  by_default : Bool → Signal → (State → Life) → State → Life
  by_default true signal rest s = record {
    activities = [];
    end = ended signal;
    dumps = [];
    state = s;
  }
  by_default false signal rest s = rest s

  unfoldable pub signals : ℕ → List Arrival → State → Life
  unfolding asked_for by_default
  signals fuel [] s = record { activities = []; end = waits; dumps = []; state = s }
  signals fuel (a ∷ as_) s =
      let rest = signals fuel as_ in
      if a.asked && notifies a.signal
      then asked_for fuel a rest s
      else by_default (default_ends a.signal) a.signal rest s

  after_run : ℕ → List Arrival → Option (List Activity) → State → Life
  unfolding signals
  after_run fuel arrivals none s = record { activities = []; end = polls; dumps = []; state = s }
  after_run fuel arrivals (some activities) s = record (signals fuel arrivals s) {
    activities = activities;
  }

  module _ (bolt : BoltDb) (mkdir_all : Text → Result (Unit {0})) (clients : Clients)
      (informer : ℕ → Option Bool) where
    with_manager : ℕ → List Arrival → Result (Manager bolt mkdir_all clients) → State → Life
    unfolding after_run
    with_manager fuel arrivals (err e) s = record {
      activities = [];
      end = fatal e;
      dumps = [];
      state = s;
    }
    with_manager fuel arrivals (ok manager) s =
        after_run fuel arrivals (run informer manager.plugin.servers fuel) s

    -- `main`, of its four flags. `fuel` bounds the polls and the calls of `runtime.Stack`.
    unfoldable pub main : ℕ → Text → Text → Text → Text → List Arrival → State → Life
    unfolding with_manager
    main fuel node dbfile kubeconf name arrivals s =
        with_manager fuel arrivals
          (new_gpu_manager bolt mkdir_all clients (main_options node dbfile kubeconf name)) s
