-- ===== src/Manager/Main/Ends.antt =====
-- How long the agent lives.
use elastic_gpu_agent.Prelude.{
  ℕ, suc, ◌<◌, ◌≤◌, ◌≡◌, refl, sym, ap, subst, Bool, true, false, ◌&&◌, Option, List, [], ◌∷◌, ◌++◌,
  arith, Text, codes, length, All, if◌then◌else◌, Result, ok,
}
use elastic_gpu_agent.Common.Stacks.{Output, write_stacks, doubled, dump_stacks-doubled}
use elastic_gpu_agent.Storage.Bolt.{BoltDb}
use elastic_gpu_agent.Manager.{Clients, Manager, new_gpu_manager, main_options}
use elastic_gpu_agent.Manager.Run.{
  sitter_starts, polled, collector_runs, run_servers, IsFirst, run_lem,
}
use elastic_gpu_agent.Manager.Main.{
  Signal, sigterm, sigquit, sigusr1, other_signal, notifies, asked_for, by_default, received,
  Arrival, ended, Life, signals, dump_one, after_run, main,
}

abbrev is_exit : Signal → Bool
is_exit sigterm = true
is_exit sigquit = true
is_exit sigusr1 = false
is_exit (other_signal n) = false

abbrev is_dump : Signal → Bool
is_dump sigterm = false
is_dump sigquit = false
is_dump sigusr1 = true
is_dump (other_signal n) = false

-- A signal that ends the program: `main` receives it, or it was not asked for and its default action
-- does.
abbrev pub ends_main : (Signal → Bool) → Arrival → Bool
ends_main default_ends a =
    if a.asked && notifies a.signal then a.awaited && is_exit a.signal else default_ends a.signal

-- A signal that `DumpSignal` receives.
abbrev pub dumps : Arrival → Bool
dumps a = a.asked && a.awaited && is_dump a.signal

-- No trace is as long as a bound.
abbrev pub IsShort : ℕ → Arrival → Type 0
IsShort bound a = (i : ℕ) → length (a.trace i) < bound

module _ (output : Output) (default_ends : Signal → Bool) where
  open output use {State}

  -- What the received signals of a list do: a whole trace is written for each that is received by
  -- `DumpSignal`, in their order, and each result is kept.
  pub data Dumped : List Arrival → State → List (Result Text) → State → Type 0 where
    none_left : {s : State} → Dumped [] s [] s
    one_dump :
        {a : Arrival} {as_ : List Arrival} {s t : State} {rs : List (Result Text)} (i : ℕ)
        → dumps a ≡ true
        → Dumped as_ (write_stacks output (codes "/var/log") a.now (a.trace i) s).1 rs t
        → Dumped (a ∷ as_) s ((write_stacks output (codes "/var/log") a.now (a.trace i) s).0 ∷ rs) t
    no_dump :
        {a : Arrival} {as_ : List Arrival} {s t : State} {rs : List (Result Text)}
        → dumps a ≡ false
        → Dumped as_ s rs t
        → Dumped (a ∷ as_) s rs t

  -- How a life ends: by the signal, with the dumps of the signals before it.
  pub record EndsBy (before : List Arrival) (signal : Signal) (s : State)
      (life : Life output default_ends) : Type 0 where
    pub end : life.end ≡ ended signal
    pub dumped : Dumped before s life.dumps life.state

  module _ (n bound : ℕ) (top : bound ≤ 2305843009213693952)
      (enough : bound ≤ doubled n 16384) where
    received_EndsBy :
        (b : Arrival) (before : List Arrival) (signal : Signal)
        (rest : State → Life output default_ends) (s : State)
        → IsShort bound b
        → ends_main default_ends b ≡ false
        → ((t : State) → EndsBy before signal t (rest t))
        → EndsBy (b ∷ before) signal s (
            if b.asked && notifies b.signal
            then asked_for output default_ends (suc (suc n)) b rest s
            else by_default output default_ends (default_ends b.signal) b.signal rest s)
    unfolding asked_for by_default received dump_one
    received_EndsBy b before signal rest s short harmless h =
        go b.asked b.awaited b.signal (default_ends b.signal) refl refl refl refl
      where
        unreceived : dumps b ≡ false → EndsBy (b ∷ before) signal s (rest s)
        unreceived e = record { end = (h s).end; dumped = no_dump e (h s).dumped }

        go :
            (k w : Bool) (g : Signal) (d : Bool)
            → b.asked ≡ k
            → b.awaited ≡ w
            → b.signal ≡ g
            → default_ends b.signal ≡ d
            → EndsBy (b ∷ before) signal s (
                if k && notifies g
                then (if w then received output default_ends (suc (suc n)) b g rest s else rest s)
                else by_default output default_ends d g rest s)
        go false w g true ek ew eg ed = absurd (ground (arith, ek, ed, harmless))
        go false w g false ek ew eg ed = unreceived (ground (arith, ek))
        go true w (other_signal z) true ek ew eg ed = absurd (cc (rw (ek, eg) at harmless, ed, eg))
        go true w (other_signal z) false ek ew eg ed = unreceived (rw (ek, eg) (ground arith))
        go true false sigterm d ek ew eg ed = unreceived (ground (arith, ew))
        go true false sigquit d ek ew eg ed = unreceived (ground (arith, ew))
        go true false sigusr1 d ek ew eg ed = unreceived (ground (arith, ew))
        go true true sigterm d ek ew eg ed = absurd (cc (rw (ek, ew, eg) at harmless))
        go true true sigquit d ek ew eg ed = absurd (cc (rw (ek, ew, eg) at harmless))
        go true true sigusr1 d ek ew eg ed =
            let (i, made) =
              dump_stacks-doubled output b.trace n bound (codes "/var/log") b.now s short top
                enough in
            let t = (write_stacks output (codes "/var/log") b.now (b.trace i) s).1 in
            subst (λ o. EndsBy (b ∷ before) signal s (dump_one output default_ends o rest s))
              (sym made)
              (record { end = (h t).end; dumped = one_dump i (rw (ek, ew, eg) refl) (h t).dumped })

    signals-EndsBy :
        (before after : List Arrival) (a : Arrival) (s : State)
        → All (IsShort bound) before
        → All (λ b. ends_main default_ends b ≡ false) before
        → ends_main default_ends a ≡ true
        → EndsBy before a.signal s
            (signals output default_ends (suc (suc n)) (before ++ a ∷ after) s)
    unfolding signals asked_for by_default received
    signals-EndsBy [] after a s short harmless e =
        go a.asked a.awaited a.signal (default_ends a.signal) refl refl refl refl
      where
        go :
            (k w : Bool) (g : Signal) (d : Bool)
            → a.asked ≡ k
            → a.awaited ≡ w
            → a.signal ≡ g
            → default_ends a.signal ≡ d
            → EndsBy [] a.signal s (
                if k && notifies g
                then (if w
                    then received output default_ends
                        (suc (suc n))
                        a
                        g
                        (signals output default_ends (suc (suc n)) after)
                        s
                    else signals output default_ends (suc (suc n)) after s)
                else by_default output default_ends d g
                    (signals output default_ends (suc (suc n)) after)
                    s)
        go false w g false ek ew eg ed = absurd (ground (arith, ek, ed, e))
        go false w g true ek ew eg ed = record { end = ap ended (sym eg); dumped = none_left }
        go true w (other_signal z) true ek ew eg ed = record {
          end = ap ended (sym eg);
          dumped = none_left;
        }
        go true w (other_signal z) false ek ew eg ed = absurd (cc (rw (ek, eg) at e, ed, eg))
        go true false sigterm d ek ew eg ed = absurd (ground (arith, ek, ew, eg, e))
        go true false sigquit d ek ew eg ed = absurd (ground (arith, ek, ew, eg, e))
        go true false sigusr1 d ek ew eg ed = absurd (ground (arith, ek, ew, eg, e))
        go true true sigterm d ek ew eg ed = record { end = ap ended (sym eg); dumped = none_left }
        go true true sigquit d ek ew eg ed = record { end = ap ended (sym eg); dumped = none_left }
        go true true sigusr1 d ek ew eg ed = absurd (cc (rw (ek, ew, eg) at e))
    signals-EndsBy (b ∷ before) after a s short harmless e =
        received_EndsBy b before a.signal
          (signals output default_ends (suc (suc n)) (before ++ a ∷ after)) s short.0 harmless.0
          (λ t. signals-EndsBy before after a t short.1 harmless.1 e)

    module _ (bolt : BoltDb) (mkdir_all : Text → Result (Unit {0})) (clients : Clients)
        (informer : ℕ → Option Bool) where
      -- The life of the agent. If `NewGPUManager` returns a manager for the flags, the sitter has
      -- synced at the `k`-th poll and at none before, and the polls and the doublings of the dumps'
      -- buffer are within the fuel, then `main` starts the sitter, polls up to the `k`-th, and then
      -- starts the servers and the collector. Of the signals that arrive after that, it ends with the
      -- first that ends it: a SIGTERM or SIGQUIT that arrives while `main` waits for it, or one whose
      -- default action ends the program and that the agent does not ask for, or has not yet asked for.
      -- One that it asks for and that nobody waits for is lost, and for each SIGUSR1 that is received
      -- before the end a whole trace of the stacks is written, whatever such a dump returns. A dump
      -- ends before the next signal that is received.
      pub main-EndsBy :
          (k : ℕ) (node dbfile kubeconf name : Text) (manager : Manager bolt mkdir_all clients)
          (before after : List Arrival) (a : Arrival) (s : State)
          → new_gpu_manager bolt mkdir_all clients (main_options node dbfile kubeconf name)
            ≡ ok manager
          → IsFirst informer k
          → k < suc (suc n)
          → All (IsShort bound) before
          → All (λ b. ends_main default_ends b ≡ false) before
          → ends_main default_ends a ≡ true
          → EndsBy before a.signal s (
              main output default_ends bolt mkdir_all clients informer
                (suc (suc n))
                node
                dbfile
                kubeconf
                name
                (before ++ a ∷ after)
                s)
            × ((main output default_ends bolt mkdir_all clients informer
                  (suc (suc n))
                  node
                  dbfile
                  kubeconf
                  name
                  (before ++ a ∷ after)
                  s).activities
                ≡ sitter_starts ∷ polled k ∷ run_servers manager.plugin.servers
                  ++ collector_runs ∷ [])
      unfolding main after_run
      main-EndsBy k node dbfile kubeconf name manager before after a s made first fits short
            harmless e =
          let lived = signals-EndsBy before after a s short harmless e in
          rw (made, (run_lem informer manager.plugin.servers k (suc (suc n)) first).0 fits)
            (record { end = lived.end; dumped = lived.dumped }, refl)
