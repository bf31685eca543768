-- ===== src/System/Threads/Interleaved.antt =====
-- Handlers of the two plugins and the collector that take turns.
use elastic_gpu_agent.Prelude.{
  ℕ, zero, suc, ◌+◌, ◌≤◌, ◌≡◌, ◌⊎◌, inl, inr, refl, Option, none, some, List, [], ◌∷◌, arith, Dict,
  Result, ok, err, ℤ,
}
use elastic_gpu_agent.Go.FilePath.{IsSegment}
use elastic_gpu_agent.Types.Json.{Json, IsAscii, IsPlainDevice}
use elastic_gpu_agent.Types.Pod.{PodInfo}
use elastic_gpu_agent.Types.Pod.RoundTrip.{IsValid}
use elastic_gpu_agent.Storage.{save, load_or_create}
use elastic_gpu_agent.Storage.Bolt.{BoltDb}
use elastic_gpu_agent.Storage.Iteration.{IsStore}
use elastic_gpu_agent.Operator.FileSystem.{Files}
use elastic_gpu_agent.Operator.Gpushare.{create}
use elastic_gpu_agent.Plugins.Share.{share_id}
use elastic_gpu_agent.Plugins.PreStart.Record.{Writes-of, Writes-IsValid}
use elastic_gpu_agent.System.{
  Agent, Actions, rest, then_, makes_share, removes_share, saves_record, drops_record, IsSound,
}
use elastic_gpu_agent.System.Safety.{Actions-IsSound}
use elastic_gpu_agent.Kube.Sitter.{PodSitter}
use elastic_gpu_agent.Plugins.Gc.{Event}
use elastic_gpu_agent.Common.{useless_number}
use elastic_gpu_agent.Operator.Gpushare
use elastic_gpu_agent.System.Threads.{
  Job, Thread, making, loading, saving, undoing, returned, calls_left, after_create, after_load,
  after_save, move, Pair, Woven, start, core_next, memory_next, collector_next, Sweep, resting,
  sweeping, clearing, dropping, sweep, after_first_share, after_share,
}

-- A job with names and devices that can be recorded.
pub record IsFitJob (j : Job) : Type 0 where
  pub namespace : IsSegment j.curr.namespace
  pub name : IsSegment j.curr.name
  pub container : IsAscii j.curr.container
  pub devices : IsPlainDevice j.devices

-- A handler with such a job; the record that it has to save is that of a valid pod.
abbrev pub IsFitThread : Thread → Type 0
IsFitThread (making j i ids) = IsFitJob j
IsFitThread (loading j) = IsFitJob j
IsFitThread (saving j p) = IsValid p
IsFitThread (undoing j i ids) = Unit
IsFitThread (returned r) = Unit

module _ (files : Files) (bolt : BoltDb) (json : Json) where
  open files use {entry}

  -- A call of a handler is at most one action of the agent, and leaves a fit handler.
  abbrev Goes : Agent files bolt json → Thread × Agent files bolt json → Type 0
  Goes w x = IsFitThread x.0 × Actions files bolt json w x.1

  create-Goes :
      (j : Job) (i : ℕ) (id : ℤ) (ids : List ℤ) (w : Agent files bolt json)
      → IsFitJob j
      → Goes w (
          after_create files bolt json j i ids (create files id (share_id j.devices.hash i) w.fs) w)
  unfolding after_create
  create-Goes j i id ids w h =
      go (create files id (share_id j.devices.hash i) w.fs)
        (then_ rest (makes_share id j.devices.hash i))
    where
      go :
          (r : Result (Unit {0}) × files.State)
          → Actions files bolt json w (record w { fs = r.1 })
          → Goes w (after_create files bolt json j i ids r w)
      go (ok u, s) a = (h, a)
      go (err e, s) a = (tt, a)

  load-Goes :
      (j : Job) (w : Agent files bolt json) (o : Option _)
      → IsStore bolt json w.db
      → IsFitJob j
      → (load_or_create bolt json j.curr.namespace j.curr.name w.db).container_device_map ≡ o
      → IsFitThread (
          after_load files bolt json j
            (load_or_create bolt json j.curr.namespace j.curr.name w.db)
            o)
  unfolding after_load
  load-Goes j w none inv h e = tt
  load-Goes j w (some m) inv h e =
      Writes-IsValid bolt json w.db j.curr j.devices _
        (Writes-of bolt json w.db j.curr j.devices m e) inv h.namespace h.name h.container h.devices

  save-Goes :
      (j : Job) (p : PodInfo) (w : Agent files bolt json)
      → IsValid p
      → Goes w (after_save files bolt json j (save bolt json p w.db) w)
  unfolding after_save
  save-Goes j p w h = go (save bolt json p w.db) (then_ rest (saves_record p h))
    where
      go :
          (r : Result (Unit {0}) × bolt.Db)
          → Actions files bolt json w (record w { db = r.1 })
          → Goes w (after_save files bolt json j r w)
      go (ok u, db') a = (tt, a)
      go (err e, db') a = (tt, a)

  move-Goes :
      (t : Thread) (w : Agent files bolt json)
      → IsStore bolt json w.db
      → IsFitThread t
      → Goes w (move files bolt json t w)
  unfolding move
  move-Goes (making j i []) w inv h = (h, rest)
  move-Goes (making j i (id ∷ ids)) w inv h = create-Goes j i id ids w h
  move-Goes (loading j) w inv h = (load-Goes j w _ inv h refl, rest)
  move-Goes (saving j p) w inv h = save-Goes j p w h
  move-Goes (undoing j i []) w inv h = (tt, rest)
  move-Goes (undoing j i (id ∷ ids)) w inv h = (tt, then_ rest (removes_share id j.devices.hash i))
  move-Goes (returned r) w inv h = (tt, rest)

  -- A call of the collector is at most one action of the agent.
  sweep-Actions :
      (sitter : PodSitter) (event : Event) (c : Sweep) (w : Agent files bolt json)
      → Actions files bolt json w (sweep files bolt json sitter event c w).1
  unfolding sweep
  sweep-Actions sitter event resting w = rest
  sweep-Actions sitter event (sweeping []) w = rest
  sweep-Actions sitter event (sweeping (l ∷ ls)) w =
      go (Gpushare.delete files useless_number (share_id l.device.hash 0) w.fs)
        (then_ rest (removes_share useless_number l.device.hash 0))
    where
      go :
          (r : Result (Unit {0}) × files.State)
          → Actions files bolt json w (record w { fs = r.1 })
          → Actions files bolt json w (after_first_share files bolt json l ls r w).1
      go (ok u, s) a = unfold after_first_share in a
      go (err e, s) a = unfold after_first_share in a
  sweep-Actions sitter event (clearing l i zero ls) w = rest
  sweep-Actions sitter event (clearing l i (suc n) ls) w =
      go (Gpushare.delete files useless_number (share_id l.device.hash i) w.fs)
        (then_ rest (removes_share useless_number l.device.hash i))
    where
      go :
          (r : Result (Unit {0}) × files.State)
          → Actions files bolt json w (record w { fs = r.1 })
          → Actions files bolt json w (after_share files bolt json l i n ls r w).1
      go (ok u, s) a = unfold after_share in a
      go (err e, s) a = unfold after_share in a
  sweep-Actions sitter event (dropping l ls) w = then_ rest (drops_record l.namespace l.name)

  -- A handler has returned, or it has made `n` of the calls that it had to make.
  abbrev pub HasMade : ℕ → Thread → Thread → Type 0
  HasMade n t u = ((r : Result (Unit {0})) × (u ≡ returned r)) ⊎ (n + calls_left u ≤ calls_left t)

  calls_left-move :
      (t : Thread) (w : Agent files bolt json)
      → ((r : Result (Unit {0})) × (t ≡ returned r))
        ⊎ (suc (calls_left (move files bolt json t w).0) ≤ calls_left t)
  unfolding move calls_left after_create after_load after_save
  calls_left-move (making j i []) w = inr (omega arith)
  calls_left-move (making j i (id ∷ ids)) w =
      inr (go (create files id (share_id j.devices.hash i) w.fs))
    where
      go :
          (r : Result (Unit {0}) × files.State)
          → suc (calls_left (after_create files bolt json j i ids r w).0)
            ≤ calls_left (making j i (id ∷ ids))
      go (ok u, s) = omega arith
      go (err e, s) = omega arith
  calls_left-move (loading j) w = inr (
      go (load_or_create bolt json j.curr.namespace j.curr.name w.db)
        (load_or_create bolt json j.curr.namespace j.curr.name w.db).container_device_map)
    where
      go :
          (pif : PodInfo) (o : Option (Dict _))
          → suc (calls_left (after_load files bolt json j pif o)) ≤ calls_left (loading j)
      go pif none = omega arith
      go pif (some m) = omega arith
  calls_left-move (saving j p) w = inr (go (save bolt json p w.db))
    where
      go :
          (r : Result (Unit {0}) × bolt.Db)
          → suc (calls_left (after_save files bolt json j r w).0) ≤ calls_left (saving j p)
      go (ok u, db') = omega arith
      go (err e, db') = omega arith
  calls_left-move (undoing j i []) w = inr (omega arith)
  calls_left-move (undoing j i (id ∷ ids)) w = inr (omega arith)
  calls_left-move (returned r) w = inl (r, refl)

  HasMade-move :
      (n : ℕ) (t u : Thread) (w : Agent files bolt json)
      → HasMade n t u
      → HasMade (suc n) t (move files bolt json u w).0
  unfolding move
  HasMade-move n t u w (inl (r, e)) = inl (r, rw e refl)
  HasMade-move n t u w (inr h) = elim (calls_left-move u w) [
    | inl (r, e) ↦ inl (r, rw e refl)
    | inr less ↦ inr (omega (arith, h, less))
  ]

  -- Both handlers are fit, and the agent is sound.
  record IsFitPair (s : Pair files bolt json) : Type 0 where
    sound : IsSound files bolt json s.agent
    core : IsFitThread s.core
    memory : IsFitThread s.memory

  Woven-IsFitPair :
      (s t : Pair files bolt json) (n m : ℕ)
      → IsFitPair s
      → Woven files bolt json s n m t
      → IsFitPair t
  Woven-IsFitPair s t n m h start = h
  Woven-IsFitPair s t n m h (core_next {n = k} {t = u} r) =
      let g = Woven-IsFitPair s u k m h r in
      let moved = move-Goes u.core u.agent g.sound.store g.core in
      record {
        sound = Actions-IsSound files bolt json u.agent _ g.sound moved.1;
        core = moved.0;
        memory = g.memory;
      }
  Woven-IsFitPair s t n m h (memory_next {m = k} {t = u} r) =
      let g = Woven-IsFitPair s u n k h r in
      let moved = move-Goes u.memory u.agent g.sound.store g.memory in
      record {
        sound = Actions-IsSound files bolt json u.agent _ g.sound moved.1;
        core = g.core;
        memory = moved.0;
      }
  Woven-IsFitPair s t n m h (collector_next {t = u} sitter event r) =
      let g = Woven-IsFitPair s u n m h r in
      record {
        sound =
            Actions-IsSound files bolt json u.agent _ g.sound
              (sweep-Actions sitter event u.collector u.agent);
        core = g.core;
        memory = g.memory;
      }

  Woven-HasMade :
      (s t : Pair files bolt json) (n m : ℕ)
      → Woven files bolt json s n m t
      → HasMade n s.core t.core × HasMade m s.memory t.memory
  Woven-HasMade s t n m start = (inr (omega arith), inr (omega arith))
  Woven-HasMade s t n m (core_next {n = k} {t = u} r) =
      let h = Woven-HasMade s u k m r in (HasMade-move k s.core u.core u.agent h.0, h.1)
  Woven-HasMade s t n m (memory_next {m = k} {t = u} r) =
      let h = Woven-HasMade s u n k r in (h.0, HasMade-move k s.memory u.memory u.agent h.1)
  Woven-HasMade s t n m (collector_next {t = u} sitter event r) = Woven-HasMade s u n m r

  -- However a handler of each plugin and the collector take turns, between any two of their calls of
  -- the operator and of the storage, wherever the collector is in a round, from a sound state and for
  -- jobs whose names and devices can be recorded: the state is sound after each call, and no handler
  -- waits for another: it has returned, or each of its turns was one of the calls that it had to make
  -- at most. Calls may fail anywhere.
  pub Woven-IsSound :
      (s t : Pair files bolt json) (n m : ℕ)
      → IsSound files bolt json s.agent
      → IsFitThread s.core
      → IsFitThread s.memory
      → Woven files bolt json s n m t
      → IsSound files bolt json t.agent × HasMade n s.core t.core × HasMade m s.memory t.memory
  Woven-IsSound s t n m h hc hm r = (
    (Woven-IsFitPair s t n m (record { sound = h; core = hc; memory = hm }) r).sound,
    (Woven-HasMade s t n m r).0,
    (Woven-HasMade s t n m r).1,
  )
