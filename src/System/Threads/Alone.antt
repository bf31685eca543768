-- ===== src/System/Threads/Alone.antt =====
-- A handler that nothing interrupts does what the handler does in one go.
use elastic_gpu_agent.Prelude.{
  ℕ, zero, suc, ◌+◌, ◌<◌, ◌≡◌, refl, sym, ap, ◌∙◌, Option, none, some, List, [], ◌∷◌, arith, Dict,
  length, Text, Result, ok, err, ℤ, ◌>>=◌,
}
use elastic_gpu_agent.Common.{resource_gpu_memory, resource_gpu_core}
use elastic_gpu_agent.Types.Json.{Json}
use elastic_gpu_agent.Types.Device.{Device, new_device}
use elastic_gpu_agent.Types.Pod.{PodInfo}
use elastic_gpu_agent.Storage.{save}
use elastic_gpu_agent.Storage.Bolt.{BoltDb}
use elastic_gpu_agent.Operator.FileSystem.{Files}
use elastic_gpu_agent.Operator.Gpushare.{create}
use elastic_gpu_agent.Plugins.Share.{share_id}
use elastic_gpu_agent.Plugins.World.{on_fs}
use elastic_gpu_agent.Plugins.PreStart.{
  start_memory, Assumed, create_all, delete_all, record_devices, start_core,
}
use elastic_gpu_agent.Plugins.PreStart.Ends.{
  old_record, new_record, record_devices-nil_map, record_devices-saved, record_devices-unsaved,
}
use elastic_gpu_agent.System.{Agent}
use elastic_gpu_agent.System.Threads.{
  Job, Thread, making, loading, undoing, returned, new_thread, calls_left, after_create, after_load,
  after_save, move, moves,
}

-- The jobs of the two plugins for a container that they have found.
abbrev pub job_of : List Text → Assumed → List ℤ → Job
job_of ids a indexes = record {
  curr = a.curr;
  devices = new_device ids resource_gpu_core;
  indexes = indexes;
}

abbrev pub memory_job_of : List Text → Assumed → ℤ → Job
memory_job_of ids a index = record {
  curr = a.curr;
  devices = new_device ids resource_gpu_memory;
  indexes = index ∷ [];
}

module _ (files : Files) (bolt : BoltDb) (json : Json) (j : Job) where
  open files use {State}

  moves-returned :
      (n : ℕ) (r : Result (Unit {0})) (w : Agent files bolt json)
      → moves files bolt json n (returned r, w) ≡ (returned r, w)
  unfolding moves move
  moves-returned zero r w = refl
  moves-returned (suc n) r w = moves-returned n r w

  -- An outcome of the handler as a state of its thread.
  abbrev ends : Result (Unit {0}) × Agent files bolt json → Thread × Agent files bolt json
  ends x = (returned x.0, x.1)

  moves-undoing :
      (n i : ℕ) (ids : List ℤ) (w : Agent files bolt json)
      → length ids < n
      → moves files bolt json n (undoing j i ids, w)
        ≡ (returned (ok tt), record w { fs = delete_all files j.devices.hash i ids w.fs })
  unfolding moves move delete_all
  moves-undoing zero i ids w h = absurd (omega (arith, h))
  moves-undoing (suc n) i [] w h = moves-returned n (ok tt) w
  moves-undoing (suc n) i (id ∷ ids) w h = moves-undoing n (suc i) ids _ (omega (arith, h))

  abbrev records : Agent files bolt json → Result (Unit {0}) × Agent files bolt json
  records =
      record_devices files bolt json (delete_all files j.devices.hash 0 j.indexes) j.curr j.devices

  moves-loading :
      (n : ℕ) (w : Agent files bolt json)
      → 2 + length j.indexes < n
      → moves files bolt json n (loading j, w) ≡ ends (records w)
  unfolding moves move after_load after_save
  moves-loading zero w h = absurd (omega (arith, h))
  moves-loading (suc zero) w h = absurd (omega (arith, h))
  moves-loading (suc (suc n)) w h = with_map pif.container_device_map refl
    where
      undo : State → State
      undo = delete_all files j.devices.hash 0 j.indexes

      pif : PodInfo
      pif = old_record files bolt json undo j.curr j.devices w

      written : Dict Device → PodInfo
      written = new_record files bolt json undo j.curr j.devices w

      with_save :
          (m : Dict Device) (r : Result (Unit {0}) × bolt.Db)
          → pif.container_device_map ≡ some m
          → save bolt json (written m) w.db ≡ r
          → moves files bolt json n (after_save files bolt json j r w) ≡ ends (records w)
      with_save m (ok u, db') g s =
          moves-returned n (ok tt) _
          ∙ ap ends (sym (record_devices-saved files bolt json undo j.curr j.devices w m db' g s))
      with_save m (err x, db') g s =
          moves-undoing n 0 j.indexes _ (omega (arith, h))
          ∙ ap ends
              (sym (record_devices-unsaved files bolt json undo j.curr j.devices w m db' x g s))

      with_map :
          (o : Option (Dict Device))
          → pif.container_device_map ≡ o
          → moves files bolt json (suc n) (after_load files bolt json j pif o, w) ≡ ends (records w)
      with_map none g =
          moves-returned n _ w
          ∙ ap ends (sym (record_devices-nil_map files bolt json undo j.curr j.devices w g))
      with_map (some m) g = with_save m (save bolt json (written m) w.db) g refl

  moves-making :
      (n i : ℕ) (ids : List ℤ) (w : Agent files bolt json)
      → 3 + length ids + length j.indexes < n
      → moves files bolt json n (making j i ids, w)
        ≡ ends ((on_fs (create_all files j.devices.hash i ids) >>= λ _. records) w)
  unfolding moves move after_create create_all
  moves-making zero i ids w h = absurd (omega (arith, h))
  moves-making (suc n) i [] w h = moves-loading n w (omega (arith, h))
  moves-making (suc n) i (id ∷ ids) w h =
      go (λ v. moves-making n (suc i) ids v (omega (arith, h)))
        (create files id (share_id j.devices.hash i) w.fs) refl
    where
      go :
          ((v : Agent files bolt json)
            → moves files bolt json n (making j (suc i) ids, v)
              ≡ ends ((on_fs (create_all files j.devices.hash (suc i) ids) >>= λ _. records) v))
          → (r : Result (Unit {0}) × State) → create files id (share_id j.devices.hash i) w.fs ≡ r
          → moves files bolt json n (after_create files bolt json j i ids r w)
            ≡ ends ((on_fs (create_all files j.devices.hash i (id ∷ ids)) >>= λ _. records) w)
      go more (ok u, s) e = rw e (more (record w { fs = s }))
      go more (err x, s) e = rw e (moves-returned n (err x) _)

module _ (files : Files) (bolt : BoltDb) (json : Json) where
  -- The handler of the core plugin behind its search, call by call: within the calls that it has to
  -- make at most, a handler that nothing interrupts returns what `PreStartContainer` returns, and
  -- leaves the state that it leaves.
  pub moves-start_core :
      (ids : List Text) (a : Assumed) (indexes : List ℤ) (w : Agent files bolt json)
      → moves files bolt json
          (calls_left (new_thread (job_of ids a indexes)))
          (new_thread (job_of ids a indexes), w)
        ≡ (
          returned (start_core files bolt json ids a indexes w).0,
          (start_core files bolt json ids a indexes w).1,
        )
  unfolding start_core calls_left
  moves-start_core ids a indexes w =
      moves-making files bolt json (job_of ids a indexes) _ 0 indexes w (omega arith)

  memory_created :
      (j : Job) (index : ℤ) (w : Agent files bolt json)
      → (on_fs (create_all files j.devices.hash 0 (index ∷ [])) >>= λ _. records files bolt json j)
          w
        ≡ (on_fs (create files index (share_id j.devices.hash 0)) >>= λ _.
              records files bolt json j)
            w
  unfolding create_all
  memory_created j index w = go (create files index (share_id j.devices.hash 0) w.fs) refl
    where
      go :
          (r : Result (Unit {0}) × files.State)
          → create files index (share_id j.devices.hash 0) w.fs ≡ r
          → (on_fs (create_all files j.devices.hash 0 (index ∷ [])) >>= λ _.
                records files bolt json j)
              w
            ≡ (on_fs (create files index (share_id j.devices.hash 0)) >>= λ _.
                  records files bolt json j)
                w
      go (ok u, s) e = rw e refl
      go (err x, s) e = rw e refl

  -- The same of the memory plugin, which has one link to make.
  pub moves-start_memory :
      (ids : List Text) (a : Assumed) (index : ℤ) (w : Agent files bolt json)
      → moves files bolt json
          (calls_left (new_thread (memory_job_of ids a index)))
          (new_thread (memory_job_of ids a index), w)
        ≡ (
          returned (start_memory files bolt json ids a index w).0,
          (start_memory files bolt json ids a index w).1,
        )
  unfolding start_memory calls_left delete_all
  moves-start_memory ids a index w =
      moves-making files bolt json (memory_job_of ids a index) _ 0 (index ∷ []) w (omega arith)
      ∙ ap (λ (x : Result (Unit {0}) × Agent files bolt json). (returned x.0, x.1))
          (memory_created (memory_job_of ids a index) index w)
