-- ===== src/System/Threads.antt =====
-- The part of `PreStartContainer` behind its search (pkg/plugins/gpushare.go) and the collector
-- (pkg/plugins/base.go), call by call: the core and the memory plugin each have a lock of their own and
-- the collector takes none, so that a handler of the one, a handler of the other and the collector may
-- take turns between any two calls of the operator and of the storage. The collector's iteration over
-- the records is one call of the storage, a transaction.
pub mod Alone
pub mod Interleaved
pub mod Lost
use elastic_gpu_agent.Prelude.{
  ℕ, zero, suc, ◌+◌, ◌*◌, Option, none, some, List, [], ◌∷◌, Dict, insert, length, Result, ok, err,
  nil_map_write, ℤ, if◌then◌else◌,
}
use elastic_gpu_agent.Types.Json.{Json}
use elastic_gpu_agent.Types.Device.{Device}
use elastic_gpu_agent.Types.Pod.{PodContainer, PodInfo}
use elastic_gpu_agent.Common.{useless_number}
use elastic_gpu_agent.Storage
use elastic_gpu_agent.Storage.{save, load_or_create}
use elastic_gpu_agent.Storage.Bolt.{BoltDb}
use elastic_gpu_agent.Operator.FileSystem.{Files}
use elastic_gpu_agent.Operator.Gpushare
use elastic_gpu_agent.Operator.Gpushare.{create}
use elastic_gpu_agent.Kube.Sitter.{PodSitter}
use elastic_gpu_agent.Plugins.Share.{share_id}
use elastic_gpu_agent.Plugins.Gc.{Event, Line, starts, collect, further_shares}
use elastic_gpu_agent.System.{Agent}

-- What a handler has found: the container, its devices, and the GPUs of its annotation.
pub record Job : Type 0 where
  pub curr : PodContainer
  pub devices : Device
  pub indexes : List ℤ

-- Where a handler is: it has links to make, from a number on; it reads the record; it has a record to
-- save; it has links to delete after a failed save; it has returned.
pub data Thread : Type 0 where
  making : Job → ℕ → List ℤ → Thread
  loading : Job → Thread
  saving : Job → PodInfo → Thread
  undoing : Job → ℕ → List ℤ → Thread
  returned : Result (Unit {0}) → Thread

abbrev pub new_thread : Job → Thread
new_thread j = making j 0 j.indexes

-- The calls that a handler has still to make, at most.
unfoldable pub calls_left : Thread → ℕ
calls_left (making j i ids) = 4 + length ids + length j.indexes
calls_left (loading j) = 3 + length j.indexes
calls_left (saving j p) = 2 + length j.indexes
calls_left (undoing j i ids) = 1 + length ids
calls_left (returned r) = 0

-- Where the collector is: it waits; it has to delete the first share of the next line; it has deleted
-- that of a line, and has further shares of it to delete, from a number on, so many; it has to delete
-- the line's record.
pub data Sweep : Type 0 where
  resting : Sweep
  sweeping : List Line → Sweep
  clearing : Line → ℕ → ℕ → List Line → Sweep
  dropping : Line → List Line → Sweep

module _ (files : Files) (bolt : BoltDb) (json : Json) where
  -- an error at the first share ends the loop over the lines
  after_first_share :
      Line
      → List Line
      → Result (Unit {0}) × files.State
      → Agent files bolt json
      → Sweep × Agent files bolt json
  after_first_share l ls (ok u, s) w =
      (clearing l 1 (further_shares l.device) ls, record w { fs = s })
  after_first_share l ls (err e, s) w = (resting, record w { fs = s })

  -- an error at a further share leaves the record, and the loop goes on
  after_share :
      Line
      → ℕ
      → ℕ
      → List Line
      → Result (Unit {0}) × files.State
      → Agent files bolt json
      → Sweep × Agent files bolt json
  after_share l i n ls (ok u, s) w = (clearing l (suc i) n ls, record w { fs = s })
  after_share l i n ls (err e, s) w = (sweeping ls, record w { fs = s })

  -- One call of the collector.
  unfoldable pub sweep :
      PodSitter → Event → Sweep → Agent files bolt json → Sweep × Agent files bolt json
  unfolding after_first_share after_share
  sweep sitter event resting w = (
    if starts event
        then sweeping (Storage.for_each bolt json (collect sitter) w.db []).1
        else resting,
    w,
  )
  sweep sitter event (sweeping []) w = (resting, w)
  sweep sitter event (sweeping (l ∷ ls)) w =
      after_first_share l ls (Gpushare.delete files useless_number (share_id l.device.hash 0) w.fs)
        w
  sweep sitter event (clearing l i zero ls) w = (dropping l ls, w)
  sweep sitter event (clearing l i (suc n) ls) w =
      after_share l i n ls (Gpushare.delete files useless_number (share_id l.device.hash i) w.fs) w
  sweep sitter event (dropping l ls) w =
      (sweeping ls, record w { db = (Storage.delete bolt json l.namespace l.name w.db).1 })

  after_create :
      Job
      → ℕ
      → List ℤ
      → Result (Unit {0}) × files.State
      → Agent files bolt json
      → Thread × Agent files bolt json
  after_create j i ids (ok u, s) w = (making j (suc i) ids, record w { fs = s })
  after_create j i ids (err e, s) w = (returned (err e), record w { fs = s })

  after_load : Job → PodInfo → Option (Dict Device) → Thread
  after_load j pif none = returned (err nil_map_write)
  after_load j pif (some m) =
      saving j (record pif { container_device_map = some (insert j.curr.container j.devices m) })

  after_save :
      Job → Result (Unit {0}) × bolt.Db → Agent files bolt json → Thread × Agent files bolt json
  after_save j (ok u, db') w = (returned (ok tt), record w { db = db' })
  after_save j (err e, db') w = (undoing j 0 j.indexes, record w { db = db' })

  -- One call.
  unfoldable pub move : Thread → Agent files bolt json → Thread × Agent files bolt json
  unfolding after_create after_load after_save
  move (making j i []) w = (loading j, w)
  move (making j i (id ∷ ids)) w =
      after_create j i ids (create files id (share_id j.devices.hash i) w.fs) w
  move (loading j) w =
      let pif = load_or_create bolt json j.curr.namespace j.curr.name w.db in
      (after_load j pif pif.container_device_map, w)
  move (saving j p) w = after_save j (save bolt json p w.db) w
  move (undoing j i []) w = (returned (ok tt), w)
  move (undoing j i (id ∷ ids)) w = (
    undoing j (suc i) ids,
    record w { fs = (Gpushare.delete files id (share_id j.devices.hash i) w.fs).1 },
  )
  move (returned r) w = (returned r, w)

  -- The calls of a handler that nothing interrupts.
  unfoldable pub moves : ℕ → Thread × Agent files bolt json → Thread × Agent files bolt json
  moves zero s = s
  moves (suc n) (t, w) = moves n (move t w)

  -- The agent with a handler of each plugin and its collector.
  pub record Pair : Type 0 where
    pub agent : Agent files bolt json
    pub core : Thread
    pub memory : Thread
    pub collector : Sweep

  -- The handlers and the collector take turns: so many calls of the core plugin's, so many of the
  -- memory plugin's, and any of the collector's.
  pub data Woven (s : Pair) : ℕ → ℕ → Pair → Type 0 where
    start : Woven s 0 0 s
    core_next :
        {n m : ℕ} {t : Pair}
        → Woven s n m t
        → Woven s
            (suc n)
            m
            (record t { core = (move t.core t.agent).0; agent = (move t.core t.agent).1 })
    memory_next :
        {n m : ℕ} {t : Pair}
        → Woven s n m t
        → Woven s n
            (suc m)
            (record t { memory = (move t.memory t.agent).0; agent = (move t.memory t.agent).1 })
    collector_next :
        {n m : ℕ} {t : Pair} (sitter : PodSitter) (event : Event)
        → Woven s n m t
        → Woven s n m (record t {
          collector = (sweep sitter event t.collector t.agent).0;
          agent = (sweep sitter event t.collector t.agent).1;
        })
