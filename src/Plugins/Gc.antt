-- ===== src/Plugins/Gc.antt =====
-- `GPUSharePlugin.GC` (pkg/plugins/base.go): one round of the collector, from the event that starts
-- it on. The proofs are in the modules below.
pub mod Lines
pub mod Steps
pub mod Rounds
pub mod Shares
pub mod Completion
pub mod Progress
pub mod Lasting
pub mod Blocked
pub mod Unlisted
use elastic_gpu_agent.Prelude.{
  ℕ, zero, suc, ◌-◌, ◌/◌, Bool, true, false, Option, none, some, List, [], ◌∷◌, ◌++◌, Text, codes,
  text_eq, length, ltb, if◌then◌else◌, Dict, lookup, Result, ok, err, not_found, Exec, ◌>>=◌, ◌>>◌,
  pure,
}
use elastic_gpu_agent.Common.{assumed_annotation, useless_number, resource_gpu_core}
use elastic_gpu_agent.Types.Device.{Device}
use elastic_gpu_agent.Types.Json.{Json}
use elastic_gpu_agent.Types.Pod.{PodInfo}
use elastic_gpu_agent.Storage
use elastic_gpu_agent.Storage.Bolt.{BoltDb}
use elastic_gpu_agent.Operator.FileSystem.{Files}
use elastic_gpu_agent.Operator.Gpushare
use elastic_gpu_agent.Kube.Sitter.{Pod, PodSitter, Object, pod_pointer, deleted_final_state_unknown}
use elastic_gpu_agent.Plugins.Share.{share_id}
use elastic_gpu_agent.Plugins.World.{World}

-- What ends the wait: the timer, or an object from the channel, which is a `v1.Pod` or not.
pub data Event : Type 0 where
  timer : Event
  pod_value : Pod → Event
  other_object : Event

-- The type assertion `o.(v1.Pod)`: a pointer to a pod is no pod.
unfoldable pub event_of : Object → Event
event_of (pod_pointer pod) = other_object
event_of (deleted_final_state_unknown k pod) = other_object

-- A missing annotation reads as the empty text.
is_true : Option Text → Bool
is_true none = false
is_true (some v) = text_eq v (codes "true")

-- `continue`, for a pod that was not assumed
unfoldable pub starts : Event → Bool
unfolding is_true
starts timer = true
starts (pod_value pod) = is_true (lookup assumed_annotation pod.annotations)
starts other_object = true

-- A device to delete, with its place.
pub record Line : Type 0 where
  pub namespace : Text
  pub name : Text
  pub container : Text
  pub device : Device

lines_of : PodInfo → Dict Device → List Line
lines_of info [] = []
lines_of info ((container, device) ∷ m) =
    record { namespace = info.namespace; name = info.name; container = container; device = device }
    ∷ lines_of info m

-- `for name, device := range` of a nil map makes no round.
unfoldable pub lines_of_map : PodInfo → Option (Dict Device) → List Line
unfolding lines_of
lines_of_map info none = []
lines_of_map info (some m) = lines_of info m

-- The lister does not have the pod, and the API server says that there is none.
is_not_found : Result Pod → Bool
is_not_found (ok pod) = false
is_not_found (err not_found) = true
is_not_found (err e) = false

unfoldable pub is_gone : PodSitter → Text → Text → Bool
unfolding is_not_found
is_gone sitter namespace name = elim (sitter.get_pod namespace name) [
  | ok pod ↦ false
  | err e ↦ is_not_found (sitter.get_pod_from_api_server namespace name)
]

-- the callback of `ForEach`, which appends to `devicesToDelete`
unfoldable pub collect : PodSitter → PodInfo → Exec (List Line) (Unit {0})
collect sitter info lines = (
  ok tt,
  if is_gone sitter info.namespace info.name
      then lines ++ lines_of_map info info.container_device_map
      else lines,
)

-- the shares behind the first, for a core device of more than 100 units
unfoldable pub further_shares : Device → ℕ
further_shares d =
    if text_eq d.resource_name resource_gpu_core
    then (if ltb 100 (length d.list) then length d.list / 100 - 1 else 0)
    else 0

module _ (files : Files) where
  open files use {State}

  -- the inner loop: the shares from `i` on, `n` of them, until the first error
  pub delete_more : Text → ℕ → ℕ → Exec State (Unit {0})
  delete_more hash i zero = pure tt
  delete_more hash i (suc n) = do
    Gpushare.delete files useless_number (share_id hash i)
    delete_more hash (suc i) n

module _ (files : Files) (bolt : BoltDb) (json : Json) where
  -- `continue` after an error of the inner loop or of the storage; the record's delete otherwise
  drop_record : Line → Result (Unit {0}) × files.State → World files bolt → World files bolt
  drop_record l (ok u, s) w = record w {
    fs = s;
    db = (Storage.delete bolt json l.namespace l.name w.db).1;
  }
  drop_record l (err e, s) w = record w { fs = s }

  -- The rest of the loop's body, and then the rest of the loop; an error at the first share ends it.
  after_first :
      Line
      → Result (Unit {0}) × files.State
      → (World files bolt → World files bolt)
      → World files bolt
      → World files bolt
  unfolding delete_more further_shares drop_record
  after_first l (ok u, s) rest w =
      rest (drop_record l (delete_more files l.device.hash 1 (further_shares l.device) s) w)
  after_first l (err e, s) rest w = record w { fs = s }

  -- The loop over the lines.
  unfoldable pub delete_lines : List Line → World files bolt → World files bolt
  unfolding after_first
  delete_lines [] w = w
  delete_lines (l ∷ ls) w =
      after_first l (Gpushare.delete files useless_number (share_id l.device.hash 0) w.fs)
        (delete_lines ls) w

  -- The lines that are collected stay also if the iteration ends with an error.
  unfoldable pub round : PodSitter → World files bolt → World files bolt
  unfolding delete_lines collect
  round sitter w = delete_lines (Storage.for_each bolt json (collect sitter) w.db []).1 w

  -- One turn of the endless loop.
  unfoldable pub gc : PodSitter → Event → World files bolt → World files bolt
  unfolding starts round
  gc sitter event w = if starts event then round sitter w else w
