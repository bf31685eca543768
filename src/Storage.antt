-- ===== src/Storage.antt =====
-- pkg/storage/storage.go: the records of pods in a bolt database. The proofs are in the modules
-- below.
pub mod Bolt
pub mod Records
pub mod Iteration
pub mod Opening
pub mod Loading
pub mod Refinement
use elastic_gpu_agent.Prelude.{
  ℕ, ◌≡◌, Option, none, some, List, [], ◌∷◌, ◌++◌, Text, Dict, Result, ok, err, Error, no_such_key,
  Exec, codes, ◌>>=◌, ◌>>◌, pure, lift,
}
use elastic_gpu_agent.Types.Json.{Json}
use elastic_gpu_agent.Types.Pod.{PodInfo, new_pi, key, val, set_val, new_pi_from_raw}
use elastic_gpu_agent.Storage.Bolt.{BoltDb}

abbrev pub root_bucket : Text
root_bucket = codes "root"

module _ (bolt : BoltDb) (json : Json) where
  open bolt use {Db, get, put, remove, entries}

  -- an `Update` transaction: the write is kept only if it succeeds
  abbrev pub update : Result Db → Exec Db (Unit {0})
  update (ok db') db = (ok tt, db')
  update (err e) db = (err e, db)

  unfoldable pub delete : Text → Text → Exec Db (Unit {0})
  delete namespace name db = update (remove db (namespace ++ b'/' ∷ name)) db

  unfoldable pub save : PodInfo → Exec Db (Unit {0})
  save info db = update (put db (key info) (val json info)) db

  -- `BoltStorage.Close`, which nothing calls
  close_storage : Exec Db (Unit {0})
  close_storage = bolt.close

  pub found : PodInfo → Option Text → Result PodInfo
  found pod none = err (no_such_key (key pod))
  found pod (some v) = set_val json pod v

  unfoldable pub load : Text → Text → Db → Result PodInfo
  unfolding found
  load namespace name db = let pod = new_pi namespace name in found pod (get db (key pod))

  unfoldable pub load_or_create : Text → Text → Db → PodInfo
  load_or_create namespace name db = elim (load namespace name db) [
    | ok pod ↦ pod
    | err e ↦ new_pi namespace name
  ]

  -- The callback may fail, and changes a state of the caller.
  module _ {S : Type 0} (f : PodInfo → Exec S (Unit {0})) where
    for_each_entry : List (Text × Text) → Exec S (Unit {0})
    for_each_entry [] = pure tt
    for_each_entry ((k, v) ∷ rest) = do
      pod ← lift (new_pi_from_raw json k v)
      f pod
      for_each_entry rest

    unfoldable pub for_each : Db → Exec S (Unit {0})
    unfolding for_each_entry
    for_each db = for_each_entry (entries db)

-- `NewStorage`: the directory, the file, and the bucket. `mkdir_all` makes the directory of the file.
module _ (bolt : BoltDb) (mkdir_all : Text → Result (Unit {0})) where
  made_bucket : Result bolt.Db → Result bolt.Db
  made_bucket (ok db) = bolt.create_bucket db root_bucket
  made_bucket (err e) = err e

  opened : Text → Result (Unit {0}) → Result bolt.Db
  unfolding made_bucket
  opened file (ok u) = made_bucket (bolt.open_file file)
  opened file (err e) = err e

  unfoldable pub new_storage : Text → Result bolt.Db
  unfolding opened
  new_storage file = opened file (mkdir_all file)
