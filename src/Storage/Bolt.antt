-- ===== src/Storage/Bolt.antt =====
-- The bolt database, as pkg/storage uses it: the operations on its bucket `root`, with the laws
-- that bolt documents. A transaction may fail, for a key that is too large or a disk that is full.
use elastic_gpu_agent.Prelude.{
  ◌≡◌, Option, none, some, List, Text, text_eq, if◌then◌else◌, Result, Exec, ok, Member,
}

pub record BoltDb : Type 1 where
  pub Db : Type 0
  -- `Open`, and `CreateBucketIfNotExists` in a transaction
  pub open_file : Text → Result Db
  pub create_bucket : Db → Text → Result Db
  pub get : Db → Text → Option Text
  pub put : Db → Text → Text → Result Db
  pub remove : Db → Text → Result Db
  pub close : Exec Db (Unit {0})
  -- what `ForEach` passes, in its order
  pub entries : Db → List (Text × Text)
  pub get-create_bucket : (d d' : Db) (b k : Text) → create_bucket d b ≡ ok d' → get d' k ≡ get d k
  pub get-put :
      (d d' : Db) (k j v : Text)
      → put d k v ≡ ok d'
      → get d' j ≡ (if text_eq k j then some v else get d j)
  pub get-remove :
      (d d' : Db) (k j : Text)
      → remove d k ≡ ok d'
      → get d' j ≡ (if text_eq k j then none else get d j)
  pub get_of_entry : (d : Db) (k v : Text) → Member (k, v) (entries d) → get d k ≡ some v
  pub entry_of_get : (d : Db) (k v : Text) → get d k ≡ some v → Member (k, v) (entries d)
