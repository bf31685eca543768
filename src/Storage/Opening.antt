-- ===== src/Storage/Opening.antt =====
-- What a new storage on an existing file holds.
use elastic_gpu_agent.Prelude.{◌≡◌, refl, ap, Text, Result, ok, err}
use elastic_gpu_agent.Types.Json.{Json}
use elastic_gpu_agent.Types.Pod.{new_pi, key}
use elastic_gpu_agent.Storage.{load, found, new_storage, opened, made_bucket, root_bucket}
use elastic_gpu_agent.Storage.Bolt.{BoltDb}

module _ (bolt : BoltDb) (json : Json) (mkdir_all : Text → Result (Unit {0})) where
  open bolt use {Db, get, open_file, create_bucket, get-create_bucket}

  -- A storage that opens is one on the database of the file, with its bucket made if it was missing.
  bucket_of_new :
      (file : Text) (db : Db)
      → new_storage bolt mkdir_all file ≡ ok db
      → (d : Db) × (open_file file ≡ ok d) × (create_bucket d root_bucket ≡ ok db)
  unfolding new_storage opened
  bucket_of_new file db e = with_dir (mkdir_all file) e
    where
      with_file :
          (r : Result Db)
          → open_file file ≡ r
          → made_bucket bolt mkdir_all r ≡ ok db
          → (d : Db) × (open_file file ≡ ok d) × (create_bucket d root_bucket ≡ ok db)
      with_file (ok d) g h = (d, g, h)
      with_file (err x) g h = absurd (cc)

      with_dir :
          (r : Result (Unit {0}))
          → opened bolt mkdir_all file r ≡ ok db
          → (d : Db) × (open_file file ≡ ok d) × (create_bucket d root_bucket ≡ ok db)
      with_dir (ok u) h = with_file (open_file file) refl h
      with_dir (err x) h = absurd (cc)

  -- If `NewStorage` returns no error, the file opens as a database, and every pod loads from the
  -- storage as it loads from that database.
  pub load-new_storage :
      (file : Text) (db : Db)
      → new_storage bolt mkdir_all file ≡ ok db
      → (d : Db) × (open_file file ≡ ok d)
        × ((s n : Text) → load bolt json s n db ≡ load bolt json s n d)
  unfolding load
  load-new_storage file db e =
      let (d, o, c) = bucket_of_new file db e in
      (
        d,
        o,
        λ s n.
            ap (found bolt json (new_pi s n))
              (get-create_bucket d db root_bucket (key (new_pi s n)) c),
      )
