-- ===== src/Plugins/PreStart/Ends.antt =====
-- The ends of a `PreStartContainer` call, each for what the storage answers.
use elastic_gpu_agent.Prelude.{◌≡◌, refl, none, some, Dict, insert, ok, err, Error, nil_map_write}
use elastic_gpu_agent.Types.Device.{Device}
use elastic_gpu_agent.Types.Json.{Json}
use elastic_gpu_agent.Types.Pod.{PodContainer, PodInfo}
use elastic_gpu_agent.Storage.{save, load_or_create}
use elastic_gpu_agent.Storage.Bolt.{BoltDb}
use elastic_gpu_agent.Operator.FileSystem.{Files}
use elastic_gpu_agent.Plugins.World.{World}
use elastic_gpu_agent.Plugins.PreStart.{save_into, record_devices}

module _ (files : Files) (bolt : BoltDb) (json : Json) (undo : files.State → files.State)
    (curr : PodContainer) (devices : Device) (w : World files bolt) where
  -- The record in the database, and what is saved in its place.
  abbrev pub old_record : PodInfo
  old_record = load_or_create bolt json curr.namespace curr.name w.db

  abbrev pub new_record : Dict Device → PodInfo
  new_record m = record old_record { container_device_map = some (insert curr.container devices m) }

  pub record_devices-nil_map :
      old_record.container_device_map ≡ none
      → record_devices files bolt json undo curr devices w ≡ (err nil_map_write, w)
  unfolding record_devices
  record_devices-nil_map e = rw (e, save_into) refl

  pub record_devices-saved :
      (m : Dict Device) (db' : bolt.Db)
      → old_record.container_device_map ≡ some m
      → save bolt json (new_record m) w.db ≡ (ok tt, db')
      → record_devices files bolt json undo curr devices w ≡ (ok tt, record w { db = db' })
  unfolding record_devices save_into
  record_devices-saved m db' e s = rw (e, s) refl

  pub record_devices-unsaved :
      (m : Dict Device) (db' : bolt.Db) (x : Error)
      → old_record.container_device_map ≡ some m
      → save bolt json (new_record m) w.db ≡ (err x, db')
      → record_devices files bolt json undo curr devices w
        ≡ (ok tt, record w { db = db'; fs = undo w.fs })
  unfolding record_devices save_into
  record_devices-unsaved m db' x e s = rw (e, s) refl
