-- ===== src/Plugins/PreStart/Record.antt =====
-- The record of a pod that a `PreStartContainer` call writes.
use elastic_gpu_agent.Prelude.{
  ◌≡◌, refl, sym, ap, ap₂, subst, arith, Option, none, some, Text, Dict, insert, insert-IsMap,
  Result, ok, err, Error,
}
use elastic_gpu_agent.Go.FilePath.{IsSegment}
use elastic_gpu_agent.Types.Device.{Device}
use elastic_gpu_agent.Types.Json.{Json, IsAscii, IsPlainDevice, insert-IsPlain}
use elastic_gpu_agent.Types.Pod.{PodContainer, PodInfo, new_pi, set_val}
use elastic_gpu_agent.Types.Pod.RoundTrip.{IsValid, IsStorable}
use elastic_gpu_agent.Storage.{save, load, load_or_create}
use elastic_gpu_agent.Storage.Bolt.{BoltDb}
use elastic_gpu_agent.Storage.Iteration.{IsStore}
use elastic_gpu_agent.Storage.Loading.{load_or_create-IsValid}
use elastic_gpu_agent.Operator.FileSystem.{Files}
use elastic_gpu_agent.Plugins.World.{World}
use elastic_gpu_agent.Plugins.PreStart.{finish, save_into, record_devices}

module _ (bolt : BoltDb) (json : Json) where
  -- The record that a call writes: that of the pod, or a new one, with the devices for the
  -- container, and as it was for every other container.
  pub record Writes (db : bolt.Db) (curr : PodContainer) (devices : Device) (p : PodInfo)
      : Type 0 where
    pub old_map : Dict Device
    pub old :
        (load_or_create bolt json curr.namespace curr.name db).container_device_map ≡ some old_map
    pub written : p ≡ record {
      namespace = curr.namespace;
      name = curr.name;
      container_device_map = some (insert curr.container devices old_map);
    }

  pub load_or_create-names :
      (s n : Text) (db : bolt.Db)
      → ((load_or_create bolt json s n db).namespace ≡ s)
        × ((load_or_create bolt json s n db).name ≡ n)
  unfolding load_or_create load set_val new_pi
  load_or_create-names s n db = (ground arith, ground arith)

  pod_eq :
      (s n s' n' : Text) (m : Option (Dict Device))
      → s ≡ s'
      → n ≡ n'
      → ◌≡◌ {A = PodInfo}
          (record { namespace = s; name = n; container_device_map = m })
          (record { namespace = s'; name = n'; container_device_map = m })
  pod_eq s n s' n' m es en =
      ap₂ (λ (a : Text) (b : Text). record { namespace = a; name = b; container_device_map = m }) es
        en

  pub Writes-of :
      (db : bolt.Db) (curr : PodContainer) (devices : Device) (m : Dict Device)
      → (load_or_create bolt json curr.namespace curr.name db).container_device_map ≡ some m
      → Writes db curr devices (record (load_or_create bolt json curr.namespace curr.name db) {
        container_device_map = some (insert curr.container devices m);
      })
  Writes-of db curr devices m e =
      let names = load_or_create-names curr.namespace curr.name db in
      record { old_map = m; old = e; written = pod_eq _ _ _ _ _ names.0 names.1 }

  -- What is written is a valid pod, if the database is one of valid pods, the names are path
  -- segments, and the container's name and the devices are ASCII.
  pub Writes-IsValid :
      (db : bolt.Db) (curr : PodContainer) (devices : Device) (p : PodInfo)
      → Writes db curr devices p
      → IsStore bolt json db
      → IsSegment curr.namespace
      → IsSegment curr.name
      → IsAscii curr.container
      → IsPlainDevice devices
      → IsValid p
  Writes-IsValid db curr devices p wr inv hs hn hc hd =
      let before : IsStorable (some wr.old_map) =
        subst IsStorable wr.old
          (load_or_create-IsValid bolt json curr.namespace curr.name db inv hs hn).storable in
      subst IsValid (sym wr.written) (record {
        namespace = hs;
        name = hn;
        storable = (
          insert-IsMap curr.container devices wr.old_map before.0,
          insert-IsPlain curr.container devices wr.old_map hc hd before.1,
        );
      })

module _ (files : Files) (bolt : BoltDb) (json : Json) where
  open files use {State}
  open bolt use {Db}

  abbrev Agent : Type 0
  Agent = World files bolt

  -- The two ends of a call: the record is saved, or the save failed and the shares are deleted.
  pub data Recorded (undo : State → State) (curr : PodContainer) (devices : Device) (w w' : Agent)
      : Type 0 where
    saved :
        (p : PodInfo) (db' : Db)
        → Writes bolt json w.db curr devices p
        → save bolt json p w.db ≡ (ok tt, db')
        → w' ≡ record w { db = db' }
        → Recorded undo curr devices w w'
    unsaved :
        (p : PodInfo) (e : Error) (db' : Db)
        → Writes bolt json w.db curr devices p
        → save bolt json p w.db ≡ (err e, db')
        → w' ≡ record w { db = db'; fs = undo w.fs }
        → Recorded undo curr devices w w'

  pub record_devices-Recorded :
      (undo : State → State) (curr : PodContainer) (devices : Device) (w w' : Agent)
      → record_devices files bolt json undo curr devices w ≡ (ok tt, w')
      → Recorded undo curr devices w w'
  unfolding record_devices
  record_devices-Recorded undo curr devices w w' e = with_map pif.container_device_map refl e
    where
      pif : PodInfo
      pif = load_or_create bolt json curr.namespace curr.name w.db

      written : Dict Device → PodInfo
      written m = record pif { container_device_map = some (insert curr.container devices m) }

      with_save :
          (m : Dict Device) (r : Result (Unit {0}) × Db)
          → pif.container_device_map ≡ some m
          → save bolt json (written m) w.db ≡ r
          → finish files bolt json undo r w ≡ (ok tt, w')
          → Recorded undo curr devices w w'
      with_save m (ok u, db') o s f =
          saved (written m) db' (Writes-of bolt json w.db curr devices m o) s
            (sym (ap (λ r. r.1) f))
      with_save m (err x, db') o s f =
          unsaved (written m) x db' (Writes-of bolt json w.db curr devices m o) s
            (sym (ap (λ r. r.1) f))

      with_map :
          (o : Option (Dict Device))
          → pif.container_device_map ≡ o
          → save_into files bolt json undo pif curr.container devices o w ≡ (ok tt, w')
          → Recorded undo curr devices w w'
      with_map none g f = absurd (cc)
      with_map (some m) g f = with_save m (save bolt json (written m) w.db) g refl f
