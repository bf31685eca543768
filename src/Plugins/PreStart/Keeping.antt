-- ===== src/Plugins/PreStart/Keeping.antt =====
-- What a `PreStartContainer` call that saves a record leaves of the other devices in it.
use elastic_gpu_agent.Prelude.{
  ◌≡◌, refl, sym, ap, ◌∙◌, subst, some, inl, inr, Text, arith, Dict, insert, lookup, lookup-insert,
  text_eq, text_eq_iff, Bool-cases, Result, ok, err,
}
use elastic_gpu_agent.Go.FilePath.{IsSegment}
use elastic_gpu_agent.Types.Json.{Json}
use elastic_gpu_agent.Types.Device.{Device}
use elastic_gpu_agent.Types.Pod.{val, key, PodContainer, PodInfo}
use elastic_gpu_agent.Types.Pod.RoundTrip.{IsValid}
use elastic_gpu_agent.Storage.{save, load, load_or_create}
use elastic_gpu_agent.Storage.Bolt.{BoltDb}
use elastic_gpu_agent.Storage.Records.{load-save, same_pod}
use elastic_gpu_agent.Plugins.PreStart.Record.{Writes}

module _ (bolt : BoltDb) (json : Json) (s n c : Text) (d : Device) where
  open bolt use {Db}

  -- The record of the pod loads, and has the device for the container.
  pub record HasDevice (db : Db) : Type 0 where
    pub pod : PodInfo
    pub loads : load bolt json s n db ≡ ok pod
    pub devices : Dict Device
    pub has_devices : pod.container_device_map ≡ some devices
    pub listed : lookup c devices ≡ some d

  -- A device for a container does not replace ours: it is for another one, or it is the same device.
  abbrev pub IsNoOther : PodContainer → Device → Type 0
  IsNoOther curr devices = curr.namespace ≡ s → curr.name ≡ n → curr.container ≡ c → devices ≡ d

  -- What a call writes for the same pod still has the device.
  written_HasDevice :
      (db db' : Db) (curr : PodContainer) (devices : Device) (p : PodInfo)
      → Writes bolt json db curr devices p
      → IsNoOther curr devices
      → p.namespace ≡ s
      → p.name ≡ n
      → load bolt json s n db' ≡ ok p
      → HasDevice db
      → HasDevice db'
  unfolding load_or_create
  written_HasDevice db db' curr devices p wr no_other es en l h = record {
    pod = p;
    loads = l;
    devices = insert curr.container devices h.devices;
    has_devices =
        ap (λ (q : PodInfo). q.container_device_map) wr.written
        ∙ ap (λ m. some (insert curr.container devices m)) same_map;
    listed =
        lookup-insert curr.container c devices h.devices
        ∙ elim (Bool-cases (text_eq curr.container c)) [
          | inl ours ↦
              rw ours (ap some (no_other namespaces names ((text_eq_iff curr.container c).0 ours)))
          | inr theirs ↦ rw theirs h.listed
        ];
  }
    where
      namespaces : curr.namespace ≡ s
      namespaces = sym (ap (λ (q : PodInfo). q.namespace) wr.written) ∙ es

      names : curr.name ≡ n
      names = sym (ap (λ (q : PodInfo). q.name) wr.written) ∙ en

      old_pod : load_or_create bolt json curr.namespace curr.name db ≡ h.pod
      old_pod = rw (namespaces, names) (rw (h.loads, load_or_create) refl)

      same_map : wr.old_map ≡ h.devices
      same_map =
          cc (sym wr.old ∙ ap (λ (q : PodInfo). q.container_device_map) old_pod ∙ h.has_devices)

  pub save-HasDevice :
      (db : Db) (curr : PodContainer) (devices : Device) (p : PodInfo)
      → Writes bolt json db curr devices p
      → IsValid p
      → IsSegment s
      → IsSegment n
      → IsNoOther curr devices
      → HasDevice db
      → HasDevice (save bolt json p db).1
  save-HasDevice db curr devices p wr hp hs hn no_other h =
      go (bolt.put db (key p) (val json p)) refl
    where
      go :
          (r : Result Db) → bolt.put db (key p) (val json p) ≡ r → HasDevice (save bolt json p db).1
      go (err e) f = unfold save in rw f h
      go (ok db') f =
          let done : save bolt json p db ≡ (ok tt, db') = unfold save in rw f refl in
          let loaded = load-save bolt json p s n db db' hp hs hn done in
          subst (λ (r : Result (Unit {0}) × Db). HasDevice r.1) (sym done)
            (elim (Bool-cases (same_pod p.namespace p.name s n)) [
              | inl same ↦
                  written_HasDevice db db' curr devices p wr no_other
                    (ground (arith, same, text_eq_iff p.namespace s))
                    (ground (arith, same, text_eq_iff p.name n)) (loaded ∙ rw same refl) h
              | inr differ ↦ record {
                pod = h.pod;
                loads = loaded ∙ rw differ h.loads;
                devices = h.devices;
                has_devices = h.has_devices;
                listed = h.listed;
              }
            ])
