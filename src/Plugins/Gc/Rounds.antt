-- ===== src/Plugins/Gc/Rounds.antt =====
-- What a round of the collector deletes, and what it leaves alone.
use elastic_gpu_agent.Prelude.{
  ℕ, ◌≡◌, inl, inr, refl, sym, ◌∙◌, true, false, some, List, [], arith, Text, text_eq_iff, All,
  Member, Result, ok, Dict, Bool-cases, subst,
}
use elastic_gpu_agent.Common.{useless_number}
use elastic_gpu_agent.Go.FilePath.{IsSegment}
use elastic_gpu_agent.Types.Json.{Json}
use elastic_gpu_agent.Types.Device.{Device}
use elastic_gpu_agent.Types.Pod.{PodInfo}
use elastic_gpu_agent.Storage
use elastic_gpu_agent.Storage.{load}
use elastic_gpu_agent.Storage.Bolt.{BoltDb}
use elastic_gpu_agent.Storage.Records.{load-delete_other, same_pod, ArePods}
use elastic_gpu_agent.Storage.Iteration.{IsStore, delete-IsStore_always, for_each-Visits}
use elastic_gpu_agent.Operator.FileSystem.{Files}
use elastic_gpu_agent.Operator.Gpushare.Links.{IsLinkOf}
use elastic_gpu_agent.Operator.Gpushare.Removal.{delete-frame}
use elastic_gpu_agent.Kube.Sitter.{PodSitter}
use elastic_gpu_agent.Plugins.Share.{share_id}
use elastic_gpu_agent.Plugins.World.{World}
use elastic_gpu_agent.Plugins.Gc.{Event, Line, starts, is_gone, collect, round, gc}
use elastic_gpu_agent.Plugins.Gc.Lines.{IsGoneLine, visit-gone}
use elastic_gpu_agent.Plugins.Gc.Steps.{IsKept, delete_lines-keeps}

module _ (files : Files) (bolt : BoltDb) (json : Json) where
  open files use {State, entry, entry-remove}
  open bolt use {Db}

  -- The record of a pod, as `Load` gives it.
  abbrev pub Recorded : World files bolt → PodInfo → Type 0
  Recorded w p = load bolt json p.namespace p.name w.db ≡ ok p

  collected-gone :
      (sitter : PodSitter) (w : World files bolt)
      → IsStore bolt json w.db
      → All (IsGoneLine sitter (Recorded w)) (Storage.for_each bolt json (collect sitter) w.db []).1
  collected-gone sitter w inv =
      let v = for_each-Visits bolt json w.db inv in
      subst (λ (r : Result (Unit {0}) × List Line). All (IsGoneLine sitter (Recorded w)) r.1)
        (sym (v.run (collect sitter) []))
        (visit-gone sitter (Recorded w) v.pods [] v.valid (λ p h m. (v.exact p h).0 m) tt)

  -- An event of the collector keeps what its deletions keep.
  pub gc-keeps :
      (sitter : PodSitter) (event : Event) (w : World files bolt) (P : World files bolt → Type 0)
      → IsStore bolt json w.db
      → IsKept files bolt json (IsGoneLine sitter (Recorded w)) P
      → P w
      → P (gc files bolt json sitter event w)
  unfolding gc round
  gc-keeps sitter event w P inv k h = elim (Bool-cases (starts event)) [
    | inl t ↦ rw t (
        delete_lines-keeps files bolt json (IsGoneLine sitter (Recorded w)) P _ w k
          (collected-gone sitter w inv) h)
    | inr f ↦ rw f h
  ]

  -- After an event of the collector, whatever calls fail in it, a database of valid pods is still
  -- one.
  pub gc-IsStore :
      (sitter : PodSitter) (event : Event) (w : World files bolt)
      → IsStore bolt json w.db
      → IsStore bolt json (gc files bolt json sitter event w).db
  gc-IsStore sitter event w inv =
      gc-keeps sitter event w (λ w'. IsStore bolt json w'.db) inv
        (record {
          share = λ l i w' q h. h;
          record_of = λ l w' q h. delete-IsStore_always bolt json l.namespace l.name w'.db h;
        })
        inv

  -- The collector never drops the record of a pod that the lister has, or of which the API server
  -- does not say that it is missing: in a database of valid pods such a pod, with path segments for
  -- its names, loads after an event as it did before, whatever calls fail.
  pub gc-load :
      (sitter : PodSitter) (event : Event) (w : World files bolt) (s n : Text)
      → IsStore bolt json w.db
      → IsSegment s
      → IsSegment n
      → is_gone sitter s n ≡ false
      → load bolt json s n (gc files bolt json sitter event w).db ≡ load bolt json s n w.db
  gc-load sitter event w s n inv hs hn here =
      gc-keeps sitter event w (λ w'. load bolt json s n w'.db ≡ load bolt json s n w.db) inv
        (record {
          share = λ l i w' q h. h;
          record_of = λ l w' q h.
              load-delete_other bolt json l.namespace l.name s n w'.db (pods l q) (other l q) ∙ h;
        })
        refl
    where
      pods : (l : Line) → IsGoneLine sitter (Recorded w) l → ArePods l.namespace l.name s n
      pods l q = record {
        namespace = subst IsSegment (sym q.namespace) q.valid.namespace;
        name = subst IsSegment (sym q.name) q.valid.name;
        namespace' = hs;
        name' = hn;
      }

      other :
          (l : Line) → IsGoneLine sitter (Recorded w) l → same_pod l.namespace l.name s n ≡ false
      other l q = ground (
        arith,
        q.gone,
        here,
        q.namespace,
        q.name,
        text_eq_iff l.namespace s,
        text_eq_iff l.name n,
      )

  -- A path is a link of a share of a device that the record of a gone pod lists.
  pub data IsCollectable (sitter : PodSitter) (w : World files bolt) (path : Text) : Type 0 where
    collectable :
        (p : PodInfo) (m : Dict Device) (container : Text) (device : Device) (i : ℕ)
        → Recorded w p
        → is_gone sitter p.namespace p.name ≡ true
        → p.container_device_map ≡ some m
        → Member (container, device) m
        → IsLinkOf (share_id device.hash i) path
        → IsCollectable sitter w path

  -- The collector touches no other file: in a database of valid pods, an entry that is not a link
  -- of a share of a device in the record of a gone pod is the same after an event, whatever calls
  -- fail.
  pub gc-entry :
      (sitter : PodSitter) (event : Event) (w : World files bolt) (path : Text)
      → IsStore bolt json w.db
      → ¬ IsCollectable sitter w path
      → entry (gc files bolt json sitter event w).fs path ≡ entry w.fs path
  gc-entry sitter event w path inv n =
      gc-keeps sitter event w (λ w'. entry w'.fs path ≡ entry w.fs path) inv
        (record {
          share = λ l i w' q h.
              delete-frame files useless_number (share_id l.device.hash i) path w'.fs (other l i q)
              ∙ h;
          record_of = λ l w' q h. h;
        })
        refl
    where
      other :
          (l : Line) (i : ℕ)
          → IsGoneLine sitter (Recorded w) l
          → ¬ IsLinkOf (share_id l.device.hash i) path
      other l i q k = n (
          collectable q.pod q.devices l.container l.device i q.recorded q.gone q.has_devices
            q.member k)
