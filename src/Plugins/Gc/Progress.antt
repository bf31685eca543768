-- ===== src/Plugins/Gc/Progress.antt =====
-- What becomes of the records of gone pods.
use elastic_gpu_agent.Prelude.{
  ℕ, ◌<◌, ◌≡◌, sym, ap, ◌∙◌, subst, true, some, ◌++◌, List, [], ◌∷◌, Text, ok, err, no_such_key,
  All, Member, first, later, Dict,
}
use elastic_gpu_agent.Types.Device.{Device}
use elastic_gpu_agent.Types.Json.{Json}
use elastic_gpu_agent.Types.Pod.{PodInfo}
use elastic_gpu_agent.Types.Pod.RoundTrip.{IsValid}
use elastic_gpu_agent.Storage
use elastic_gpu_agent.Storage.{load, found}
use elastic_gpu_agent.Storage.Bolt.{BoltDb}
use elastic_gpu_agent.Storage.Iteration.{IsStore, for_each-Visits}
use elastic_gpu_agent.Storage.Records.{load-found, found-none}
use elastic_gpu_agent.Operator.FileSystem.{Files}
use elastic_gpu_agent.Operator.Gpushare.Removal.{IsAbsent, IsRemovable}
use elastic_gpu_agent.Kube.Sitter.{PodSitter}
use elastic_gpu_agent.Plugins.Share.{share_id}
use elastic_gpu_agent.Plugins.World.{World}
use elastic_gpu_agent.Plugins.Gc.{Event, Line, starts, is_gone, collect, round, gc}
use elastic_gpu_agent.Plugins.Gc.Lines.{line_of, Member-visit}
use elastic_gpu_agent.Plugins.Gc.Completion.{
  IsDroppable, AreIntact, IsCleared, allocated, delete_lines-IsCleared,
}

All-Member : {A : Type 0} (P : A → Type 0) (x : A) (l : List A) → All P l → Member x l → P x
All-Member P x [] h m = elim m [ ]
All-Member P x (y ∷ l) h first = h.0
All-Member P x (y ∷ l) h (later m) = All-Member P x l h.1 m

module _ (files : Files) (bolt : BoltDb) (json : Json) where
  -- The lines that a round collects.
  abbrev pub lines_in : PodSitter → World files bolt → List Line
  lines_in sitter w = (Storage.for_each bolt json (collect sitter) w.db []).1

  gc-IsCleared :
      (sitter : PodSitter) (event : Event) (w : World files bolt)
      → starts event ≡ true
      → IsRemovable files
      → IsDroppable bolt
      → AreIntact files bolt json (lines_in sitter w) w.fs
      → All
          (λ l. IsCleared files bolt json l (gc files bolt json sitter event w))
          (lines_in sitter w)
  unfolding gc round
  gc-IsCleared sitter event w t r d i =
      rw t (delete_lines-IsCleared files bolt json (lines_in sitter w) w r d i)

  -- The record of a pod is gone, and so are the links of each share that `Allocate` mounts for a
  -- device.
  pub record IsCollected (p : PodInfo) (c : Text) (d : Device) (w : World files bolt) : Type 0 where
    pub forgotten :
        load bolt json p.namespace p.name w.db ≡ err (no_such_key (p.namespace ++ b'/' ∷ p.name))
    pub unlinked : (k : ℕ) → k < allocated d → IsAbsent files (share_id d.hash k) w.fs

  -- Where what stands can be removed and any key can be deleted, a round of the collector, whatever
  -- event starts it, clears every pod that is gone: in a database of valid pods, if the shares of
  -- all the lines that the round collects stand, and the lines are of devices with distinct hashes
  -- without a dash, then for each valid pod whose record loads, which is gone, and each device that
  -- its record lists, the record is gone after the event, and so are the links of each share that
  -- `Allocate` mounts for the device.
  pub gc-IsCollected :
      (sitter : PodSitter) (event : Event) (w : World files bolt) (p : PodInfo) (m : Dict Device)
      (c : Text) (d : Device)
      → starts event ≡ true
      → IsStore bolt json w.db
      → IsRemovable files
      → IsDroppable bolt
      → AreIntact files bolt json (lines_in sitter w) w.fs
      → IsValid p
      → load bolt json p.namespace p.name w.db ≡ ok p
      → is_gone sitter p.namespace p.name ≡ true
      → p.container_device_map ≡ some m
      → Member (c, d) m
      → IsCollected p c d (gc files bolt json sitter event w)
  gc-IsCollected sitter event w p m c d t inv r dr i hp l g e k =
      let v = for_each-Visits bolt json w.db inv in
      let listed : Member (line_of p c d) (lines_in sitter w) =
        subst (λ x. Member (line_of p c d) x.1) (sym (v.run (collect sitter) []))
          (Member-visit sitter p c d m v.pods [] ((v.exact p hp).1 l) g e k) in
      let cleared =
        All-Member (λ x. IsCleared files bolt json x (gc files bolt json sitter event w))
          (line_of p c d) (lines_in sitter w) (gc-IsCleared sitter event w t r dr i) listed in
      record {
        forgotten =
            load-found bolt json p.namespace p.name _ hp.namespace hp.name
            ∙ ap (found bolt json _) cleared.dropped
            ∙ found-none bolt json p.namespace p.name hp.namespace hp.name;
        unlinked = cleared.shares;
      }
