-- ===== src/Plugins/Gc/Steps.antt =====
-- The loop of the collector over the lines, as a sequence of deletions of shares and of records.
use elastic_gpu_agent.Prelude.{ℕ, zero, suc, List, [], ◌∷◌, All, Result, ok, err, continue}
use elastic_gpu_agent.Common.{useless_number}
use elastic_gpu_agent.Types.Json.{Json}
use elastic_gpu_agent.Storage
use elastic_gpu_agent.Storage.{load}
use elastic_gpu_agent.Storage.Bolt.{BoltDb}
use elastic_gpu_agent.Operator.FileSystem.{Files}
use elastic_gpu_agent.Operator.Gpushare
use elastic_gpu_agent.Operator.Gpushare.{sym_path, sym_ctl_path}
use elastic_gpu_agent.Plugins.Share.{share_id}
use elastic_gpu_agent.Plugins.World.{World}
use elastic_gpu_agent.Plugins.Gc.{
  Line, delete_more, further_shares, drop_record, after_first, delete_lines,
}

-- What the deletions of shares and of records keep, the whole loop over the lines keeps.
module _ (files : Files) (bolt : BoltDb) (json : Json) (Q : Line → Type 0)
    (P : World files bolt → Type 0) where
  -- What a deletion of a share keeps, and a deletion of a record.
  pub record IsKept : Type 0 where
    pub share :
        (l : Line) (i : ℕ) (w : World files bolt)
        → Q l
        → P w
        → P (record w {
          fs = (Gpushare.delete files useless_number (share_id l.device.hash i) w.fs).1;
        })
    pub record_of :
        (l : Line) (w : World files bolt)
        → Q l
        → P w
        → P (record w { db = (Storage.delete bolt json l.namespace l.name w.db).1 })

  delete_more-keeps :
      (l : Line) (i n : ℕ) (w : World files bolt)
      → IsKept
      → Q l
      → P w
      → P (record w { fs = (delete_more files l.device.hash i n w.fs).1 })
  unfolding delete_more
  delete_more-keeps l i zero w k q h = h
  delete_more-keeps l i (suc n) w k q h =
      go (Gpushare.delete files useless_number (share_id l.device.hash i) w.fs) (k.share l i w q h)
        (λ w' h'. delete_more-keeps l (suc i) n w' k q h')
    where
      go :
          (r : Result (Unit {0}) × files.State)
          → P (record w { fs = r.1 })
          → ((w' : World files bolt)
              → P w'
              → P (record w' { fs = (delete_more files l.device.hash (suc i) n w'.fs).1 }))
          → P (record w {
            fs = (continue r.0 (λ _. delete_more files l.device.hash (suc i) n) r.1).1;
          })
      go (ok u, s) h' rest = rest (record w { fs = s }) h'
      go (err e, s) h' rest = h'

  drop_record-keeps :
      (l : Line) (r : Result (Unit {0}) × files.State) (w : World files bolt)
      → IsKept
      → Q l
      → P (record w { fs = r.1 })
      → P (drop_record files bolt json l r w)
  unfolding drop_record
  drop_record-keeps l (ok u, s) w k q h = k.record_of l (record w { fs = s }) q h
  drop_record-keeps l (err e, s) w k q h = h

  pub delete_lines-keeps :
      (ls : List Line) (w : World files bolt)
      → IsKept
      → All Q ls
      → P w
      → P (delete_lines files bolt json ls w)
  unfolding delete_lines
  delete_lines-keeps [] w k q h = h
  delete_lines-keeps (l ∷ ls) w k q h =
      go (Gpushare.delete files useless_number (share_id l.device.hash 0) w.fs)
        (k.share l 0 w q.0 h) (λ w' h'. delete_lines-keeps ls w' k q.1 h')
    where
      go :
          (r : Result (Unit {0}) × files.State)
          → P (record w { fs = r.1 })
          → ((w' : World files bolt) → P w' → P (delete_lines files bolt json ls w'))
          → P (after_first files bolt json l r (delete_lines files bolt json ls) w)
      go (ok u, s) h' rest = rest _ (
          drop_record-keeps l _ w k q.0
            (delete_more-keeps l 1 (further_shares l.device) (record w { fs = s }) k q.0 h'))
      go (err e, s) h' rest = h'
