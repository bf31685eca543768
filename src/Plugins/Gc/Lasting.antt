-- ===== src/Plugins/Gc/Lasting.antt =====
-- What a round of the collector leaves as an earlier one made it.
use elastic_gpu_agent.Prelude.{
  ◌≡◌, refl, sym, ◌∙◌, subst, true, ◌++◌, ◌∷◌, Text, Result, ok, err, no_such_key, Bool-cases, inl,
  inr,
}
use elastic_gpu_agent.Common.{useless_number}
use elastic_gpu_agent.Go.FilePath.{IsSegment}
use elastic_gpu_agent.Types.Device.{Device}
use elastic_gpu_agent.Types.Json.{Json}
use elastic_gpu_agent.Types.Pod.{PodInfo}
use elastic_gpu_agent.Types.Pod.RoundTrip.{IsValid}
use elastic_gpu_agent.Storage
use elastic_gpu_agent.Storage.{load}
use elastic_gpu_agent.Storage.Bolt.{BoltDb}
use elastic_gpu_agent.Storage.Iteration.{IsStore}
use elastic_gpu_agent.Storage.Records.{load-delete, load-delete_other, same_pod, ArePods}
use elastic_gpu_agent.Operator.FileSystem.{Files}
use elastic_gpu_agent.Operator.Gpushare.{sym_path, sym_ctl_path}
use elastic_gpu_agent.Operator.Gpushare.Removal.{delete-none}
use elastic_gpu_agent.Kube.Sitter.{PodSitter}
use elastic_gpu_agent.Plugins.Share.{share_id}
use elastic_gpu_agent.Plugins.World.{World}
use elastic_gpu_agent.Plugins.Gc.{Event, gc}
use elastic_gpu_agent.Plugins.Gc.Rounds.{gc-keeps}
use elastic_gpu_agent.Plugins.Gc.Progress.{IsCollected}

module _ (bolt : BoltDb) (json : Json) where
  open bolt use {Db, remove}

  -- The record of a pod is missing.
  abbrev IsForgotten : Text → Text → Db → Type 0
  IsForgotten s n db = load bolt json s n db ≡ err (no_such_key (s ++ b'/' ∷ n))

  delete-IsForgotten :
      (s n s' n' : Text) (db : Db)
      → ArePods s n s' n'
      → IsForgotten s' n' db
      → IsForgotten s' n' (Storage.delete bolt json s n db).1
  delete-IsForgotten s n s' n' db h g = elim (Bool-cases (same_pod s n s' n')) [
    | inr other ↦ load-delete_other bolt json s n s' n' db h other ∙ g
    | inl same ↦ go same (remove db (s ++ b'/' ∷ n)) refl
  ]
    where
      go :
          same_pod s n s' n' ≡ true
          → (r : Result Db) → remove db (s ++ b'/' ∷ n) ≡ r
          → IsForgotten s' n' (Storage.delete bolt json s n db).1
      go same (ok db') e =
          let deleted : Storage.delete bolt json s n db ≡ (ok tt, db') =
            unfold Storage.delete in rw e in
          rw deleted (load-delete bolt json s n s' n' db db' h deleted ∙ rw same refl)
      go same (err x) e = unfold Storage.delete in rw e g

module _ (files : Files) (bolt : BoltDb) (json : Json) where
  open files use {entry}

  -- What is collected stays so in every further round, whatever calls fail in it.
  pub gc-IsCollected_again :
      (sitter : PodSitter) (event : Event) (p : PodInfo) (c : Text) (d : Device)
      (w : World files bolt)
      → IsStore bolt json w.db
      → IsValid p
      → IsCollected files bolt json p c d w
      → IsCollected files bolt json p c d (gc files bolt json sitter event w)
  gc-IsCollected_again sitter event p c d w inv hp h =
      gc-keeps files bolt json sitter event w (IsCollected files bolt json p c d) inv
        (record {
          share = λ l i w' q g. record {
            forgotten = g.forgotten;
            unlinked = λ k lt. (
              delete-none files useless_number (share_id l.device.hash i)
                  (sym_path (share_id d.hash k)) w'.fs (g.unlinked k lt).0,
              delete-none files useless_number (share_id l.device.hash i)
                  (sym_ctl_path (share_id d.hash k)) w'.fs (g.unlinked k lt).1,
            );
          };
          record_of = λ l w' q g. record {
            forgotten =
                delete-IsForgotten bolt json l.namespace l.name p.namespace p.name w'.db
                  (record {
                    namespace = subst IsSegment (sym q.namespace) q.valid.namespace;
                    name = subst IsSegment (sym q.name) q.valid.name;
                    namespace' = hp.namespace;
                    name' = hp.name;
                  })
                  g.forgotten;
            unlinked = g.unlinked;
          };
        })
        h
