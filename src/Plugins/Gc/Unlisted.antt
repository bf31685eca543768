-- ===== src/Plugins/Gc/Unlisted.antt =====
-- Links of shares that no record lists, which the collector never finds.
use elastic_gpu_agent.Prelude.{◌≡◌, refl, ◌∙◌, List, [], ◌∷◌, Text}
use elastic_gpu_agent.Common.{useless_number}
use elastic_gpu_agent.Types.Json.{Json}
use elastic_gpu_agent.Storage.Bolt.{BoltDb}
use elastic_gpu_agent.Storage.Records.{load_after_delete}
use elastic_gpu_agent.Storage.Iteration.{IsStore}
use elastic_gpu_agent.Operator.FileSystem.{Files}
use elastic_gpu_agent.Operator.Gpushare.Links.{IsLinkOf}
use elastic_gpu_agent.Operator.Gpushare.Removal.{delete-frame}
use elastic_gpu_agent.Kube.Sitter.{PodSitter}
use elastic_gpu_agent.Plugins.Share.{share_id}
use elastic_gpu_agent.Plugins.World.{World}
use elastic_gpu_agent.Plugins.PreStart.Replacing.{IsUnlisted}
use elastic_gpu_agent.Plugins.PreStart.Shares.{of_share}
use elastic_gpu_agent.Plugins.Gc.{ℕ, Event, Line, gc}
use elastic_gpu_agent.Plugins.Gc.Lines.{IsGoneLine}
use elastic_gpu_agent.Plugins.Gc.Rounds.{gc-keeps, gc-IsStore, Recorded}

module _ (files : Files) (bolt : BoltDb) (json : Json) where
  -- The collector's events in a row, each with what the lister and the API server say.
  unfoldable pub rounds : List (PodSitter × Event) → World files bolt → World files bolt
  rounds [] w = w
  rounds ((sitter, event) ∷ events) w = rounds events (gc files bolt json sitter event w)

module _ (files : Files) (bolt : BoltDb) (json : Json) (path : Text) where
  open files use {entry}

  -- What holds of the world from `w` on.
  abbrev Left : World files bolt → World files bolt → Type 0
  Left w v = IsUnlisted bolt json path v.db × (entry v.fs path ≡ entry w.fs path)

  gc-Left :
      (sitter : PodSitter) (event : Event) (w : World files bolt)
      → IsStore bolt json w.db
      → IsUnlisted bolt json path w.db
      → Left w (gc files bolt json sitter event w)
  gc-Left sitter event w inv u =
      gc-keeps files bolt json sitter event w (Left w) inv
        (record {
          share = λ l i v q h. (
            h.0,
            delete-frame files useless_number (share_id l.device.hash i) path v.fs (other l i q)
                ∙ h.1,
          );
          record_of = λ l v q h. (
            λ p m c d hp e. h.0 p m c d hp (
                load_after_delete bolt json l.namespace l.name p.namespace p.name p v.db
                  hp.namespace hp.name e),
            h.1,
          );
        })
        (u, refl)
    where
      other :
          (l : Line) (i : ℕ)
          → IsGoneLine sitter (Recorded files bolt json w) l
          → ¬ IsLinkOf (share_id l.device.hash i) path
      other l i q k =
          u q.pod q.devices l.container l.device q.valid q.recorded q.has_devices q.member
            (of_share i k)

  -- An entry that no record lists stays as it is through all the collector's events.
  pub rounds-entry :
      (events : List (PodSitter × Event)) (w : World files bolt)
      → IsStore bolt json w.db
      → IsUnlisted bolt json path w.db
      → entry (rounds files bolt json events w).fs path ≡ entry w.fs path
  unfolding rounds
  rounds-entry [] w inv u = refl
  rounds-entry ((sitter, event) ∷ events) w inv u =
      let (u', e) = gc-Left sitter event w inv u in
      rounds-entry events (gc files bolt json sitter event w)
        (gc-IsStore files bolt json sitter event w inv) u'
      ∙ e
