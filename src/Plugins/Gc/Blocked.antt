-- ===== src/Plugins/Gc/Blocked.antt =====
-- What a share that is missing does to the collector.
use elastic_gpu_agent.Prelude.{
  ◌≡◌, refl, none, inl, inr, List, ◌∷◌, Bool-cases, Text, Result, err, Error,
}
use elastic_gpu_agent.Common.{useless_number}
use elastic_gpu_agent.Types.Json.{Json}
use elastic_gpu_agent.Storage.Bolt.{BoltDb}
use elastic_gpu_agent.Operator.FileSystem.{Files}
use elastic_gpu_agent.Operator.Gpushare
use elastic_gpu_agent.Operator.Gpushare.{sym_path}
use elastic_gpu_agent.Operator.Gpushare.Removal.{Removed, nothing, half, both, delete-Removed}
use elastic_gpu_agent.Kube.Sitter.{PodSitter}
use elastic_gpu_agent.Plugins.Share.{share_id}
use elastic_gpu_agent.Plugins.World.{World}
use elastic_gpu_agent.Plugins.Gc.{Event, Line, starts, delete_lines, after_first, round, gc}
use elastic_gpu_agent.Plugins.Gc.Progress.{lines_in}

module _ (files : Files) (bolt : BoltDb) (json : Json) where
  open files use {State, entry, remove, remove_present}

  delete_missing :
      (id : Text) (s : State)
      → entry s (sym_path id) ≡ none
      → (e : Error) × (Gpushare.delete files useless_number id s ≡ (err e, s))
  delete_missing id s n = go _ (delete-Removed files useless_number id s) refl
    where
      go :
          (r : Result (Unit {0}) × State)
          → Removed files id s r
          → Gpushare.delete files useless_number id s ≡ r
          → (e : Error) × (Gpushare.delete files useless_number id s ≡ (err e, s))
      go r (nothing e g) f = (e, f)
      go r (half e t g h) f = absurd (remove_present s t (sym_path id) g n)
      go r (both t u g h) f = absurd (remove_present s t (sym_path id) g n)

  delete_lines-missing :
      (l : Line) (ls : List Line) (w : World files bolt)
      → entry w.fs (sym_path (share_id l.device.hash 0)) ≡ none
      → delete_lines files bolt json (l ∷ ls) w ≡ w
  unfolding delete_lines after_first
  delete_lines-missing l ls w n =
      let (e, f) = delete_missing (share_id l.device.hash 0) w.fs n in rw f refl

  -- If the first link of the first device that a round finds to delete is missing, the collector
  -- does nothing, whatever other pods are gone: neither a link nor a record is removed after any
  -- event, so that the next event finds the same.
  pub gc_blocked :
      (sitter : PodSitter) (event : Event) (w : World files bolt) (l : Line) (ls : List Line)
      → lines_in files bolt json sitter w ≡ l ∷ ls
      → entry w.fs (sym_path (share_id l.device.hash 0)) ≡ none
      → gc files bolt json sitter event w ≡ w
  unfolding gc round
  gc_blocked sitter event w l ls e n = elim (Bool-cases (starts event)) [
    | inl t ↦ rw (t, e) (delete_lines-missing l ls w n)
    | inr f ↦ rw f refl
  ]
