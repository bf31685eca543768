-- ===== src/System/Safety.antt =====
-- What no sequence of actions breaks.
use elastic_gpu_agent.Prelude.{◌≡◌, ◌∙◌, refl, Text}
use elastic_gpu_agent.Types.Json.{Json}
use elastic_gpu_agent.Storage.Bolt.{BoltDb}
use elastic_gpu_agent.Storage.Iteration.{delete-IsStore_always, save-IsStore_always}
use elastic_gpu_agent.Operator.FileSystem.{Files}
use elastic_gpu_agent.Operator.Gpushare.Links.{create-Created}
use elastic_gpu_agent.Plugins.Share.{share_id}
use elastic_gpu_agent.Plugins.PreStart.Shares.{IsShareLink, of_share}
use elastic_gpu_agent.Operator.Gpushare.Removal.{delete-frame}
use elastic_gpu_agent.System.{
  Agent, Action, locates_core, locates_memory, makes_share, removes_share, saves_record,
  drops_record, Actions, rest, then_, IsSound,
}

module _ (files : Files) (bolt : BoltDb) (json : Json) where
  open files use {entry}

  pub Action-IsSound :
      (w v : Agent files bolt json)
      → IsSound files bolt json w
      → Action files bolt json w v
      → IsSound files bolt json v
  Action-IsSound w v h (locates_core k e) = record {
    store = h.store;
    core = e ∙ h.core;
    memory = h.memory;
  }
  Action-IsSound w v h (locates_memory k e) = record {
    store = h.store;
    core = h.core;
    memory = e ∙ h.memory;
  }
  Action-IsSound w v h (makes_share z hash i) = record {
    store = h.store;
    core = h.core;
    memory = h.memory;
  }
  Action-IsSound w v h (removes_share z hash i) = record {
    store = h.store;
    core = h.core;
    memory = h.memory;
  }
  Action-IsSound w v h (saves_record p valid) = record {
    store = save-IsStore_always bolt json p w.db valid h.store;
    core = h.core;
    memory = h.memory;
  }
  Action-IsSound w v h (drops_record s n) = record {
    store = delete-IsStore_always bolt json s n w.db h.store;
    core = h.core;
    memory = h.memory;
  }

  pub Actions-IsSound :
      (w v : Agent files bolt json)
      → IsSound files bolt json w
      → Actions files bolt json w v
      → IsSound files bolt json v
  Actions-IsSound w v h rest = h
  Actions-IsSound w v h (then_ {v = u} as_ a) = Action-IsSound u v (Actions-IsSound w u h as_) a

  -- No action touches an entry that is no link of a share.
  pub Action-entry :
      (w v : Agent files bolt json) (path : Text)
      → ((hash : Text) → ¬ IsShareLink hash path)
      → Action files bolt json w v
      → entry v.fs path ≡ entry w.fs path
  Action-entry w v path n (locates_core k e) = refl
  Action-entry w v path n (locates_memory k e) = refl
  Action-entry w v path n (makes_share z hash i) =
      (create-Created files z (share_id hash i) w.fs).extends.frame path
        (λ l. n hash (of_share i l))
  Action-entry w v path n (removes_share z hash i) =
      delete-frame files z (share_id hash i) path w.fs (λ l. n hash (of_share i l))
  Action-entry w v path n (saves_record p valid) = refl
  Action-entry w v path n (drops_record s m) = refl

  pub Actions-entry :
      (w v : Agent files bolt json) (path : Text)
      → ((hash : Text) → ¬ IsShareLink hash path)
      → Actions files bolt json w v
      → entry v.fs path ≡ entry w.fs path
  Actions-entry w v path n rest = refl
  Actions-entry w v path n (then_ {v = u} as_ a) =
      Action-entry u v path n a ∙ Actions-entry w u path n as_
