-- ===== src/System/Runs.antt =====
-- Any sequence of calls of the agent.
use elastic_gpu_agent.Prelude.{◌≡◌, ◌∙◌, refl, Text}
use elastic_gpu_agent.Types.Json.{Json}
use elastic_gpu_agent.Storage.Bolt.{BoltDb}
use elastic_gpu_agent.Operator.FileSystem.{Files}
use elastic_gpu_agent.Plugins.PreStart.Shares.{IsShareLink}
use elastic_gpu_agent.System.{Agent, Reached, start, later, IsSound}
use elastic_gpu_agent.System.Safety.{Actions-IsSound, Actions-entry}
use elastic_gpu_agent.System.Handlers.{Call-Actions}

module _ (files : Files) (bolt : BoltDb) (json : Json) where
  open files use {entry}

  -- However the kubelet and the collector's events call the agent, from a sound state every state
  -- that is reached is sound: each record of the database is that of a valid pod under its own key,
  -- and each plugin's locator still asks for the plugin's resource. Calls may fail anywhere.
  pub Reached-IsSound :
      (w v : Agent files bolt json)
      → IsSound files bolt json w
      → Reached files bolt json w v
      → IsSound files bolt json v
  Reached-IsSound w v h start = h
  Reached-IsSound w v h (later {v = u} r s) =
      let g = Reached-IsSound w u h r in
      Actions-IsSound files bolt json u v g (Call-Actions files bolt json u v g s)

  -- However the kubelet and the collector's events call the agent, from a sound state, an entry of
  -- the file system that is no link of a share is what it was: neither a GPU's device nor any other
  -- file is made, changed or removed. Calls may fail anywhere.
  pub Reached-entry :
      (w v : Agent files bolt json) (path : Text)
      → IsSound files bolt json w
      → ((hash : Text) → ¬ IsShareLink hash path)
      → Reached files bolt json w v
      → entry v.fs path ≡ entry w.fs path
  Reached-entry w v path h n start = refl
  Reached-entry w v path h n (later {v = u} r s) =
      let g = Reached-IsSound w u h r in
      Actions-entry files bolt json u v path n (Call-Actions files bolt json u v g s)
      ∙ Reached-entry w u path h n r
