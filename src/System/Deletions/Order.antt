-- ===== src/System/Deletions/Order.antt =====
-- What the collector receives of the deletions, and what a run of the node does to the agent.
use elastic_gpu_agent.Prelude.{
  ◌≤◌, ◌≡◌, ◌∙◌, some, List, [], ◌∷◌, ◌++◌, Text, arith, append_assoc, length,
}
use elastic_gpu_agent.Types.Json.{Json}
use elastic_gpu_agent.Storage.Bolt.{BoltDb}
use elastic_gpu_agent.Operator.FileSystem.{Files}
use elastic_gpu_agent.Kube.Sitter.{Cluster, Object}
use elastic_gpu_agent.System.{
  Agent, Reached, start, later, core_starts, memory_starts, collects, IsSound,
}
use elastic_gpu_agent.System.Runs.{Reached-IsSound}
use elastic_gpu_agent.Manager.{gc_chan_cap, send, manager_sitter}
use elastic_gpu_agent.System.Deletions.{
  NodeState, Turn, sends, receives, Happens, deletes, turns, times_out, starts_core, starts_memory,
  Steps, here, next,
}

-- A send that is done puts the object behind the others, and there was room for it.
pub send-some :
    (obj : Object) (chan chan' : List Object)
    → send obj chan ≡ some chan'
    → (chan' ≡ chan ++ obj ∷ []) × (length chan' ≤ gc_chan_cap)
unfolding send
send-some obj [] chan' e = ground arith
send-some obj (o ∷ chan) chan' e = ground arith

module _ (files : Files) (bolt : BoltDb) (json : Json) (selector : Text → Text → Text)
    (node_name : Text) where
  -- The deletions are received, in the channel, or pending, in their order.
  pub record IsOrdered (s : NodeState files bolt json selector node_name) : Type 0 where
    pub order : s.announced ≡ s.received ++ s.gc_chan ++ s.pending
    pub fits : length s.gc_chan ≤ gc_chan_cap

  pub Turn-IsOrdered :
      (cluster : Cluster) (s t : NodeState files bolt json selector node_name)
      → IsOrdered s
      → Turn files bolt json selector node_name cluster s t
      → IsOrdered t
  unfolding manager_sitter
  Turn-IsOrdered cluster s t h (sends obj rest chan e g) =
      let (last, fits) = send-some obj s.gc_chan chan g in
      record { order = h.order ∙ simp (e, last, append_assoc); fits = fits }
  Turn-IsOrdered cluster s t h (receives obj rest e) = record {
    order = h.order ∙ simp (e, append_assoc);
    fits = ground (arith, h.fits, e);
  }

  Happens-IsOrdered :
      (s t : NodeState files bolt json selector node_name)
      → IsOrdered s
      → Happens files bolt json selector node_name s t
      → IsOrdered t
  Happens-IsOrdered s t h (deletes obj) = record {
    order = simp (h.order, append_assoc);
    fits = h.fits;
  }
  Happens-IsOrdered s t h (turns cluster m) = Turn-IsOrdered cluster s t h m
  Happens-IsOrdered s t h (times_out cluster) = record { order = h.order; fits = h.fits }
  Happens-IsOrdered s t h (starts_core k cluster ids n a) = record {
    order = h.order;
    fits = h.fits;
  }
  Happens-IsOrdered s t h (starts_memory k cluster ids n a) = record {
    order = h.order;
    fits = h.fits;
  }

  Steps-IsOrdered :
      (s t : NodeState files bolt json selector node_name)
      → IsOrdered s
      → Steps files bolt json selector node_name s t
      → IsOrdered t
  Steps-IsOrdered s t h here = h
  Steps-IsOrdered s t h (next {t = u} r m) = Happens-IsOrdered u t (Steps-IsOrdered s u h r) m

  Turn-Reached :
      (cluster : Cluster) (w : Agent files bolt json)
      (s t : NodeState files bolt json selector node_name)
      → Reached files bolt json w s.agent
      → Turn files bolt json selector node_name cluster s t
      → Reached files bolt json w t.agent
  Turn-Reached cluster w s t r (sends obj rest chan e g) = r
  Turn-Reached cluster w s t r (receives obj rest e) = later r (collects _ _)

  Happens-Reached :
      (w : Agent files bolt json) (s t : NodeState files bolt json selector node_name)
      → Reached files bolt json w s.agent
      → Happens files bolt json selector node_name s t
      → Reached files bolt json w t.agent
  Happens-Reached w s t r (deletes obj) = r
  Happens-Reached w s t r (turns cluster m) = Turn-Reached cluster w s t r m
  Happens-Reached w s t r (times_out cluster) = later r (collects _ _)
  Happens-Reached w s t r (starts_core k cluster ids n a) = later r (core_starts k _ ids n a)
  Happens-Reached w s t r (starts_memory k cluster ids n a) = later r (memory_starts k _ ids n a)

  Steps-Reached :
      (s t : NodeState files bolt json selector node_name)
      → Steps files bolt json selector node_name s t
      → Reached files bolt json s.agent t.agent
  Steps-Reached s t here = start
  Steps-Reached s t (next {t = u} r m) = Happens-Reached s.agent u t (Steps-Reached s u r) m

  -- However deletions, turns of the handler and the collector, the timer and starts of containers
  -- follow each other, where no deletion has been announced before and the agent is sound: the
  -- deletions that the collector has received, those in the channel and those that the informer has
  -- still to pass on are together all that were announced, in their order, so that none is lost,
  -- doubled or overtaken; the channel holds one at most; and the agent is sound.
  pub Steps-IsDelivered :
      (s t : NodeState files bolt json selector node_name)
      → IsOrdered s
      → IsSound files bolt json s.agent
      → Steps files bolt json selector node_name s t
      → IsOrdered t × IsSound files bolt json t.agent
  Steps-IsDelivered s t h g r = (
    Steps-IsOrdered s t h r,
    Reached-IsSound files bolt json s.agent t.agent g (Steps-Reached s t r),
  )
