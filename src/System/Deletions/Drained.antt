-- ===== src/System/Deletions/Drained.antt =====
-- What becomes of a deletion that is on its way.
use elastic_gpu_agent.Prelude.{
  ℕ, suc, ◌+◌, ◌≡◌, ◌≢◌, ◌⊎◌, inl, inr, refl, sym, ap, subst, true, some, List, [], ◌∷◌, ◌++◌, Text,
  arith, length, length-append, ok, Member, Dict,
}
use elastic_gpu_agent.Types.Device.{Device}
use elastic_gpu_agent.Types.Json.{Json}
use elastic_gpu_agent.Types.Pod.{PodInfo}
use elastic_gpu_agent.Types.Pod.RoundTrip.{IsValid}
use elastic_gpu_agent.Storage.{load}
use elastic_gpu_agent.Storage.Bolt.{BoltDb}
use elastic_gpu_agent.Storage.Iteration.{IsStore}
use elastic_gpu_agent.Operator.FileSystem.{Files}
use elastic_gpu_agent.Operator.Gpushare.Removal.{IsRemovable}
use elastic_gpu_agent.Kube.Sitter.{
  Cluster, Object, PodSitter, pod_pointer, deleted_final_state_unknown,
}
use elastic_gpu_agent.Plugins.Gc.{starts, event_of, is_gone, gc}
use elastic_gpu_agent.Plugins.Gc.Completion.{IsDroppable, AreIntact}
use elastic_gpu_agent.Plugins.Gc.Rounds.{gc-IsStore}
use elastic_gpu_agent.Plugins.Gc.Progress.{lines_in, IsCollected, gc-IsCollected}
use elastic_gpu_agent.Plugins.Gc.Lasting.{gc-IsCollected_again}
use elastic_gpu_agent.System.{Agent}
use elastic_gpu_agent.Manager.{send, manager_sitter}
use elastic_gpu_agent.System.Deletions.{
  NodeState, Turn, sends, receives, Turns, none_yet, another, turns_left,
}
use elastic_gpu_agent.System.Deletions.Order.{send-some}

-- What the informer passes is never a pod by value, so that the annotation is never asked for.
starts-event_of : (obj : Object) → starts (event_of obj) ≡ true
unfolding event_of starts
starts-event_of (pod_pointer pod) = refl
starts-event_of (deleted_final_state_unknown k pod) = refl

module _ (files : Files) (bolt : BoltDb) (json : Json) where
  -- A round on an agent clears the device of a pod that is gone: what stands can be removed, any key
  -- can be deleted, the shares of all the lines that the round collects stand, and the lines are of
  -- devices with distinct hashes without a dash.
  pub record IsClearable (sitter : PodSitter) (w : Agent files bolt json) (p : PodInfo) (c : Text)
      (d : Device) : Type 0 where
    pub store : IsStore bolt json w.db
    pub removable : IsRemovable files
    pub droppable : IsDroppable bolt
    pub intact : AreIntact files bolt json (lines_in files bolt json sitter w) w.fs
    pub valid : IsValid p
    pub recorded : load bolt json p.namespace p.name w.db ≡ ok p
    pub gone : is_gone sitter p.namespace p.name ≡ true
    pub devices : Dict Device
    pub has_devices : p.container_device_map ≡ some devices
    pub listed : Member (c, d) devices

  gc-clears :
      (sitter : PodSitter) (obj : Object) (w : Agent files bolt json) (p : PodInfo) (c : Text)
      (d : Device)
      → IsClearable sitter w p c d
      → IsCollected files bolt json p c d (gc files bolt json sitter (event_of obj) w)
  gc-clears sitter obj w p c d h =
      gc-IsCollected files bolt json sitter (event_of obj) w p h.devices c d (starts-event_of obj)
        h.store h.removable h.droppable h.intact h.valid h.recorded h.gone h.has_devices h.listed

module _ (files : Files) (bolt : BoltDb) (json : Json) (selector : Text → Text → Text)
    (node_name : Text) (cluster : Cluster) where
  -- A turn that is done is one less to do.
  turns_left-Turn :
      (s t : NodeState files bolt json selector node_name)
      → Turn files bolt json selector node_name cluster s t
      → suc (turns_left files bolt json selector node_name t)
        ≡ turns_left files bolt json selector node_name s
  unfolding turns_left manager_sitter
  turns_left-Turn s t (sends obj rest chan e g) =
      let last = (send-some obj s.gc_chan chan g).0 in
      omega (
        arith,
        ap (length {A = Object}) e,
        ap (length {A = Object}) last,
        length-append s.gc_chan (obj ∷ []),
      )
  turns_left-Turn s t (receives obj rest e) = omega (arith, ap (length {A = Object}) e)

  turns_left-Turns :
      (s : NodeState files bolt json selector node_name) (n : ℕ)
      (t : NodeState files bolt json selector node_name)
      → Turns files bolt json selector node_name cluster s n t
      → n + turns_left files bolt json selector node_name t
        ≡ turns_left files bolt json selector node_name s
  turns_left-Turns s n t none_yet = omega arith
  turns_left-Turns s n t (another {n = k} {t = u} r m) =
      omega (arith, turns_left-Turns s k u r, turns_left-Turn u t m)

  -- The handler or the collector can go on, unless nothing is left.
  goes_on :
      (s : NodeState files bolt json selector node_name)
      → (turns_left files bolt json selector node_name s ≡ 0)
        ⊎ ((t : _) × Turn files bolt json selector node_name cluster s t)
  unfolding turns_left manager_sitter send
  goes_on s = go s.gc_chan s.pending refl refl
    where
      go :
          (chan pending : List Object)
          → s.gc_chan ≡ chan
          → s.pending ≡ pending
          → (turns_left files bolt json selector node_name s ≡ 0)
            ⊎ ((t : NodeState files bolt json selector node_name) × Turn files bolt json selector
                  node_name cluster s t)
      go (obj ∷ rest) pending e g = inr (_, receives obj rest e)
      go [] (obj ∷ rest) e g = inr (_, sends obj rest (obj ∷ []) g (rw e refl))
      go [] [] e g = inl (rw (e, g) refl)

  module _ (p : PodInfo) (c : Text) (d : Device)
      (s : NodeState files bolt json selector node_name) where
    -- How far the turns behind `s` have come: no round was made, or one has cleared the device.
    data Come (t : NodeState files bolt json selector node_name) : Type 0 where
      on_the_way :
          t.agent ≡ s.agent
          → length t.pending + length t.gc_chan ≡ length s.pending + length s.gc_chan
          → Come t
      cleared : IsStore bolt json t.agent.db → IsCollected files bolt json p c d t.agent → Come t

    received_Come :
        (t : NodeState files bolt json selector node_name) (obj : Object) (rest : List Object)
        → IsClearable files bolt json (manager_sitter selector node_name cluster).pods s.agent p c d
        → Come t
        → Come (record t {
          agent =
              gc files bolt json
                (manager_sitter selector node_name cluster).pods
                (event_of obj)
                t.agent;
          gc_chan = rest;
          received = t.received ++ obj ∷ [];
        })
    received_Come t obj rest h (on_the_way e g) =
        let sitter = (manager_sitter selector node_name cluster).pods in
        cleared
          (gc-IsStore files bolt json sitter (event_of obj) t.agent
            (subst (λ (w : Agent files bolt json). IsStore bolt json w.db) (sym e) h.store))
          (subst
            (λ w. IsCollected files bolt json p c d (gc files bolt json sitter (event_of obj) w))
            (sym e) (gc-clears files bolt json sitter obj s.agent p c d h))
    received_Come t obj rest h (cleared v g) =
        let sitter = (manager_sitter selector node_name cluster).pods in
        cleared (gc-IsStore files bolt json sitter (event_of obj) t.agent v)
          (gc-IsCollected_again files bolt json sitter (event_of obj) p c d t.agent v h.valid g)

    sent_Come :
        (t : NodeState files bolt json selector node_name) (obj : Object) (rest chan : List Object)
        → t.pending ≡ obj ∷ rest
        → send obj t.gc_chan ≡ some chan
        → Come t
        → Come (record t { pending = rest; gc_chan = chan })
    sent_Come t obj rest chan e g (on_the_way a l) = on_the_way a (
        omega (
          arith,
          l,
          ap (length {A = Object}) e,
          ap (length {A = Object}) (send-some obj t.gc_chan chan g).0,
          length-append t.gc_chan (obj ∷ []),
        ))
    sent_Come t obj rest chan e g (cleared v h) = cleared v h

    Turn-Come :
        (t u : NodeState files bolt json selector node_name)
        → IsClearable files bolt json (manager_sitter selector node_name cluster).pods s.agent p c d
        → Come t
        → Turn files bolt json selector node_name cluster t u
        → Come u
    unfolding manager_sitter
    Turn-Come t u h k (sends obj rest chan e g) = sent_Come t obj rest chan e g k
    Turn-Come t u h k (receives obj rest e) = received_Come t obj rest h k

    Turns-Come :
        (n : ℕ) (t : NodeState files bolt json selector node_name)
        → IsClearable files bolt json (manager_sitter selector node_name cluster).pods s.agent p c d
        → Turns files bolt json selector node_name cluster s n t
        → Come t
    Turns-Come n t h none_yet = on_the_way refl refl
    Turns-Come n t h (another {n = k} {t = u} r m) = Turn-Come u t h (Turns-Come k u h r) m

    Come-IsCollected :
        (t : NodeState files bolt json selector node_name)
        → turns_left files bolt json selector node_name s ≢ 0
        → turns_left files bolt json selector node_name t ≡ 0
        → Come t
        → IsCollected files bolt json p c d t.agent
    unfolding turns_left
    Come-IsCollected t some_left none_left (on_the_way e l) =
        absurd (some_left (omega (arith, none_left, l)))
    Come-IsCollected t some_left none_left (cleared v g) = g

    -- A deletion that is on its way reaches the collector, and then the deleted pod is cleared,
    -- whatever pods the deletions are of. If some deletion is pending or in the channel, and a
    -- round would clear the device of a gone pod now, then after any number of turns of the handler
    -- and the collector, in any order: either there is a next turn; or none is left, as many turns
    -- were done as there were to do, and the pod's record is gone, and so are the links of each
    -- share that `Allocate` mounts for the device. Each turn that is done is one less to do.
    pub Turns-IsCollected :
        (n : ℕ) (t : NodeState files bolt json selector node_name)
        → turns_left files bolt json selector node_name s ≢ 0
        → IsClearable files bolt json (manager_sitter selector node_name cluster).pods s.agent p c d
        → Turns files bolt json selector node_name cluster s n t
        → (n + turns_left files bolt json selector node_name t
            ≡ turns_left files bolt json selector node_name s)
          × (((u : _) × Turn files bolt json selector node_name cluster t u)
              ⊎ ((turns_left files bolt json selector node_name t ≡ 0)
                  × IsCollected files bolt json p c d t.agent))
    Turns-IsCollected n t some_left h r = (
      turns_left-Turns s n t r,
      elim (goes_on t) [
        | inr more ↦ inl more
        | inl none_left ↦
            inr (none_left, Come-IsCollected t some_left none_left (Turns-Come n t h r))
      ],
    )
