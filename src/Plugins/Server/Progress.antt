-- ===== src/Plugins/Server/Progress.antt =====
-- When `Run` goes on, and when it blocks.
use elastic_gpu_agent.Prelude.{◌≡◌, refl, false, none, Error, ◌⊎◌, inl, inr, subst, Bool-cases}
use elastic_gpu_agent.Plugins.Server.{
  Phase, restarting, serving, waiting, registering, selecting, sending, returned, panicked, Server,
  Step, restarts, serves, listen_failed, wait_succeeded, wait_failed, registered, register_failed,
  error_received, kubelet_created, other_event, stopped, is_kubelet_created, new_server, close_stop,
  send_error, serve,
}
use elastic_gpu_agent.Plugins.Server.Restarts.{Reached, start, next}

-- The states that `Run` can come to while the kubelet's socket is not created anew.
pub data Quiet : Server → Type 0 where
  quiet_start : Quiet new_server
  quiet_next : {s s' : Server} → Quiet s → (t : Step s s') → is_kubelet_created t ≡ false → Quiet s'

Quiet-Reached : (s : Server) → Quiet s → Reached s
Quiet-Reached s quiet_start = start
Quiet-Reached s (quiet_next {s = t} q st e) = next (Quiet-Reached t q) st

-- An error is pending at the `select` only.
abbrev IsEmptyAt : Phase → Server → Type 0
IsEmptyAt selecting s = Unit
IsEmptyAt (sending e) s = ⊥
IsEmptyAt returned s = Unit
IsEmptyAt panicked s = Unit
IsEmptyAt restarting s = s.pending ≡ none
IsEmptyAt serving s = s.pending ≡ none
IsEmptyAt waiting s = s.pending ≡ none
IsEmptyAt registering s = s.pending ≡ none

empty_at : (p : Phase) (s : Server) → s.phase ≡ p → IsEmptyAt s.phase s → IsEmptyAt p s
empty_at p s e h = subst (λ q. IsEmptyAt q s) e h

close_stop-IsEmptyAt :
    (p : Phase) (s : Server)
    → (s.pending ≡ none → (t : Server) → t.pending ≡ none → IsEmptyAt p t)
    → s.pending ≡ none
    → IsEmptyAt (close_stop p s).phase (close_stop p s)
unfolding close_stop
close_stop-IsEmptyAt p s k h = elim (Bool-cases s.stop_closed) [
  | inl t ↦ rw t tt
  | inr f ↦ rw f (k h _ h)
]

close_stop-returned : (s : Server) → IsEmptyAt (close_stop returned s).phase (close_stop returned s)
unfolding close_stop
close_stop-returned s = elim (Bool-cases s.stop_closed) [ inl t ↦ rw t tt | inr f ↦ rw f tt ]

send_error-IsEmptyAt :
    (e : Error) (s : Server)
    → s.pending ≡ none
    → IsEmptyAt (send_error e s.pending s).phase (send_error e s.pending s)
unfolding send_error
send_error-IsEmptyAt e s h = rw h tt

Step-IsEmptyAt :
    (s s' : Server) (t : Step s s')
    → is_kubelet_created t ≡ false
    → IsEmptyAt s.phase s
    → IsEmptyAt s'.phase s'
unfolding serve
Step-IsEmptyAt s s' (restarts e) q h =
    close_stop-IsEmptyAt serving s (λ n t m. m) (empty_at restarting s e h)
Step-IsEmptyAt s s' (serves e) q h = empty_at serving s e h
Step-IsEmptyAt s s' (listen_failed e) q h = tt
Step-IsEmptyAt s s' (wait_succeeded e) q h = empty_at waiting s e h
Step-IsEmptyAt s s' (wait_failed e) q h = empty_at waiting s e h
Step-IsEmptyAt s s' (registered e) q h = tt
Step-IsEmptyAt s s' (register_failed x e) q h =
    send_error-IsEmptyAt x s (empty_at registering s e h)
Step-IsEmptyAt s s' (error_received x e g) q h = refl
Step-IsEmptyAt s s' (kubelet_created e) q h = cc
Step-IsEmptyAt s s' (other_event e) q h = h
Step-IsEmptyAt s s' (stopped e) q h = close_stop-returned s

Quiet-IsEmptyAt : (s : Server) → Quiet s → IsEmptyAt s.phase s
Quiet-IsEmptyAt s quiet_start = unfold new_server in refl
Quiet-IsEmptyAt s (quiet_next {s = t} q st e) = Step-IsEmptyAt t s st e (Quiet-IsEmptyAt t q)

-- As long as the kubelet's socket is not created anew, `Run` does not block: it has returned, or
-- has panicked, or it can go on.
pub Quiet-goes_on :
    (s : Server)
    → Quiet s
    → (s.phase ≡ returned) ⊎ ((s.phase ≡ panicked) ⊎ ((s' : Server) × Step s s'))
Quiet-goes_on s q = go s.phase refl
  where
    go :
        (p : Phase)
        → s.phase ≡ p
        → (s.phase ≡ returned) ⊎ ((s.phase ≡ panicked) ⊎ ((s' : Server) × Step s s'))
    go restarting e = inr (inr (_, restarts e))
    go serving e = inr (inr (_, serves e))
    go waiting e = inr (inr (_, wait_succeeded e))
    go registering e = inr (inr (_, registered e))
    go selecting e = inr (inr (_, stopped e))
    go (sending x) e = absurd (empty_at (sending x) s e (Quiet-IsEmptyAt s q))
    go returned e = inl e
    go panicked e = inr (inl e)

-- Where an error waits for the full channel `Run` has no step: nothing else receives from it.
pub sending-Step : (e : Error) (s s' : Server) → s.phase ≡ sending e → Step s s' → ⊥
sending-Step x s s' g (restarts e) = cc
sending-Step x s s' g (serves e) = cc
sending-Step x s s' g (listen_failed e) = cc
sending-Step x s s' g (wait_succeeded e) = cc
sending-Step x s s' g (wait_failed e) = cc
sending-Step x s s' g (registered e) = cc
sending-Step x s s' g (register_failed y e) = cc
sending-Step x s s' g (error_received y e h) = cc
sending-Step x s s' g (kubelet_created e) = cc
sending-Step x s s' g (other_event e) = cc
sending-Step x s s' g (stopped e) = cc
