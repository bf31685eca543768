-- ===== src/Plugins/Server/Restarts.antt =====
-- What holds at every point of `Run`, and when it blocks.
use elastic_gpu_agent.Prelude.{
  ◌≡◌, ◌≢◌, refl, true, false, Option, none, some, arith, if◌then◌else◌, Error, subst,
}
use elastic_gpu_agent.Plugins.Server.{
  Phase, restarting, serving, waiting, registering, selecting, sending, returned, panicked, Server,
  Step, restarts, serves, listen_failed, wait_succeeded, wait_failed, registered, register_failed,
  error_received, kubelet_created, other_event, stopped, new_server, close_stop, send_error, serve,
}

-- The states that `Run` can come to.
pub data Reached : Server → Type 0 where
  start : Reached new_server
  next : {s s' : Server} → Reached s → Step s s' → Reached s'

-- What the phase says of the channels.
abbrev pub AtPhase : Phase → Server → Type 0
AtPhase restarting s = s.stop_closed ≡ false
AtPhase serving s = (s.served ≡ false) × (s.stop_closed ≡ true)
AtPhase waiting s = s.stop_closed ≡ false
AtPhase registering s = s.stop_closed ≡ false
AtPhase selecting s = s.stop_closed ≡ false
AtPhase (sending e) s = s.pending ≢ none
AtPhase returned s = s.served ≡ false
AtPhase panicked s = s.served ≡ false

-- The servers that were not told to stop are one or none: one if a server waits for the current
-- channel. `Run` closes no channel twice, sends are blocked by a pending error only, and none of the
-- servers is left when `Run` has returned.
pub record IsOneServer (s : Server) : Type 0 where
  pub counted : s.open_servers ≡ (if s.served then 1 else 0)
  pub at_phase : AtPhase s.phase s

phase_is : (p : Phase) (s : Server) → s.phase ≡ p → IsOneServer s → AtPhase p s
phase_is p s e h = subst (λ q. AtPhase q s) e h.at_phase

sent :
    (e : Error) (o : Option Error) (s : Server)
    → s.stop_closed ≡ false
    → s.pending ≡ o
    → s.open_servers ≡ (if s.served then 1 else 0)
    → IsOneServer (send_error e o s)
unfolding send_error
sent e none s h g c = record { counted = c; at_phase = h }
sent e (some old) s h g c = record { counted = c; at_phase = λ n. cc }

close_stop-IsOneServer :
    (p : Phase) (s : Server)
    → s.stop_closed ≡ false
    → s.open_servers ≡ (if s.served then 1 else 0)
    → ((t : Server) → t.served ≡ false → t.stop_closed ≡ true → AtPhase p t)
    → IsOneServer (close_stop p s)
unfolding close_stop
close_stop-IsOneServer p s h c k =
    rw h (record { counted = ground arith; at_phase = k _ refl refl })

Step-IsOneServer : (s s' : Server) → IsOneServer s → Step s s' → IsOneServer s'
unfolding serve
Step-IsOneServer s s' h (restarts e) =
    close_stop-IsOneServer serving s (phase_is restarting s e h) h.counted (λ t a b. (a, b))
Step-IsOneServer s s' h (serves e) = record {
  counted = ground (arith, h.counted, (phase_is serving s e h).0);
  at_phase = refl;
}
Step-IsOneServer s s' h (listen_failed e) = record {
  counted = h.counted;
  at_phase = (phase_is serving s e h).0;
}
Step-IsOneServer s s' h (wait_succeeded e) = record {
  counted = h.counted;
  at_phase = phase_is waiting s e h;
}
Step-IsOneServer s s' h (wait_failed e) = record {
  counted = h.counted;
  at_phase = phase_is waiting s e h;
}
Step-IsOneServer s s' h (registered e) = record {
  counted = h.counted;
  at_phase = phase_is registering s e h;
}
Step-IsOneServer s s' h (register_failed x e) =
    sent x s.pending s (phase_is registering s e h) refl h.counted
Step-IsOneServer s s' h (error_received x e g) = record {
  counted = h.counted;
  at_phase = phase_is selecting s e h;
}
Step-IsOneServer s s' h (kubelet_created e) = record {
  counted = h.counted;
  at_phase = phase_is selecting s e h;
}
Step-IsOneServer s s' h (other_event e) = h
Step-IsOneServer s s' h (stopped e) =
    close_stop-IsOneServer returned s (phase_is selecting s e h) h.counted (λ t a b. a)

-- Wherever `Run` comes to, there is at most one server that was not told to stop, it waits for the
-- current channel, and there is none at the end; no channel is closed twice, and a send blocks only
-- with an error pending.
pub Reached-IsOneServer : (s : Server) → Reached s → IsOneServer s
Reached-IsOneServer s start = unfold new_server in record { counted = refl; at_phase = refl }
Reached-IsOneServer s (next {s = t} r st) = Step-IsOneServer t s (Reached-IsOneServer t r) st
