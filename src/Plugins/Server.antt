-- ===== src/Plugins/Server.antt =====
-- `DevicePluginServer.Run` (pkg/plugins/base.go; pkg/plugins/plugin.go has the same code): the loop
-- that serves a plugin, registers it with the kubelet, and starts again when the kubelet does. What the
-- network and the channels do is open. The proofs are in the modules below.
pub mod Restarts
pub mod Progress
use elastic_gpu_agent.Prelude.{
  ℕ, ◌+◌, ◌-◌, Bool, true, false, ◌≡◌, Option, none, some, if◌then◌else◌, Error,
}

-- Where `Run` is: before `close` at `restart`, in `Serve`, in `Wait`, in `Register`, at the
-- `select`, in the send of an error to the full channel, or at its end.
pub data Phase : Type 0 where
  restarting : Phase
  serving : Phase
  waiting : Phase
  registering : Phase
  selecting : Phase
  sending : Error → Phase
  returned : Phase
  panicked : Phase

-- `pending` is what `errChan`, of capacity one, holds. `served` says that a server waits for the
-- current `stoChan`, and `open_servers` counts the servers that were not told to stop.
pub record Server : Type 0 where
  pub phase : Phase
  pub pending : Option Error
  pub stop_closed : Bool
  pub served : Bool
  pub open_servers : ℕ

-- the entry of `Run`
unfoldable pub new_server : Server
new_server = record {
  phase = restarting;
  pending = none;
  stop_closed = false;
  served = false;
  open_servers = 0;
}

-- `close(stoChan)` stops the server that waits for it; a second `close` panics.
unfoldable pub close_stop : Phase → Server → Server
close_stop next s = if s.stop_closed then record s { phase = panicked } else record s {
  phase = next;
  stop_closed = true;
  served = false;
  open_servers = if s.served then s.open_servers - 1 else s.open_servers;
}

-- `errChan <- err`
unfoldable pub send_error : Error → Option Error → Server → Server
send_error e none s = record s { phase = selecting; pending = some e }
send_error e (some old) s = record s { phase = sending e }

-- `make` and `Serve`, whose listener is there
unfoldable pub serve : Server → Server
serve s = record s {
  phase = waiting;
  stop_closed = false;
  served = true;
  open_servers = s.open_servers + 1;
}

-- One step. At the `select` any case that is ready may be taken; an event that is not the creation
-- of the kubelet's socket changes nothing.
pub data Step (s : Server) : Server → Type 0 where
  restarts : s.phase ≡ restarting → Step s (close_stop serving s)
  serves : s.phase ≡ serving → Step s (serve s)
  listen_failed : s.phase ≡ serving → Step s (record s { phase = panicked; stop_closed = false })
  wait_succeeded : s.phase ≡ waiting → Step s (record s { phase = registering })
  wait_failed : s.phase ≡ waiting → Step s (record s { phase = restarting })
  registered : s.phase ≡ registering → Step s (record s { phase = selecting })
  register_failed : (e : Error) → s.phase ≡ registering → Step s (send_error e s.pending s)
  error_received :
      (e : Error)
      → s.phase ≡ selecting
      → s.pending ≡ some e
      → Step s (record s { phase = restarting; pending = none })
  kubelet_created : s.phase ≡ selecting → Step s (record s { phase = restarting })
  other_event : s.phase ≡ selecting → Step s s
  stopped : s.phase ≡ selecting → Step s (close_stop returned s)

-- Whether a step is the creation of the kubelet's socket.
abbrev pub is_kubelet_created : {s s' : Server} → Step s s' → Bool
is_kubelet_created (kubelet_created e) = true
is_kubelet_created _ = false
