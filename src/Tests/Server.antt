-- ===== src/Tests/Server.antt =====
-- A run of the server loop: it registers, and the kubelet starts anew while an error is pending.
use elastic_gpu_agent.Prelude.{◌≡◌, refl, ◌⊎◌, not_found}
use elastic_gpu_agent.Plugins.Server.{
  Server, Step, restarts, serves, wait_succeeded, register_failed, kubelet_created, returned,
  panicked, sending, serving, new_server, serve, close_stop, send_error,
}
use elastic_gpu_agent.Plugins.Server.Restarts.{
  Reached, start, next, IsOneServer, Reached-IsOneServer,
}
use elastic_gpu_agent.Plugins.Server.Progress.{
  Quiet, quiet_start, quiet_next, Quiet-goes_on, sending-Step,
}

abbrev closed : Server
closed = close_stop serving new_server

abbrev served : Server
served = serve closed

closes : Step new_server closed
unfolding new_server
closes = restarts refl

serves_it : Step closed served
unfolding close_stop new_server
serves_it = serves refl

served-Reached : Reached served
served-Reached = next (next start closes) serves_it

Reached-IsOneServer_example : IsOneServer served
Reached-IsOneServer_example = Reached-IsOneServer served served-Reached

closed-Quiet : Quiet closed
unfolding new_server
closed-Quiet = quiet_next quiet_start (restarts refl) refl

Quiet-goes_on_example :
    (closed.phase ≡ returned) ⊎ ((closed.phase ≡ panicked) ⊎ ((s' : Server) × Step closed s'))
Quiet-goes_on_example = Quiet-goes_on closed closed-Quiet

-- The register call fails, the kubelet's socket is created, and the register call fails again: the
-- send of the second error blocks.
blocks : (s : Server) × Reached s × (s.phase ≡ sending not_found) × ((s' : Server) → Step s s' → ⊥)
unfolding new_server close_stop serve send_error
blocks =
    let first_failed =
      next (next served-Reached (wait_succeeded refl)) (register_failed not_found refl) in
    let again =
      next (next (next first_failed (kubelet_created refl)) (restarts refl)) (serves refl) in
    (
      _,
      next (next again (wait_succeeded refl)) (register_failed not_found refl),
      refl,
      λ s' t. sending-Step not_found _ s' refl t,
    )
