-- ===== src/Plugins/Registration/Turn.antt =====
-- What one turn of the loop leaves on the node.
use elastic_gpu_agent.Prelude.{
  ◌>>◌, ◌+◌, ◌≡◌, refl, ap, ◌∙◌, arith, Result, ok, err, subst, continue,
}
use elastic_gpu_agent.Plugins.Factory.{PluginServer}
use elastic_gpu_agent.Plugins.Registration.{
  Exec, Network, socket_path, request, register, serve_socket, wait, turn, closing, kubelet_socket,
}

module _ (network : Network) (p : PluginServer) where
  open network use {
    State, open_connections, Listens, Registered, remove, listen, dial, close, send_register,
    remove-open, listen-open, listen-Listens, dial-ok, dial-err, close-open, send_register-open,
    send_register-Registered, dial-Listens, close-Listens, send_register-Listens, close-Registered,
  }

  -- What is left after a part of the turn: as many connections as before, and, where there was no
  -- error, what `P` says.
  pub record Leaves (P : State → Type 0) (s : State) (r : Result (Unit {0}) × State) : Type 0 where
    pub connections : open_connections r.1 ≡ open_connections s
    pub after : r.0 ≡ ok tt → P r.1

  abbrev Serving : State → Type 0
  Serving s = Listens s (socket_path p.endpoint)

  serve_socket-Leaves : (s : State) → Leaves Serving s (serve_socket network p s)
  unfolding serve_socket
  serve_socket-Leaves s =
      let path = socket_path p.endpoint in
      let t = (remove path s).1 in
      record {
        connections = listen-open path t ∙ remove-open path s;
        after = λ e. listen-Listens path t (listen path t).1 (ap (λ r. (r, (listen path t).1)) e);
      }

  wait-Leaves : (s : State) → Serving s → Leaves Serving s (wait network p s)
  unfolding wait
  wait-Leaves s h = go (dial (socket_path p.endpoint) s) refl
    where
      go :
          (r : Result (Unit {0}) × State)
          → dial (socket_path p.endpoint) s ≡ r
          → Leaves Serving s (continue r.0 (λ _. close) r.1)
      go (err e, t) d = record { connections = dial-err _ s t d; after = λ f. absurd (cc) }
      go (ok u, t) d = record {
        connections = omega (arith, close-open t, dial-ok _ s t d);
        after = λ f. close-Listens _ t (
            subst (λ x. Listens x (socket_path p.endpoint)) (ap (λ x. x.1) d)
              (dial-Listens _ _ s h));
      }

  -- The kubelet knows the plugin by the socket on which it serves.
  abbrev pub Announced : State → Type 0
  Announced s = Listens s (socket_path (request p).endpoint) × Registered s (request p)

  register-Leaves : (s : State) → Serving s → Leaves Announced s (register network p s)
  unfolding register request closing
  register-Leaves s h = go (dial kubelet_socket s) refl
    where
      sent :
          (t : State) (r : Result (Unit {0}) × State)
          → open_connections t ≡ open_connections s + 1
          → Serving t
          → send_register (request p) t ≡ r
          → Leaves Announced s (closing network r)
      sent t (r, v) o l e = record {
        connections = omega (
          arith,
          close-open v,
          o,
          send_register-open (request p) t,
          ap (λ x. open_connections x.1) e,
        );
        after = λ f. (
          close-Listens _ v (
              subst (λ x. Listens x (socket_path p.endpoint)) (ap (λ x. x.1) e)
                (send_register-Listens (request p) _ t l)),
          close-Registered (request p) v
              (send_register-Registered (request p) t v (e ∙ ap (λ x. (x, v)) f)),
        );
      }

      go :
          (r : Result (Unit {0}) × State)
          → dial kubelet_socket s ≡ r
          → Leaves Announced s
              (continue r.0 (λ _ t. closing network (send_register (request p) t)) r.1)
      go (err e, t) d = record { connections = dial-err _ s t d; after = λ f. absurd (cc) }
      go (ok u, t) d =
          sent t (send_register (request p) t) (dial-ok _ s t d)
            (subst (λ x. Listens x (socket_path p.endpoint)) (ap (λ x. x.1) d)
              (dial-Listens _ _ s h))
            refl

  Leaves-then :
      (P Q : State → Type 0) (m n : Exec State (Unit {0})) (s : State)
      → Leaves P s (m s)
      → ((t : State) → P t → Leaves Q t (n t))
      → Leaves Q s ((m >> n) s)
  Leaves-then P Q m n s h k = go (m s) h
    where
      go : (r : Result (Unit {0}) × State) → Leaves P s r → Leaves Q s (continue r.0 (λ _. n) r.1)
      go (err e, t) g = record { connections = g.connections; after = λ f. absurd (cc) }
      go (ok u, t) g =
          let l = k t (g.after refl) in
          record { connections = l.connections ∙ g.connections; after = l.after }

  -- One turn of `Run` up to its `select` leaves no connection open, whatever fails in it; and if
  -- nothing fails, the kubelet has registered the plugin's resource, with an endpoint whose socket
  -- in the directory of the device plugins is the one on which the plugin serves.
  pub turn-Leaves : (s : State) → Leaves Announced s (turn network p s)
  unfolding turn
  turn-Leaves s =
      Leaves-then Serving Announced (serve_socket network p) (wait network p >> register network p)
        s (serve_socket-Leaves s)
        (λ t h.
          Leaves-then Serving Announced (wait network p) (register network p) t (wait-Leaves t h)
            register-Leaves)
