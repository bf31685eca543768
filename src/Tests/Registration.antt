-- ===== src/Tests/Registration.antt =====
-- A network in memory, and one turn of a plugin's loop on it.
use elastic_gpu_agent.Prelude.{
  ℕ, ◌+◌, ◌-◌, ◌≡◌, refl, sym, ap, subst, true, List, [], ◌∷◌, Text, codes, Member, first, Result,
  ok, err, Error,
}
use elastic_gpu_agent.Common.{resource_gpu_core}
use elastic_gpu_agent.Plugins.Factory.{PluginServer}
use elastic_gpu_agent.Plugins.Registration.{RegisterRequest, Network, turn}
use elastic_gpu_agent.Plugins.Registration.Turn.{Leaves, Announced, turn-Leaves}

record Sockets : Type 0 where
  connections : ℕ
  listening : List Text
  registered : List RegisterRequest

state_of :
    (s s' : Sockets) (r r' : Result (Unit {0}))
    → ◌≡◌ {A = Result (Unit {0}) × Sockets} (r, s) (r', s')
    → s ≡ s'
state_of s s' r r' e = ap (λ x. x.1) e

never_fails :
    (s s' : Sockets) (e : Error) (C : Type 0)
    → ◌≡◌ {A = Result (Unit {0}) × Sockets} (ok tt, s) (err e, s')
    → C
never_fails s s' e C h = absurd (cc)

abbrev network : Network
network = record {
  State = Sockets;
  open_connections = λ s. s.connections;
  Listens = λ s p. Member p s.listening;
  Registered = λ s r. Member r s.registered;
  remove = λ p s. (ok tt, s);
  listen = λ p s. (ok tt, record s { listening = p ∷ s.listening });
  dial = λ p s. (ok tt, record s { connections = s.connections + 1 });
  close = λ s. (ok tt, record s { connections = s.connections - 1 });
  send_register = λ r s. (ok tt, record s { registered = r ∷ s.registered });
  remove-open = λ p s. refl;
  listen-open = λ p s. refl;
  listen-Listens =
      λ p s s' e. subst (λ (t : Sockets). Member p t.listening) (state_of _ s' _ _ e) first;
  dial-ok = λ p s s' e. ap (λ (t : Sockets). t.connections) (sym (state_of _ s' _ _ e));
  dial-err = λ p s s' {e} h. never_fails _ s' e _ h;
  close-open = λ s. refl;
  send_register-open = λ r s. refl;
  send_register-Registered =
      λ r s s' e. subst (λ (t : Sockets). Member r t.registered) (state_of _ s' _ _ e) first;
  dial-Listens = λ p q s m. m;
  close-Listens = λ q s m. m;
  send_register-Listens = λ r q s m. m;
  close-Registered = λ r s m. m;
}

abbrev server : PluginServer
server = record {
  endpoint = codes "elastic-gpushare-core.sock";
  resource_name = resource_gpu_core;
  pre_start_required = true;
  devices = [];
}

abbrev no_sockets : Sockets
no_sockets = record { connections = 0; listening = []; registered = [] }

turn-Leaves_example :
    Leaves network server (Announced network server) no_sockets (turn network server no_sockets)
turn-Leaves_example = turn-Leaves network server no_sockets
