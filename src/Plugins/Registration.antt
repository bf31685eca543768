-- ===== src/Plugins/Registration.antt =====
-- `Serve`, `Wait` and `Register` of a device plugin's server, and what a base plugin answers
-- (pkg/plugins/base.go). The network is a parameter. The proofs are in the module below.
pub mod Turn
use elastic_gpu_agent.Prelude.{
  Error, ℕ, ◌+◌, ◌-◌, Bool, true, List, [], ◌≡◌, Text, codes, Result, ok, err, Exec, ◌>>=◌, ◌>>◌,
  pure,
}
use elastic_gpu_agent.Go.FilePath.{join_path}
use elastic_gpu_agent.Plugins.Allocate.{ContainerResponse}
use elastic_gpu_agent.Plugins.Devices.{PluginDevice}
use elastic_gpu_agent.Plugins.Factory.{PluginServer}

-- of the package v1beta1 of the kubelet
abbrev pub device_plugin_path : Text
device_plugin_path = codes "/var/lib/kubelet/device-plugins/"

abbrev kubelet_socket : Text
kubelet_socket = codes "/var/lib/kubelet/device-plugins/kubelet.sock"

abbrev version : Text
version = codes "v1beta1"

-- `RegisterRequest`, with its options
pub record RegisterRequest : Type 0 where
  pub version : Text
  pub endpoint : Text
  pub resource_name : Text
  pub pre_start_required : Bool

-- What the sockets of the node do. A call that fails may have done anything to the sockets that are
-- not named here.
pub record Network : Type 1 where
  pub State : Type 0
  pub open_connections : State → ℕ
  pub Listens : State → Text → Type 0
  pub Registered : State → RegisterRequest → Type 0
  -- `os.Remove` and `net.Listen` of a socket
  pub remove : Text → Exec State (Unit {0})
  pub listen : Text → Exec State (Unit {0})
  -- `grpc.Dial`, and `Close` of the connection that it made
  pub dial : Text → Exec State (Unit {0})
  pub close : Exec State (Unit {0})
  pub send_register : RegisterRequest → Exec State (Unit {0})
  pub remove-open : (p : Text) (s : State) → open_connections (remove p s).1 ≡ open_connections s
  pub listen-open : (p : Text) (s : State) → open_connections (listen p s).1 ≡ open_connections s
  pub listen-Listens : (p : Text) (s s' : State) → listen p s ≡ (ok tt, s') → Listens s' p
  pub dial-ok :
      (p : Text) (s s' : State)
      → dial p s ≡ (ok tt, s')
      → open_connections s' ≡ open_connections s + 1
  pub dial-err :
      (p : Text) (s s' : State) {e : Error}
      → dial p s ≡ (err e, s')
      → open_connections s' ≡ open_connections s
  pub close-open : (s : State) → open_connections (close s).1 ≡ open_connections s - 1
  pub send_register-open :
      (r : RegisterRequest) (s : State)
      → open_connections (send_register r s).1 ≡ open_connections s
  pub send_register-Registered :
      (r : RegisterRequest) (s s' : State) → send_register r s ≡ (ok tt, s') → Registered s' r
  pub dial-Listens : (p q : Text) (s : State) → Listens s q → Listens (dial p s).1 q
  pub close-Listens : (q : Text) (s : State) → Listens s q → Listens (close s).1 q
  pub send_register-Listens :
      (r : RegisterRequest) (q : Text) (s : State) → Listens s q → Listens (send_register r s).1 q
  pub close-Registered :
      (r : RegisterRequest) (s : State) → Registered s r → Registered (close s).1 r

unfoldable pub socket_path : Text → Text
socket_path endpoint = join_path device_plugin_path endpoint

unfoldable pub request : PluginServer → RegisterRequest
request p = record {
  version = version;
  endpoint = p.endpoint;
  resource_name = p.resource_name;
  pre_start_required = p.pre_start_required;
}

module _ (network : Network) where
  open network use {State, remove, listen, dial, close, send_register}

  -- the deferred `conn.Close()`, whose error is dropped
  closing : Result (Unit {0}) × State → Result (Unit {0}) × State
  closing (r, s) = (r, (close s).1)

  unfoldable pub register : PluginServer → Exec State (Unit {0})
  unfolding closing
  register p = dial kubelet_socket >>= λ _ s. closing (send_register (request p) s)

  -- The error of `Remove` is dropped; one of `Listen` is a panic.
  unfoldable pub serve_socket : PluginServer → Exec State (Unit {0})
  serve_socket p s = let path = socket_path p.endpoint in listen path (remove path s).1

  unfoldable pub wait : PluginServer → Exec State (Unit {0})
  wait p = dial (socket_path p.endpoint) >> close

  -- One turn of the loop of `Run`, up to the `select`.
  unfoldable pub turn : PluginServer → Exec State (Unit {0})
  turn p = do serve_socket p; wait p; register p

-- The base plugin's answers.
unfoldable pub get_device_plugin_options : Bool
get_device_plugin_options = true

-- `server.Send`, whose error ends the call; else the call ends with the connection.
unfoldable pub list_and_watch :
    (List PluginDevice → Result (Unit {0})) → PluginServer → Result (Unit {0})
list_and_watch send p = elim (send p.devices) [ err e ↦ err e | ok u ↦ ok tt ]

base_allocate : List (List Text) → Result (List ContainerResponse)
base_allocate requests = ok []

base_pre_start_container : List Text → Result (Unit {0})
base_pre_start_container ids = ok tt

get_preferred_allocation : List (List Text) → Result (List ContainerResponse)
get_preferred_allocation requests = ok []
