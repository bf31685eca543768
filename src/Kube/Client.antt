-- ===== src/Kube/Client.antt =====
-- pkg/podresources/client.go: the address of the kubelet's socket. The parser of URLs (net/url) is a
-- parameter. The proofs are in the module below.
pub mod Address
use elastic_gpu_agent.Prelude.{
  ◌≡◌, Bool, true, false, ◌∷◌, ◌++◌, [], Text, codes, text_eq, if◌then◌else◌, Result, ok, err,
  Error, external,
}
use elastic_gpu_agent.Go.FilePath.{join_path}

-- of `url.URL`, what the client reads
pub record Url : Type 0 where
  pub scheme : Text
  pub host : Text
  pub path : Text

abbrev pub unix_protocol : Text
unix_protocol = codes "unix"

-- The protocol, the address, and the error.
pub record Parsed : Type 0 where
  pub protocol : Text
  pub addr : Text
  pub error : Result (Unit {0})

-- the cases of the scheme
of_url : Url → Parsed
of_url u =
    if text_eq u.scheme (codes "tcp")
    then record { protocol = codes "tcp"; addr = u.host; error = ok tt }
    else if text_eq u.scheme unix_protocol
    then record { protocol = codes "unix"; addr = u.path; error = ok tt }
    else if text_eq u.scheme []
    then record { protocol = []; addr = []; error = err (external (codes "deprecated endpoint")) }
    else record {
      protocol = u.scheme;
      addr = [];
      error = err (external (codes "protocol not supported"));
    }

of_parse : Result Url → Parsed
unfolding of_url
of_parse (ok u) = of_url u
of_parse (err e) = record { protocol = []; addr = []; error = err e }

is_error : Result (Unit {0}) → Bool
is_error (ok u) = false
is_error (err e) = true

address_of : Parsed → Result (Unit {0}) → Result Text
address_of p (err e) = err e
address_of p (ok u) =
    if text_eq p.protocol unix_protocol
    then ok p.addr
    else err (external (codes "only support unix socket endpoint"))

module _ (parse : Text → Result Url) where
  unfoldable pub parse_endpoint : Text → Parsed
  unfolding of_parse
  parse_endpoint endpoint = of_parse (parse endpoint)

  with_fallback : Text → Text → Parsed → Bool → Parsed
  with_fallback endpoint fallback p false = p
  with_fallback endpoint fallback p true =
      if text_eq p.protocol [] then parse_endpoint (fallback ++ codes "://" ++ endpoint) else p

  -- `parseEndpointWithFallbackProtocol`
  unfoldable pub parse_endpoint_with_fallback_protocol : Text → Text → Parsed
  unfolding with_fallback is_error
  parse_endpoint_with_fallback_protocol endpoint fallback =
      let p = parse_endpoint endpoint in with_fallback endpoint fallback p (is_error p.error)

  -- `GetAddressAndDialer`, whose dialer is always the one for unix sockets
  unfoldable pub get_address : Text → Result Text
  unfolding address_of
  get_address endpoint =
      let p = parse_endpoint_with_fallback_protocol endpoint unix_protocol in address_of p p.error

  dialed : Text → Result (Unit {0}) → Result (Unit {0})
  dialed socket (ok u) = ok tt
  dialed socket (err e) = err (external (codes "error dialing socket " ++ socket))

  -- `GetClient`, of what `grpc.DialContext` answers for an address: the client is the connection.
  unfoldable pub get_client : (Text → Result (Unit {0})) → Text → Result (Unit {0})
  unfolding dialed
  get_client dial socket = elim (get_address socket) [
    | err e ↦ err e
    | ok addr ↦ dialed socket (dial addr)
  ]

-- `LocalEndpoint`, of the text that `url.URL` prints for a scheme and a path.
local_endpoint : (Text → Text → Text) → Text → Text → Result Text
local_endpoint print path file = ok (join_path (print unix_protocol path) (file ++ codes ".sock"))
