-- ===== src/Types/Pod/RoundTrip.antt =====
-- A pod's key and value are read back to the pod.
use elastic_gpu_agent.Prelude.{
  ◌≡◌, Option, none, some, [], ◌∷◌, ◌++◌, arith, Dict, IsMap, ok, sep_cancel,
}
use elastic_gpu_agent.Go.Strings.{split_one, split-append}
use elastic_gpu_agent.Go.FilePath.{IsSegment, join_path_segments}
use elastic_gpu_agent.Types.Device.{Device}
use elastic_gpu_agent.Types.Json.{Json, IsPlain}
use elastic_gpu_agent.Types.Pod.{PodInfo, new_pi, key, val, set_val, new_pi_from_raw}

-- A map that `json` writes and reads back: a nil map, or an ASCII one.
abbrev pub IsStorable : Option (Dict Device) → Type 0
IsStorable none = Unit
IsStorable (some m) = IsMap m × IsPlain m

-- A pod with a namespace and a name that are path segments.
pub record IsValid (p : PodInfo) : Type 0 where
  pub namespace : IsSegment p.namespace
  pub name : IsSegment p.name
  pub storable : IsStorable p.container_device_map

pub key_of_segments :
    (p : PodInfo) → IsSegment p.namespace → IsSegment p.name → key p ≡ p.namespace ++ b'/' ∷ p.name
unfolding key
key_of_segments p hs hn = join_path_segments p.namespace p.name hs hn

-- Two valid pods with one key have one namespace and one name.
pub key-injective :
    (p q : PodInfo)
    → IsValid p
    → IsValid q
    → key p ≡ key q
    → (p.namespace ≡ q.namespace) × (p.name ≡ q.name)
key-injective p q hp hq e =
    sep_cancel b'/' p.namespace q.namespace p.name q.name hp.namespace.no_slash
      hq.namespace.no_slash
      (cc (key_of_segments p hp.namespace hp.name, key_of_segments q hq.namespace hq.name))

module _ (json : Json) where
  pub unmarshal-val :
      (p : PodInfo)
      → IsStorable p.container_device_map
      → json.unmarshal (val json p) (some []) ≡ ok p.container_device_map
  unfolding val
  unmarshal-val p h = go p.container_device_map h
    where
      go :
          (m : Option (Dict Device))
          → IsStorable m
          → json.unmarshal (json.marshal m) (some []) ≡ ok m
      go none u = json.unmarshal-marshal_nil
      go (some m) u = json.unmarshal-marshal m u.0 u.1

  pub set_val-val :
      (p : PodInfo)
      → IsStorable p.container_device_map
      → set_val json (new_pi p.namespace p.name) (val json p) ≡ ok p
  unfolding set_val new_pi
  set_val-val p h = ground (arith, unmarshal-val p h)

  -- The raw key and value of a valid pod are parsed back to the pod.
  pub new_pi_from_raw_lem :
      (p : PodInfo) → IsValid p → new_pi_from_raw json (key p) (val json p) ≡ ok p
  unfolding new_pi_from_raw
  new_pi_from_raw_lem p h =
      rw
        (
          key_of_segments p h.namespace h.name,
          split-append p.namespace p.name b'/' h.namespace.no_slash,
          split_one p.name b'/' h.name.no_slash,
        )
        (ground (arith, unmarshal-val p h.storable))
