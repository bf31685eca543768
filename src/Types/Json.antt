-- ===== src/Types/Json.antt =====
-- `encoding/json` on the one type that the program gives it, `map[string]*Device`: a pair of
-- functions with the laws that the program relies on.
use elastic_gpu_agent.Prelude.{
  ◌<◌, ◌≡◌, Option, none, some, [], ◌∷◌, Text, All, Dict, IsMap, insert, Result, ok, Bool-cases,
  inl, inr, text_eq,
}
use elastic_gpu_agent.Prelude.Order.{text_le}
use elastic_gpu_agent.Types.Device.{Device}

abbrev pub IsAscii : Text → Type 0
IsAscii = All (λ b. b < 128)

abbrev pub IsPlainDevice : Device → Type 0
IsPlainDevice d = IsAscii d.hash × All IsAscii d.list × IsAscii d.resource_name

-- The keys and the devices are ASCII: what `json.Marshal` writes without a replacement.
abbrev pub IsPlain : Dict Device → Type 0
IsPlain [] = Unit
IsPlain ((k, d) ∷ m) = (IsAscii k × IsPlainDevice d) × IsPlain m

-- A nil map is `none`. A stored device is never nil: only `Val` writes the store.
pub record Json : Type 0 where
  pub marshal : Option (Dict Device) → Text
  pub unmarshal : Text → Option (Dict Device) → Result (Option (Dict Device))
  -- Reading what was written, into an empty map, gives the map back.
  pub unmarshal-marshal :
      (m : Dict Device) → IsMap m → IsPlain m → unmarshal (marshal (some m)) (some []) ≡ ok (some m)
  pub unmarshal-marshal_nil : unmarshal (marshal none) (some []) ≡ ok none

-- A map with one more ASCII device is still one.
pub insert-IsPlain :
    (k : Text) (d : Device) (m : Dict Device)
    → IsAscii k
    → IsPlainDevice d
    → IsPlain m
    → IsPlain (insert k d m)
unfolding insert
insert-IsPlain k d [] hk hd h = ((hk, hd), tt)
insert-IsPlain k d ((j, e) ∷ m) hk hd (he, h) = elim (Bool-cases (text_eq j k)) [
  | inl same ↦ rw same ((hk, hd), h)
  | inr other ↦ elim (Bool-cases (text_le k j)) [
    | inl le ↦ rw (other, le) ((hk, hd), (he, h))
    | inr gt ↦ rw (other, gt) (he, insert-IsPlain k d m hk hd h)
  ]
]
