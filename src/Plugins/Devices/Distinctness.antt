-- ===== src/Plugins/Devices/Distinctness.antt =====
-- The announced ids: how many, and that no two are equal.
use elastic_gpu_agent.Prelude.{
  ℕ, zero, suc, ◌+◌, ◌*◌, ◌<◌, ◌≡◌, ◌⊎◌, inl, inr, refl, ap, none, List, [], ◌∷◌, ◌++◌, arith, Text,
  ok, map, length, length-append, All-append, Lacks, Distinct, sep_cancel,
}
use elastic_gpu_agent.Go.Strconv.{
  itoa, pad2, format_uint, format_uint-injective, format_uint-Lacks, pad2-injective,
}
use elastic_gpu_agent.Operator.Nvml.{GpuDevice}
use elastic_gpu_agent.Plugins.Devices.{
  PluginDevice, unit_id, units, cards, core_units, memory_units, core_devices, memory_devices,
}

-- An id names its card and its unit.
unit_id-injective : (i j i' j' : ℕ) → unit_id i j ≡ unit_id i' j' → (i ≡ i') × (j ≡ j')
unfolding unit_id itoa
unit_id-injective i j i' j' e =
    let parts =
      sep_cancel b'-' (format_uint i) (format_uint i') (pad2 j) (pad2 j')
        (format_uint-Lacks b'-' i (omega arith)) (format_uint-Lacks b'-' i' (omega arith)) e in
    (format_uint-injective i i' parts.0, pad2-injective j j' parts.1)

abbrev ids : List PluginDevice → List Text
ids = map (λ d. d.id)

-- A unit's id is none of those of the units behind it, nor of another card.
units-Lacks : (i j i' j' n : ℕ) → (i < i') ⊎ (j < j') → Lacks (unit_id i j) (ids (units i' j' n))
unfolding units
units-Lacks i j i' j' zero h = tt
units-Lacks i j i' j' (suc n) h = (
  λ e. let same = unit_id-injective i' j' i j e in absurd (omega (arith, same.0, same.1)),
  units-Lacks i j i' (suc j') n (weaken h),
)
  where
    weaken : (i < i') ⊎ (j < j') → (i < i') ⊎ (j < suc j')
    weaken (inl p) = inl p
    weaken (inr p) = inr (omega arith)

ids-append : (l m : List PluginDevice) → ids (l ++ m) ≡ ids l ++ ids m
ids-append [] m = refl
ids-append (d ∷ l) m = ap (◌∷◌ d.id) (ids-append l m)

cards-Lacks : (i j i' : ℕ) (ns : List ℕ) → i < i' → Lacks (unit_id i j) (ids (cards i' ns))
unfolding cards
cards-Lacks i j i' [] h = tt
cards-Lacks i j i' (n ∷ ns) h = rw ids-append (
    All-append _ (ids (units i' 0 n)) (ids (cards (suc i') ns)) (units-Lacks i j i' 0 n (inl h))
      (cards-Lacks i j (suc i') ns (omega arith)))

-- A card's units before further ones that none of its ids is among.
units-Distinct :
    (i j n : ℕ) (rest : List PluginDevice)
    → ((k : ℕ) → Lacks (unit_id i k) (ids rest))
    → Distinct (ids rest)
    → Distinct (ids (units i j n ++ rest))
unfolding units
units-Distinct i j zero rest h d = d
units-Distinct i j (suc n) rest h d = (
  rw ids-append (
      All-append _ (ids (units i (suc j) n)) (ids rest)
        (units-Lacks i j i (suc j) n (inr (omega arith))) (h j)),
  units-Distinct i (suc j) n rest h d,
)

cards-Distinct : (i : ℕ) (ns : List ℕ) → Distinct (ids (cards i ns))
unfolding cards
cards-Distinct i [] = tt
cards-Distinct i (n ∷ ns) =
    units-Distinct i 0 n (cards (suc i) ns) (λ k. cards-Lacks i k (suc i) ns (omega arith))
      (cards-Distinct (suc i) ns)

abbrev pub total : List ℕ → ℕ
total [] = 0
total (n ∷ ns) = n + total ns

length-units : (i j n : ℕ) → length (units i j n) ≡ n
unfolding units
length-units i j zero = refl
length-units i j (suc n) = ap suc (length-units i (suc j) n)

length-cards : (i : ℕ) (ns : List ℕ) → length (cards i ns) ≡ total ns
unfolding cards
length-cards i [] = refl
length-cards i (n ∷ ns) = omega (
  arith,
  length-append (units i 0 n) (cards (suc i) ns),
  length-units i 0 n,
  length-cards (suc i) ns,
)

total_const : (devs : List GpuDevice) → total (map core_units devs) ≡ 100 * length devs
unfolding core_units
total_const [] = omega arith
total_const (d ∷ devs) = omega (arith, total_const devs)

-- The core plugin announces a hundred devices for each GPU, with ids that are all distinct.
pub core_devices-Distinct :
    (devs : List GpuDevice)
    → (units : List PluginDevice) × (core_devices (devs, none) ≡ ok units)
      × (length units ≡ 100 * length devs)
      × Distinct (map (λ d. d.id) units)
unfolding core_devices
core_devices-Distinct devs = (
  cards 0 (map core_units devs),
  refl,
  omega (arith, length-cards 0 (map core_units devs), total_const devs),
  cards-Distinct 0 (map core_units devs),
)

-- The memory plugin announces a device for each whole MiB of each GPU, with ids that are all
-- distinct.
pub memory_devices-Distinct :
    (devs : List GpuDevice)
    → (units : List PluginDevice) × (memory_devices (devs, none) ≡ ok units)
      × (length units ≡ total (map memory_units devs))
      × Distinct (map (λ d. d.id) units)
unfolding memory_devices
memory_devices-Distinct devs = (
  cards 0 (map memory_units devs),
  refl,
  length-cards 0 (map memory_units devs),
  cards-Distinct 0 (map memory_units devs),
)
