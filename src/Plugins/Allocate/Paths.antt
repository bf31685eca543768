-- ===== src/Plugins/Allocate/Paths.antt =====
-- The paths that `Allocate` hands out are the links that `Create` makes.
use elastic_gpu_agent.Prelude.{
  ℕ, zero, suc, ◌+◌, ◌<◌, ◌≡◌, refl, ap, some, List, [], ◌∷◌, arith, Text, codes, length, ok, err,
  devices_empty, All, sym, ◌++◌, Member-cases, Member-append_left, Member-append_right,
  Member-append, Member, first, later, lookup, insert, subst, ◌⊎◌, inl, inr, text_eq,
}
use elastic_gpu_agent.Prelude.Order.{text_le}
use elastic_gpu_agent.Common.{resource_gpu_core, resource_gpu_memory}
use elastic_gpu_agent.Types.Device.{new_device}
use elastic_gpu_agent.Operator.Gpushare.{sym_path}
use elastic_gpu_agent.Plugins.Share.{share_id}
use elastic_gpu_agent.Plugins.Allocate.{
  spec, DeviceSpec, ContainerResponse, control_specs, share_spec, share_specs, all_ids, core_shares,
  core_response, allocate_core, memory_response, allocate_memory,
}

-- A device that the kubelet mounts: a file of the host, below /host in the container, with all
-- permissions.
pub record IsMounted (host_path : Text) (d : DeviceSpec) : Type 0 where
  pub host : d.host_path ≡ host_path
  pub container : d.container_path ≡ codes "/host" ++ host_path
  pub permissions : d.permissions ≡ codes "rwm"

-- Where the agent, whose container has the host's /dev at /host/dev, has a file of the host.
abbrev pub agent_path : Text → Text
agent_path host_path = codes "/host" ++ host_path

-- The three control devices.
abbrev pub control_paths : List Text
control_paths =
    codes "/dev/nvidiactl" ∷ codes "/dev/nvidia-uvm" ∷ codes "/dev/nvidia-uvm-tools" ∷ []

-- The share with the number is mounted: what the agent sees at its path is the link of `Create`.
pub record IsShareMount (hash : Text) (k : ℕ) (d : DeviceSpec) : Type 0 where
  pub linked : agent_path d.host_path ≡ sym_path (share_id hash k)
  pub mounted : IsMounted d.host_path d

-- A control device is mounted.
pub data IsControlMount (d : DeviceSpec) : Type 0 where
  control : (path : Text) → Member path control_paths → IsMounted path d → IsControlMount d

share_spec-IsShareMount : (faker : Text) (i : ℕ) → IsShareMount faker i (share_spec faker i)
unfolding share_spec sym_path share_id spec
share_spec-IsShareMount faker i = record {
  linked = refl;
  mounted = record { host = refl; container = refl; permissions = refl };
}

control_specs-IsControlMount : All IsControlMount control_specs
unfolding control_specs spec
control_specs-IsControlMount = (
  control _ first (record { host = refl; container = refl; permissions = refl }),
  (
    control _ (later first) (record { host = refl; container = refl; permissions = refl }),
    (
      control _ (later (later first))
          (record { host = refl; container = refl; permissions = refl }),
      tt,
    ),
  ),
)

control_specs_all :
    (path : Text)
    → Member path control_paths
    → (d : DeviceSpec) × Member d control_specs × IsMounted path d
unfolding control_specs spec
control_specs_all path m = go path control_specs control_paths m (
  record { host = refl; container = refl; permissions = refl },
  (
    record { host = refl; container = refl; permissions = refl },
    (record { host = refl; container = refl; permissions = refl }, tt),
  ),
)
  where
    -- The specs of a list, one for each path.
    Pairs : List DeviceSpec → List Text → Type 0
    Pairs [] [] = Unit
    Pairs [] (q ∷ qs) = ⊥
    Pairs (d ∷ ds) [] = ⊥
    Pairs (d ∷ ds) (q ∷ qs) = IsMounted q d × Pairs ds qs

    go :
        (path : Text) (ds : List DeviceSpec) (qs : List Text)
        → Member path qs
        → Pairs ds qs
        → (d : DeviceSpec) × Member d ds × IsMounted path d
    go path [] [] m h = elim m [ ]
    go path [] (q ∷ qs) m h = absurd h
    go path (d ∷ ds) [] m h = absurd h
    go path (d ∷ ds) (q ∷ qs) m h = elim (Member-cases m) [
      | inl e ↦ (d, first, subst (λ x. IsMounted x d) (sym e) h.0)
      | inr n ↦ (let (d', k, f) = go path ds qs n h.1 in (d', later k, f))
    ]

-- The two variables of a response.
lookup_gpu :
    (faker : Text)
    → lookup
        (codes "GPU")
        (insert (codes "GPU") faker (insert (codes "NVIDIA_VISIBLE_DEVICES") (codes "none") []))
      ≡ some faker
unfolding lookup insert text_eq text_le
lookup_gpu faker = refl

lookup_visible :
    (faker : Text)
    → lookup
        (codes "NVIDIA_VISIBLE_DEVICES")
        (insert (codes "GPU") faker (insert (codes "NVIDIA_VISIBLE_DEVICES") (codes "none") []))
      ≡ some (codes "none")
unfolding lookup insert text_eq text_le
lookup_visible faker = refl

length-share_specs : (faker : Text) (i n : ℕ) → length (share_specs faker i n) ≡ n
unfolding share_specs
length-share_specs faker i zero = refl
length-share_specs faker i (suc n) = ap suc (length-share_specs faker (suc i) n)

Member-share_specs :
    (faker : Text) (i n k : ℕ) → k < n → Member (share_spec faker (i + k)) (share_specs faker i n)
unfolding share_specs
Member-share_specs faker i zero k h = elim h [ ]
Member-share_specs faker i (suc n) zero h =
    subst (λ j. Member (share_spec faker j) (share_spec faker i ∷ share_specs faker (suc i) n))
      (omega arith) first
Member-share_specs faker i (suc n) (suc k) h = later (
    subst (λ j. Member (share_spec faker j) (share_specs faker (suc i) n)) (omega arith)
      (Member-share_specs faker (suc i) n k (omega arith)))

nth_share : (faker : Text) (n k : ℕ) → k < n → Member (share_spec faker k) (share_specs faker 0 n)
nth_share faker n k h =
    subst (λ j. Member (share_spec faker j) (share_specs faker 0 n)) (omega arith)
      (Member-share_specs faker 0 n k h)

-- Every spec of the loop is that of a share.
share_specs-All :
    (faker : Text) (i n : ℕ)
    → All (λ d. (k : ℕ) × (k < i + n) × IsShareMount faker k d) (share_specs faker i n)
unfolding share_specs
share_specs-All faker i zero = tt
share_specs-All faker i (suc n) = (
  (i, omega arith, share_spec-IsShareMount faker i),
  subst (λ j. All (λ d. (k : ℕ) × (k < j) × IsShareMount faker k d) (share_specs faker (suc i) n))
      (omega arith) (share_specs-All faker (suc i) n),
)

-- A response that mounts the first `n` shares of a device: `GPU` holds the device's hash; for each
-- share the host's file is mounted that the agent sees at the path of the link that `Create` makes;
-- the three control devices are mounted, and nothing else. Each has all permissions, and the path of
-- the host's file below /host.
pub record Mounts (hash : Text) (n : ℕ) (r : ContainerResponse) : Type 0 where
  pub gpu : lookup (codes "GPU") r.envs ≡ some hash
  pub visible : lookup (codes "NVIDIA_VISIBLE_DEVICES") r.envs ≡ some (codes "none")
  pub shares : (k : ℕ) → k < n → (d : DeviceSpec) × Member d r.devices × IsShareMount hash k d
  pub controls :
      (path : Text)
      → Member path control_paths
      → (d : DeviceSpec) × Member d r.devices × IsMounted path d
  pub nothing_else :
      (d : DeviceSpec)
      → Member d r.devices
      → ((k : ℕ) × (k < n) × IsShareMount hash k d) ⊎ IsControlMount d
  pub count : length r.devices ≡ n + 3

All-Member : {A : Type 0} (P : A → Type 0) (x : A) (l : List A) → All P l → Member x l → P x
All-Member P x [] h m = elim m [ ]
All-Member P x (y ∷ l) h first = h.0
All-Member P x (y ∷ l) h (later m) = All-Member P x l h.1 m

control_or : (A : Type 0) (d : DeviceSpec) → Member d control_specs → A ⊎ IsControlMount d
control_or A d m = inr (All-Member IsControlMount d control_specs control_specs-IsControlMount m)

share_or :
    (hash : Text) (n : ℕ) (d : DeviceSpec)
    → Member d (share_specs hash 0 n)
    → ((k : ℕ) × (k < n) × IsShareMount hash k d) ⊎ IsControlMount d
share_or hash n d m =
    let (k, less, mount) =
      All-Member (λ d. (k : ℕ) × (k < 0 + n) × IsShareMount hash k d) d (share_specs hash 0 n)
        (share_specs-All hash 0 n) m in
    inl (k, omega (arith, less), mount)

-- `Allocate` of the core plugin fails exactly on a request without ids; otherwise it answers for all
-- containers of the request at once, and mounts the links that `Create` makes for the device's
-- shares, one for each hundred ids and at least one, and the three control devices.
pub allocate_core-Mounts :
    (requests : List (List Text))
    → ((all_ids requests ≡ []) × (allocate_core requests ≡ err devices_empty))
      ⊎ ((r : ContainerResponse) × (allocate_core requests ≡ ok (r ∷ []))
          × Mounts
              (new_device (all_ids requests) resource_gpu_core).hash
              (core_shares (length (all_ids requests)))
              r)
unfolding allocate_core
allocate_core-Mounts requests = go (all_ids requests)
  where
    go :
        (ids : List Text)
        → ((ids ≡ []) × (core_response ids ≡ err devices_empty))
          ⊎ ((r : ContainerResponse) × (core_response ids ≡ ok (r ∷ []))
              × Mounts (new_device ids resource_gpu_core).hash (core_shares (length ids)) r)
    go [] = inl (refl, refl)
    go (id ∷ ids) =
        let faker = (new_device (id ∷ ids) resource_gpu_core).hash in
        let n = core_shares (length (id ∷ ids)) in
        inr (
          _,
          refl,
          record {
            gpu = lookup_gpu faker;
            visible = lookup_visible faker;
            shares = λ k h. (
              share_spec faker k,
              Member-append_right control_specs (share_specs faker 0 n) (nth_share faker n k h),
              share_spec-IsShareMount faker k,
            );
            controls = λ path m.
                let (d, k, f) = control_specs_all path m in
                (d, Member-append_left control_specs (share_specs faker 0 n) k, f);
            nothing_else = λ d m. elim (Member-append control_specs (share_specs faker 0 n) m) [
              | inl c ↦ control_or _ d c
              | inr k ↦ share_or faker n d k
            ];
            count = omega (arith, length-share_specs faker 0 n);
          },
        )

only_share :
    (faker : Text) (k : ℕ)
    → k < 1
    → (d : DeviceSpec) × Member d (share_spec faker 0 ∷ control_specs) × IsShareMount faker k d
only_share faker zero h = (share_spec faker 0, first, share_spec-IsShareMount faker 0)
only_share faker (suc k) h = absurd (omega arith)

-- `Allocate` of the memory plugin fails exactly on a request without ids; otherwise it answers for
-- all containers of the request at once, with one share.
pub allocate_memory-Mounts :
    (requests : List (List Text))
    → ((all_ids requests ≡ []) × (allocate_memory requests ≡ err devices_empty))
      ⊎ ((r : ContainerResponse) × (allocate_memory requests ≡ ok (r ∷ []))
          × Mounts (new_device (all_ids requests) resource_gpu_memory).hash 1 r)
unfolding allocate_memory
allocate_memory-Mounts requests = go (all_ids requests)
  where
    go :
        (ids : List Text)
        → ((ids ≡ []) × (memory_response ids ≡ err devices_empty))
          ⊎ ((r : ContainerResponse) × (memory_response ids ≡ ok (r ∷ []))
              × Mounts (new_device ids resource_gpu_memory).hash 1 r)
    go [] = inl (refl, refl)
    go (id ∷ ids) =
        let faker = (new_device (id ∷ ids) resource_gpu_memory).hash in
        inr (
          _,
          refl,
          record {
            gpu = lookup_gpu faker;
            visible = lookup_visible faker;
            shares = only_share faker;
            controls = λ path m. let (d, k, f) = control_specs_all path m in (d, later k, f);
            nothing_else = λ d m. elim (Member-cases m) [
              | inl e ↦ inl (
                0,
                omega arith,
                subst (IsShareMount faker 0) (sym e) (share_spec-IsShareMount faker 0),
              )
              | inr c ↦ control_or _ d c
            ];
            count = omega arith;
          },
        )
