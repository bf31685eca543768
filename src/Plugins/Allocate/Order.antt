-- ===== src/Plugins/Allocate/Order.antt =====
-- The answer of `Allocate` for ids that the kubelet later gives in another order.
use mathlib.Core.List.{Perm}
use elastic_gpu_agent.Prelude.{
  ◌≡◌, sym, ◌∙◌, subst, List, [], ◌∷◌, Text, length, Result, ok, inl, inr,
}
use elastic_gpu_agent.Common.{resource_gpu_core, resource_gpu_memory}
use elastic_gpu_agent.Types.Device.{Device, new_device}
use elastic_gpu_agent.Types.Device.Identity.{new_device_of_perm}
use elastic_gpu_agent.Plugins.Allocate.{
  ContainerResponse, all_ids, core_shares, allocate_core, allocate_memory,
}
use elastic_gpu_agent.Plugins.Allocate.Paths.{Mounts, allocate_core-Mounts, allocate_memory-Mounts}

only :
    (q r : ContainerResponse)
    → ◌≡◌ {A = Result (List ContainerResponse)} (ok (q ∷ [])) (ok (r ∷ []))
    → q ≡ r
only q r e = cc

pub core-Mounts :
    (requests : List (List Text)) (ids : List Text) (r : ContainerResponse)
    → Perm (all_ids requests) ids
    → allocate_core requests ≡ ok (r ∷ [])
    → Mounts (new_device ids resource_gpu_core).hash (core_shares (length (all_ids requests))) r
core-Mounts requests ids r perm e =
    let n = core_shares (length (all_ids requests)) in
    elim (allocate_core-Mounts requests) [
      | inl (empty, f) ↦ absurd (cc (f, e))
      | inr (q, f, m) ↦
          subst (λ (d : Device). Mounts d.hash n r)
            (new_device_of_perm (all_ids requests) ids resource_gpu_core perm)
            (subst (Mounts (new_device (all_ids requests) resource_gpu_core).hash n)
              (only q r (sym f ∙ e)) m)
    ]

pub memory-Mounts :
    (requests : List (List Text)) (ids : List Text) (r : ContainerResponse)
    → Perm (all_ids requests) ids
    → allocate_memory requests ≡ ok (r ∷ [])
    → Mounts (new_device ids resource_gpu_memory).hash 1 r
memory-Mounts requests ids r perm e = elim (allocate_memory-Mounts requests) [
  | inl (empty, f) ↦ absurd (cc (f, e))
  | inr (q, f, m) ↦
      subst (λ (d : Device). Mounts d.hash 1 r)
        (new_device_of_perm (all_ids requests) ids resource_gpu_memory perm)
        (subst (Mounts (new_device (all_ids requests) resource_gpu_memory).hash 1)
          (only q r (sym f ∙ e)) m)
]
