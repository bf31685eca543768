-- ===== src/Kube/Locator/Search.antt =====
-- Which container `Locate` finds.
use mathlib.Core.List.{Perm}
use elastic_gpu_agent.Prelude.{
  ◌≡◌, ◌≢◌, ◌⊎◌, inl, inr, refl, sym, true, Option, none, some, List, [], ◌∷◌, ◌++◌, arith, Text,
  text_eq, text_eq_iff, text_eq_sound, subst, append_assoc, append-nil, if◌then◌else◌, Result, ok,
  err, no_such_pod, Member, first, later, Bool-cases,
}
use elastic_gpu_agent.Types.Device.{Device, new_device, device_equals}
use elastic_gpu_agent.Types.Device.Identity.{device_equals-new_device}
use elastic_gpu_agent.Types.Pod.{PodContainer}
use elastic_gpu_agent.Kube.PodResources.{
  ContainerDevices, ContainerResources, PodResources, Kubelet,
}
use elastic_gpu_agent.Kube.Locator.{
  KubeletDeviceLocator, scan, holds, in_containers, in_pods, answer, locate,
}

module _ (resource : Text) (ids : List Text) where
  -- The ids of the resource among a container's devices, entry after entry.
  pub resource_ids : List ContainerDevices → List Text
  resource_ids [] = []
  resource_ids (r ∷ rs) =
      if text_eq r.resource_name resource then r.device_ids ++ resource_ids rs else resource_ids rs

  -- An entry of the resource that alone has the wanted ids.
  pub data HasEntry : List ContainerDevices → Type 0 where
    here :
        {r : ContainerDevices} {rs : List ContainerDevices}
        → r.resource_name ≡ resource
        → Perm ids r.device_ids
        → HasEntry (r ∷ rs)
    there : {r : ContainerDevices} {rs : List ContainerDevices} → HasEntry rs → HasEntry (r ∷ rs)

  -- The container holds the wanted ids, in any order: in one entry, or in all entries of the
  -- resource together.
  abbrev pub Holds : ContainerResources → Type 0
  Holds c = HasEntry c.devices ⊎ Perm ids (resource_ids c.devices)

  abbrev wanted : Device
  wanted = new_device ids resource

  scan-none :
      (rs : List ContainerDevices) (acc : List Text)
      → scan resource wanted rs acc ≡ none
      → HasEntry rs
  unfolding scan
  scan-none [] acc e = absurd (cc)
  scan-none (r ∷ rs) acc e = elim (Bool-cases (text_eq r.resource_name resource)) [
    | inr other ↦ there (scan-none rs acc (ground arith))
    | inl same ↦
        elim (Bool-cases (device_equals wanted (new_device r.device_ids r.resource_name))) [
          | inl equal ↦
              here (text_eq_sound r.resource_name resource same)
                ((device_equals-new_device ids r.device_ids resource r.resource_name).0 equal).0
          | inr differ ↦ there (scan-none rs (acc ++ r.device_ids) (ground arith))
        ]
  ]

  scan-some :
      (rs : List ContainerDevices) (acc got : List Text)
      → scan resource wanted rs acc ≡ some got
      → got ≡ acc ++ resource_ids rs
  unfolding scan resource_ids
  scan-some [] acc got e = ground (arith, append-nil acc)
  scan-some (r ∷ rs) acc got e = ground (
    arith,
    scan-some rs (acc ++ r.device_ids) got,
    scan-some rs acc got,
    append_assoc acc r.device_ids (resource_ids rs),
  )

  scan_of_HasEntry :
      (rs : List ContainerDevices) (acc : List Text)
      → HasEntry rs
      → scan resource wanted rs acc ≡ none
  unfolding scan
  scan_of_HasEntry [] acc h = elim h [ ]
  scan_of_HasEntry (r ∷ rs) acc (here e p) = rw (
    (text_eq_iff r.resource_name resource).1 e,
    (device_equals-new_device ids r.device_ids resource r.resource_name).1 (p, sym e),
  )
  scan_of_HasEntry (r ∷ rs) acc (there h) =
      ground (arith, scan_of_HasEntry rs (acc ++ r.device_ids) h, scan_of_HasEntry rs acc h)

  -- The loop's test of a container decides whether the container holds the ids.
  holds_sound : (c : ContainerResources) → holds resource wanted c ≡ true → Holds c
  unfolding holds
  holds_sound c e = go (scan resource wanted c.devices []) refl
    where
      go : (o : Option (List Text)) → scan resource wanted c.devices [] ≡ o → Holds c
      go none g = inl (scan-none c.devices [] g)
      go (some got) g =
          inr
            ((device_equals-new_device ids (resource_ids c.devices) resource resource).0
              (rw (← scan-some c.devices [] got g) (ground arith))).0

  holds_complete : (c : ContainerResources) → Holds c → holds resource wanted c ≡ true
  unfolding holds
  holds_complete c (inl h) = ground (arith, scan_of_HasEntry c.devices [] h)
  holds_complete c (inr p) = go (scan resource wanted c.devices []) refl
    where
      go :
          (o : Option (List Text))
          → scan resource wanted c.devices [] ≡ o
          → holds resource wanted c ≡ true
      go none g = ground arith
      go (some got) g = ground (
        arith,
        scan-some c.devices [] got g,
        (device_equals-new_device ids (resource_ids c.devices) resource resource).1 (p, refl),
      )

  -- A container of one of the pods that holds the ids, by its names.
  pub data HeldBy (pods : List PodResources) (pc : PodContainer) : Type 0 where
    held :
        (pod : PodResources) (c : ContainerResources)
        → Member pod pods
        → Member c pod.containers
        → Holds c
        → pc ≡ record { namespace = pod.namespace; name = pod.name; container = c.name }
        → HeldBy pods pc

  in_containers_sound :
      (s n : Text) (cs : List ContainerResources) (pc : PodContainer)
      → in_containers resource wanted s n cs ≡ some pc
      → (c : ContainerResources) × Member c cs
        × Holds c
        × (pc ≡ record { namespace = s; name = n; container = c.name })
  unfolding in_containers
  in_containers_sound s n [] pc e = absurd (cc)
  in_containers_sound s n (c ∷ cs) pc e = elim (Bool-cases (holds resource wanted c)) [
    | inl h ↦ (c, first, holds_sound c h, ground arith)
    | inr h ↦
        let (d, m, hd, e') = in_containers_sound s n cs pc (ground arith) in (d, later m, hd, e')
  ]

  in_containers_complete :
      (s n : Text) (cs : List ContainerResources) (c : ContainerResources)
      → Member c cs
      → Holds c
      → in_containers resource wanted s n cs ≢ none
  unfolding in_containers
  in_containers_complete s n [] c m h e = elim m [ ]
  in_containers_complete s n (d ∷ cs) c first h e = ground (arith, holds_complete d h)
  in_containers_complete s n (d ∷ cs) c (later m) h e =
      ground (arith, in_containers_complete s n cs c m h)

  pub in_pods_sound :
      (pods : List PodResources) (pc : PodContainer)
      → in_pods resource wanted pods ≡ some pc
      → HeldBy pods pc
  unfolding in_pods
  in_pods_sound [] pc e = absurd (cc)
  in_pods_sound (pod ∷ pods) pc e =
      go (in_pods_sound pods pc)
        (in_containers resource wanted pod.namespace pod.name pod.containers) refl
    where
      weaken : HeldBy pods pc → HeldBy (pod ∷ pods) pc
      weaken (held p c mp mc h eq) = held p c (later mp) mc h eq

      go :
          (in_pods resource wanted pods ≡ some pc → HeldBy pods pc)
          → (o : Option PodContainer)
          → in_containers resource wanted pod.namespace pod.name pod.containers ≡ o
          → HeldBy (pod ∷ pods) pc
      go later_pods none g = weaken (later_pods (ground arith))
      go later_pods (some q) g =
          let (c, m, h, eq) = in_containers_sound pod.namespace pod.name pod.containers q g in
          held pod c first m h (ground arith)

  in_pods_complete :
      (pods : List PodResources) (pod : PodResources) (c : ContainerResources)
      → Member pod pods
      → Member c pod.containers
      → Holds c
      → in_pods resource wanted pods ≢ none
  unfolding in_pods
  in_pods_complete [] pod c mp mc h e = elim mp [ ]
  in_pods_complete (other ∷ pods) pod c first mc h e =
      ground (arith, in_containers_complete other.namespace other.name other.containers c mc h)
  in_pods_complete (other ∷ pods) pod c (later mp) mc h e =
      ground (arith, in_pods_complete pods pod c mp mc h)

  -- What `Locate` answers of these pods: a container that holds the ids, or the error that there is
  -- none, in which case no container holds them.
  pub data Located (pods : List PodResources) : Result PodContainer → Type 0 where
    at : (pc : PodContainer) → HeldBy pods pc → Located pods (ok pc)
    nowhere : ((pc : PodContainer) → HeldBy pods pc → ⊥) → Located pods (err no_such_pod)

  in_pods-Located :
      (pods : List PodResources) → Located pods (answer (in_pods resource wanted pods))
  in_pods-Located pods = go (in_pods resource wanted pods) refl
    where
      go :
          (o : Option PodContainer)
          → in_pods resource wanted pods ≡ o
          → Located pods (answer (in_pods resource wanted pods))
      go (some pc) e = unfold answer in rw e (at pc (in_pods_sound pods pc e))
      go none e =
          unfold answer in
          rw e (
            nowhere
              (λ pc h. elim h [ held pod c mp mc hc eq ↦ in_pods_complete pods pod c mp mc hc e ]))

locate-answer :
    (kubelet : Kubelet) (k : KubeletDeviceLocator) (ids : List Text) (pods : List PodResources)
    → (k.err ≡ none) ⊎ (kubelet.get_client ≡ ok tt)
    → kubelet.list ≡ ok pods
    → (locate kubelet (new_device ids k.resource) k).0
      ≡ answer (in_pods k.resource (new_device ids k.resource) pods)
unfolding locate
locate-answer kubelet k ids pods c l = ground arith

-- With a connection that holds or can be made, and a `List` call that answers, `Locate` on a set of
-- ids finds a container that holds them if there is one, and says so if there is none.
pub locate-Located :
    (kubelet : Kubelet) (k : KubeletDeviceLocator) (ids : List Text) (pods : List PodResources)
    → (k.err ≡ none) ⊎ (kubelet.get_client ≡ ok tt)
    → kubelet.list ≡ ok pods
    → Located k.resource ids pods (locate kubelet (new_device ids k.resource) k).0
locate-Located kubelet k ids pods c l =
    subst (Located k.resource ids pods) (sym (locate-answer kubelet k ids pods c l))
      (in_pods-Located k.resource ids pods)
