-- ===== src/Kube/Provider.antt =====
-- The server of pod resources (pkg/podresources/server.go), which lists the pods of one provider with
-- the devices of another, and the search of a container in what it lists.
use elastic_gpu_agent.Prelude.{
  Member-of_eq, inr, inl, Member-cases, ◌≡◌, ◌⊎◌, ap, ◌∙◌, subst, none, List, [], ◌∷◌, Text, Result,
  ok, err, Member, first, later, no_such_pod,
}
use elastic_gpu_agent.Types.Device.{new_device}
use elastic_gpu_agent.Types.Pod.{PodContainer}
use elastic_gpu_agent.Kube.PodResources.{
  ContainerDevices, ContainerResources, PodResources, Kubelet,
}
use elastic_gpu_agent.Kube.Locator.{KubeletDeviceLocator, locate}
use elastic_gpu_agent.Kube.Locator.Search.{
  Holds, HeldBy, held, Located, at, nowhere, locate-Located,
}

-- of `v1.Pod`, what the server reads: the names of the containers are those of the spec
pub record SpecPod : Type 0 where
  pub uid : Text
  pub name : Text
  pub namespace : Text
  pub containers : List Text

-- `PodsProvider` and `DevicesProvider`
pub record Providers : Type 0 where
  pub get_pods : List SpecPod
  pub get_devices : Text → Text → List ContainerDevices

-- the inner loop
list_containers : Providers → Text → List Text → List ContainerResources
list_containers p uid [] = []
list_containers p uid (c ∷ cs) =
    record { name = c; devices = p.get_devices uid c } ∷ list_containers p uid cs

-- the outer loop
list_spec_pods : Providers → List SpecPod → List PodResources
unfolding list_containers
list_spec_pods p [] = []
list_spec_pods p (pod ∷ pods) =
    record {
      name = pod.name;
      namespace = pod.namespace;
      containers = list_containers p pod.uid pod.containers;
    }
    ∷ list_spec_pods p pods

unfoldable pub list : Providers → Result (List PodResources)
unfolding list_spec_pods
list p = ok (list_spec_pods p p.get_pods)

module _ (p : Providers) where
  container_of : Text → Text → ContainerResources
  container_of uid c = record { name = c; devices = p.get_devices uid c }

  resources_of : SpecPod → PodResources
  unfolding list_containers
  resources_of pod = record {
    name = pod.name;
    namespace = pod.namespace;
    containers = list_containers p pod.uid pod.containers;
  }

  Member-list_containers :
      (uid : Text) (cs : List Text) (r : ContainerResources)
      → Member r (list_containers p uid cs)
      → (c : Text) × Member c cs × (r ≡ container_of uid c)
  unfolding list_containers container_of
  Member-list_containers uid [] r m = elim m [ ]
  Member-list_containers uid (c ∷ cs) r m = elim (Member-cases m) [
    | inl e ↦ (c, first, e)
    | inr n ↦ (let (d, k, e) = Member-list_containers uid cs r n in (d, later k, e))
  ]

  list_containers-Member :
      (uid : Text) (cs : List Text) (c : Text)
      → Member c cs
      → Member (container_of uid c) (list_containers p uid cs)
  unfolding list_containers container_of
  list_containers-Member uid [] c m = elim m [ ]
  list_containers-Member uid (d ∷ cs) c m = elim (Member-cases m) [
    | inl e ↦ Member-of_eq _ (ap (container_of uid) e)
    | inr n ↦ later (list_containers-Member uid cs c n)
  ]

  Member-list_spec_pods :
      (pods : List SpecPod) (r : PodResources)
      → Member r (list_spec_pods p pods)
      → (pod : SpecPod) × Member pod pods × (r ≡ resources_of pod)
  unfolding list_spec_pods resources_of
  Member-list_spec_pods [] r m = elim m [ ]
  Member-list_spec_pods (pod ∷ pods) r m = elim (Member-cases m) [
    | inl e ↦ (pod, first, e)
    | inr n ↦ (let (q, k, e) = Member-list_spec_pods pods r n in (q, later k, e))
  ]

  list_spec_pods-Member :
      (pods : List SpecPod) (pod : SpecPod)
      → Member pod pods
      → Member (resources_of pod) (list_spec_pods p pods)
  unfolding list_spec_pods resources_of
  list_spec_pods-Member [] pod m = elim m [ ]
  list_spec_pods-Member (q ∷ pods) pod m = elim (Member-cases m) [
    | inl e ↦ Member-of_eq _ (ap resources_of e)
    | inr n ↦ later (list_spec_pods-Member pods pod n)
  ]

module _ (p : Providers) (resource : Text) (ids : List Text) where
  -- A container of a provided pod whose devices, as provided, hold the ids.
  pub data OwnedBy (pc : PodContainer) : Type 0 where
    owned :
        (pod : SpecPod) (c : Text)
        → Member pod p.get_pods
        → Member c pod.containers
        → Holds resource ids (record { name = c; devices = p.get_devices pod.uid c })
        → pc ≡ record { namespace = pod.namespace; name = pod.name; container = c }
        → OwnedBy pc

  HeldBy-OwnedBy :
      (pc : PodContainer) → HeldBy resource ids (list_spec_pods p p.get_pods) pc → OwnedBy pc
  unfolding resources_of container_of
  HeldBy-OwnedBy pc (held r d mr md h e) =
      let (pod, mp, er) = Member-list_spec_pods p p.get_pods r mr in
      let (c, mc, ed) =
        Member-list_containers p pod.uid pod.containers d
          (subst (λ (x : PodResources). Member d x.containers) er md) in
      owned pod c mp mc (subst (Holds resource ids) ed h) (
        e
        ∙ ap
            (λ (x : PodResources). record {
              namespace = x.namespace;
              name = x.name;
              container = d.name;
            })
            er
        ∙ ap
            (λ (x : ContainerResources). record {
              namespace = pod.namespace;
              name = pod.name;
              container = x.name;
            })
            ed)

  OwnedBy-HeldBy :
      (pc : PodContainer) → OwnedBy pc → HeldBy resource ids (list_spec_pods p p.get_pods) pc
  unfolding resources_of container_of
  OwnedBy-HeldBy pc (owned pod c mp mc h e) =
      held (resources_of p pod) (container_of p pod.uid c)
        (list_spec_pods-Member p p.get_pods pod mp)
        (list_containers-Member p pod.uid pod.containers c mc) h e

  -- What a search should return: a container that owns the ids, or that there is none.
  pub data IsAnswer : Result PodContainer → Type 0 where
    owned_at : (pc : PodContainer) → OwnedBy pc → IsAnswer (ok pc)
    owned_nowhere : ((pc : PodContainer) → OwnedBy pc → ⊥) → IsAnswer (err no_such_pod)

  Located-IsAnswer :
      (r : Result PodContainer) → Located resource ids (list_spec_pods p p.get_pods) r → IsAnswer r
  Located-IsAnswer r (at pc h) = owned_at pc (HeldBy-OwnedBy pc h)
  Located-IsAnswer r (nowhere n) = owned_nowhere (λ pc h. n pc (OwnedBy-HeldBy pc h))

-- `Locate` and the server of pod resources together: asked of a kubelet that answers as the server
-- does, over a connection that stands or can be made, `Locate` returns a container of a provided
-- pod whose provided devices hold the wanted ids, in any order, in one entry of the resource or in
-- all of them together, if there is one, and otherwise reports that there is none.
pub locate-list :
    (p : Providers) (kubelet : Kubelet) (k : KubeletDeviceLocator) (ids : List Text)
    → (k.err ≡ none) ⊎ (kubelet.get_client ≡ ok tt)
    → kubelet.list ≡ list p
    → IsAnswer p k.resource ids (locate kubelet (new_device ids k.resource) k).0
unfolding list
locate-list p kubelet k ids c e =
    Located-IsAnswer p k.resource ids _
      (locate-Located kubelet k ids (list_spec_pods p p.get_pods) c e)
