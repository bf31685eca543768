-- ===== src/Kube/Locator/Found.antt =====
-- What a container that `Locate` returns has to do with the kubelet's list.
use elastic_gpu_agent.Prelude.{
  ◌≡◌, refl, sym, ap, ◌∙◌, Option, none, some, List, Text, Result, ok, err, Error,
}
use elastic_gpu_agent.Types.Device.{Device, new_device}
use elastic_gpu_agent.Types.Pod.{PodContainer}
use elastic_gpu_agent.Kube.PodResources.{PodResources, Kubelet}
use elastic_gpu_agent.Kube.Locator.{
  KubeletDeviceLocator, in_pods, answer, query, reconnect, connected, locate,
}
use elastic_gpu_agent.Kube.Locator.Search.{HeldBy, in_pods_sound}

module _ (resource : Text) (ids : List Text) (pc : PodContainer) where
  answer-HeldBy :
      (pods : List PodResources) (o : Option PodContainer)
      → in_pods resource (new_device ids resource) pods ≡ o
      → answer o ≡ ok pc
      → HeldBy resource ids pods pc
  unfolding answer
  answer-HeldBy pods none g h = absurd (cc)
  answer-HeldBy pods (some q) g h = in_pods_sound resource ids pods pc (g ∙ cc)

  query-HeldBy :
      (l : Result (List PodResources)) (j k : KubeletDeviceLocator)
      → j.resource ≡ resource
      → query (new_device ids resource) l j ≡ (ok pc, k)
      → (pods : List PodResources) × (l ≡ ok pods) × HeldBy resource ids pods pc
  unfolding query
  query-HeldBy (err e) j k r h = absurd (cc)
  query-HeldBy (ok pods) j k r h = (
    pods,
    refl,
    answer-HeldBy pods (in_pods j.resource (new_device ids resource) pods)
        (ap (λ x. in_pods x (new_device ids resource) pods) (sym r)) (ap (λ x. x.0) h),
  )

  reconnect-HeldBy :
      (c : Result (Unit {0})) (kubelet : Kubelet) (k k' : KubeletDeviceLocator)
      → k.resource ≡ resource
      → reconnect c kubelet (new_device ids resource) k ≡ (ok pc, k')
      → (pods : List PodResources) × (kubelet.list ≡ ok pods) × HeldBy resource ids pods pc
  unfolding reconnect
  reconnect-HeldBy (ok u) kubelet k k' r h =
      query-HeldBy kubelet.list (record k { err = none }) k' r h
  reconnect-HeldBy (err e) kubelet k k' r h = absurd (cc)

  connected-HeldBy :
      (o : Option Error) (kubelet : Kubelet) (k k' : KubeletDeviceLocator)
      → k.resource ≡ resource
      → connected o kubelet (new_device ids resource) k ≡ (ok pc, k')
      → (pods : List PodResources) × (kubelet.list ≡ ok pods) × HeldBy resource ids pods pc
  unfolding connected
  connected-HeldBy none kubelet k k' r h = query-HeldBy kubelet.list k k' r h
  connected-HeldBy (some e) kubelet k k' r h = reconnect-HeldBy kubelet.get_client kubelet k k' r h

-- A container that `Locate` returns is one of the kubelet's list, and holds the ids.
pub locate-HeldBy :
    (kubelet : Kubelet) (resource : Text) (ids : List Text) (k k' : KubeletDeviceLocator)
    (pc : PodContainer)
    → k.resource ≡ resource
    → locate kubelet (new_device ids resource) k ≡ (ok pc, k')
    → (pods : List PodResources) × (kubelet.list ≡ ok pods) × HeldBy resource ids pods pc
unfolding locate
locate-HeldBy kubelet resource ids k k' pc r e =
    connected-HeldBy resource ids pc k.err kubelet k k' r e

resource-query :
    (devices : Device) (l : Result (List PodResources)) (j : KubeletDeviceLocator)
    → (query devices l j).1.resource ≡ j.resource
unfolding query
resource-query devices (ok pods) j = refl
resource-query devices (err e) j = refl

resource-reconnect :
    (c : Result (Unit {0})) (kubelet : Kubelet) (devices : Device) (k : KubeletDeviceLocator)
    → (reconnect c kubelet devices k).1.resource ≡ k.resource
unfolding reconnect
resource-reconnect (ok u) kubelet devices k =
    resource-query devices kubelet.list (record k { err = none })
resource-reconnect (err e) kubelet devices k = refl

resource-connected :
    (o : Option Error) (kubelet : Kubelet) (devices : Device) (k : KubeletDeviceLocator)
    → (connected o kubelet devices k).1.resource ≡ k.resource
unfolding connected
resource-connected none kubelet devices k = resource-query devices kubelet.list k
resource-connected (some e) kubelet devices k =
    resource-reconnect kubelet.get_client kubelet devices k

-- `Locate` does not change the resource.
pub resource-locate :
    (kubelet : Kubelet) (devices : Device) (k : KubeletDeviceLocator)
    → (locate kubelet devices k).1.resource ≡ k.resource
unfolding locate
resource-locate kubelet devices k = resource-connected k.err kubelet devices k
