-- ===== src/Plugins/PreStart/Assignment.antt =====
-- What `PreStartContainer` learns before it makes links: the container, and the value of its
-- annotation.
use elastic_gpu_agent.Prelude.{
  ◌≡◌, refl, sym, ap, ◌∙◌, subst, Option, none, some, List, [], ◌∷◌, Text, lookup, ok, >>=-ok, lift,
  ◌>>=◌,
}
use elastic_gpu_agent.Common.{assumed_annotation, container_annotation}
use elastic_gpu_agent.Types.Device.{new_device}
use elastic_gpu_agent.Types.Pod.{PodContainer}
use elastic_gpu_agent.Kube.Sitter.{Pod, PodSitter}
use elastic_gpu_agent.Kube.PodResources.{PodResources, Kubelet}
use elastic_gpu_agent.Kube.Locator.{KubeletDeviceLocator, locate}
use elastic_gpu_agent.Kube.Locator.Search.{HeldBy}
use elastic_gpu_agent.Kube.Locator.Found.{locate-HeldBy}
use elastic_gpu_agent.Plugins.PreStart.{
  Assumed, find_assumed, of_pod, of_annotations, assumed_value,
}

-- A container that the kubelet lists with the ids, of a pod that is marked as assumed and has the
-- value in the container's annotation.
pub record IsAssigned (kubelet : Kubelet) (sitter : PodSitter) (resource : Text) (ids : List Text)
    (a : Assumed) : Type 0 where
  pub pods : List PodResources
  pub listed : kubelet.list ≡ ok pods
  pub held : HeldBy resource ids pods a.curr
  pub pod : Pod
  pub found : sitter.get_pod a.curr.namespace a.curr.name ≡ ok pod
  pub mark : Text
  pub marked : lookup assumed_annotation pod.annotations ≡ some mark
  pub annotated : lookup (container_annotation a.curr.container) pod.annotations ≡ some a.assumed

-- The two annotations of a pod.
record Annotated (curr : PodContainer) (pod : Pod) (a : Assumed) : Type 0 where
  same : a.curr ≡ curr
  mark : Text
  marked : lookup assumed_annotation pod.annotations ≡ some mark
  annotated : lookup (container_annotation curr.container) pod.annotations ≡ some a.assumed

of_pod-Annotated :
    (curr : PodContainer) (pod : Pod) (a : Assumed) → of_pod curr pod ≡ ok a → Annotated curr pod a
unfolding of_pod
of_pod-Annotated curr pod a e = with_mark (lookup assumed_annotation pod.annotations) refl e
  where
    with_value :
        (mark : Text) (o : Option Text)
        → lookup assumed_annotation pod.annotations ≡ some mark
        → lookup (container_annotation curr.container) pod.annotations ≡ o
        → assumed_value curr o ≡ ok a
        → Annotated curr pod a
    with_value mark none g h f = absurd (cc)
    with_value mark (some v) g h f =
        let same : ◌≡◌ {A = Assumed} (record { curr = curr; assumed = v }) a = cc in
        record {
          same = sym (ap (λ (x : Assumed). x.curr) same);
          mark = mark;
          marked = g;
          annotated = h ∙ ap (λ (x : Assumed). some x.assumed) same;
        }

    with_mark :
        (o : Option Text)
        → lookup assumed_annotation pod.annotations ≡ o
        → of_annotations curr pod.annotations o ≡ ok a
        → Annotated curr pod a
    with_mark none g f = absurd (cc)
    with_mark (some mark) g f =
        with_value mark (lookup (container_annotation curr.container) pod.annotations) g refl f

-- What is found without an error is assigned, where the locator is that of the resource.
pub find_assumed-IsAssigned :
    (kubelet : Kubelet) (sitter : PodSitter) (resource : Text) (ids : List Text)
    (k k' : KubeletDeviceLocator) (a : Assumed)
    → k.resource ≡ resource
    → find_assumed kubelet sitter resource ids k ≡ (ok a, k')
    → IsAssigned kubelet sitter resource ids a
unfolding find_assumed
find_assumed-IsAssigned kubelet sitter resource [] k k' a r e = absurd (cc)
find_assumed-IsAssigned kubelet sitter resource (id ∷ ids) k k' a r e =
    let devices = new_device (id ∷ ids) resource in
    let (curr, k1, l, e1) =
      >>=-ok (locate kubelet devices)
        (λ c. lift (sitter.get_pod c.namespace c.name) >>= λ p. lift (of_pod c p)) k k' e in
    let (pod, k2, g, e2) =
      >>=-ok (lift (sitter.get_pod curr.namespace curr.name)) (λ p. lift (of_pod curr p)) k1 k'
        e1 in
    let (pods, listed, has) = locate-HeldBy kubelet resource (id ∷ ids) k k1 curr r l in
    let n = of_pod-Annotated curr pod a (ap (λ x. x.0) e2) in
    record {
      pods = pods;
      listed = listed;
      held = subst (HeldBy resource (id ∷ ids) pods) (sym n.same) has;
      pod = pod;
      found = ap (λ (c : PodContainer). sitter.get_pod c.namespace c.name) n.same ∙ ap (λ x. x.0) g;
      mark = n.mark;
      marked = n.marked;
      annotated =
          ap (λ (c : PodContainer). lookup (container_annotation c.container) pod.annotations)
            n.same
          ∙ n.annotated;
    }
