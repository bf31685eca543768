-- ===== src/Kube/Sitter.antt =====
-- pkg/kube/sitter.go: what the lister and the API server answer at one time, and the handler that
-- `NewSitter` gives the informer. The Kubernetes clients are parameters.
use elastic_gpu_agent.Prelude.{Bool, false, Option, none, some, Text, codes, Dict, Result}

-- of `v1.Pod`, what the agent reads
pub record Pod : Type 0 where
  pub namespace : Text
  pub name : Text
  pub annotations : Dict Text

-- `Sitter.GetPod` and `Sitter.GetPodFromApiServer`, by namespace and name
pub record PodSitter : Type 0 where
  pub get_pod : Text → Text → Result Pod
  pub get_pod_from_api_server : Text → Text → Result Pod

-- `HasSynced`, of an informer that may be nil
unfoldable pub has_synced : Option Bool → Bool
has_synced none = false
has_synced (some synced) = synced

-- of `metav1.ListOptions`, what the filter sets
pub record ListOptions : Type 0 where
  pub field_selector : Text

-- `nodeNameFilter`, of the text that `fields.OneTermEqualSelector` makes of a field and a value
node_name_filter : (Text → Text → Text) → Text → ListOptions → ListOptions
node_name_filter one_term_equal_selector node_name options = record options {
  field_selector = one_term_equal_selector (codes "spec.nodeName") node_name;
}

-- What an informer passes to a delete handler: a pointer to the pod or, where the watch missed the
-- deletion, the last state that it knew, under its key.
pub data Object : Type 0 where
  pod_pointer : Pod → Object
  deleted_final_state_unknown : Text → Pod → Object

-- Of the packages of client-go, what the sitter asks: the lister of the informer, and the client.
pub record Cluster : Type 0 where
  pub lister_get : Text → Text → Result Pod
  pub pods_get : Text → Text → Result Pod

-- What `NewSitter` sets up: the options of the informer's lists, its delete handler, which ends with
-- an `H`, and what the lister and the client answer.
pub record Sitter (H : Type 0) : Type 0 where
  pub tweak_list_options : ListOptions → ListOptions
  pub delete_func : Object → H
  pub pods : PodSitter

-- `PodSitter.GetPod` and `PodSitter.GetPodFromApiServer`
unfoldable pub pod_sitter : Cluster → PodSitter
pod_sitter cluster = record {
  get_pod = cluster.lister_get;
  get_pod_from_api_server = cluster.pods_get;
}

unfoldable pub new_sitter :
    {H : Type 0} → (Text → Text → Text) → Cluster → Text → (Object → H) → Sitter H
unfolding node_name_filter pod_sitter
new_sitter one_term_equal_selector cluster node_name delete_hook = record {
  tweak_list_options = node_name_filter one_term_equal_selector node_name;
  delete_func = λ obj. delete_hook obj;
  pods = pod_sitter cluster;
}
