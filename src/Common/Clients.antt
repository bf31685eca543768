-- ===== src/Common/Clients.antt =====
-- The clients of the cluster (pkg/common/util.go). The packages of client-go are parameters.
use elastic_gpu_agent.Prelude.{[], Text, Result, ok, err}

-- `rest.InClusterConfig`, `clientcmd.BuildConfigFromFlags` of a master and a file, and
-- `kubernetes.NewForConfig`.
pub record ClientGo : Type 1 where
  pub Config : Type 0
  pub Clientset : Type 0
  pub in_cluster_config : Result Config
  pub build_config_from_flags : Text → Text → Result Config
  pub new_for_config : Config → Result Clientset

module _ (go : ClientGo) where
  open go use {Config, Clientset, in_cluster_config, build_config_from_flags, new_for_config}

  unfoldable pub new_config_from_kubeconf : Text → Result Config
  new_config_from_kubeconf kubeconf = elim (build_config_from_flags [] kubeconf) [
    | err e ↦ err e
    | ok config ↦ ok config
  ]

  unfoldable pub new_client_in_cluster : Result Clientset
  new_client_in_cluster = elim in_cluster_config [
    | err e ↦ err e
    | ok config ↦ new_for_config config
  ]

  unfoldable pub new_client_from_kubeconf : Text → Result Clientset
  unfolding new_config_from_kubeconf
  new_client_from_kubeconf kubeconf = elim (new_config_from_kubeconf kubeconf) [
    | err e ↦ err e
    | ok config ↦ new_for_config config
  ]

  -- A panic, in place of an error, ends the program all the same.
  unfoldable pub must_new_client_in_cluster : Result Clientset
  unfolding new_client_in_cluster
  must_new_client_in_cluster = elim new_client_in_cluster [ err e ↦ err e | ok client ↦ ok client ]
