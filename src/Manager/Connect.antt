-- ===== src/Manager/Connect.antt =====
-- When the agent gets its clients.
use elastic_gpu_agent.Prelude.{
  ◌≡◌, ◌↔◌, refl, [], Text, text_eq, arith, Result, ok, err, if◌then◌else◌,
}
use elastic_gpu_agent.Common.Clients.{
  must_new_client_in_cluster, new_client_in_cluster, new_client_from_kubeconf,
  new_config_from_kubeconf,
}
use elastic_gpu_agent.Manager.{Clients, connect, and_then}

module _ (clients : Clients) where
  open clients use {go, versioned_for_config}

  -- The configuration that a path stands for: the cluster's own without a path, and else the file's.
  abbrev pub config_of : Text → Result go.Config
  config_of kubeconf =
      if text_eq kubeconf [] then go.in_cluster_config else go.build_config_from_flags [] kubeconf

  -- A configuration that both clients can be made with.
  pub record IsUsable (kubeconf : Text) : Type 0 where
    pub config : go.Config
    pub has_config : config_of kubeconf ≡ ok config
    pub client : go.Clientset
    pub has_client : go.new_for_config config ≡ ok client
    pub has_versioned : versioned_for_config config ≡ ok tt

  connect_inv :
      (kubeconf : Text) (b : Result go.Config)
      → config_of kubeconf ≡ b
      → connect clients kubeconf ≡ ok tt
      → IsUsable kubeconf
  unfolding connect and_then must_new_client_in_cluster new_client_in_cluster
      new_client_from_kubeconf new_config_from_kubeconf
  connect_inv kubeconf (err e) g h = absurd (ground (arith, g, h))
  connect_inv kubeconf (ok c) g h = with_client (go.new_for_config c) refl
    where
      with_client : (r : Result go.Clientset) → go.new_for_config c ≡ r → IsUsable kubeconf
      with_client (err e) f = absurd (ground (arith, g, h, f))
      with_client (ok k) f = record {
        config = c;
        has_config = g;
        client = k;
        has_client = f;
        has_versioned = ground (arith, g, h, f);
      }

  -- The agent gets its clients exactly if there is a configuration, that of the cluster without a
  -- path and that of the file with one, and both clients can be made with it.
  pub connect_iff : (kubeconf : Text) → (connect clients kubeconf ≡ ok tt) ↔ IsUsable kubeconf
  unfolding connect and_then must_new_client_in_cluster new_client_in_cluster
      new_client_from_kubeconf new_config_from_kubeconf
  connect_iff kubeconf = (
    connect_inv kubeconf (config_of kubeconf) refl,
    λ u. ground (arith, u.has_config, u.has_client, u.has_versioned),
  )
