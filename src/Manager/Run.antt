-- ===== src/Manager/Run.antt =====
-- `GPUManagerImpl.Run` (pkg/manager/manager.go): the plugins and the collector start when the sitter
-- has listed the pods. `informer` is what the informer answers at each poll, and the channel that
-- could end the polling is never closed.
use elastic_gpu_agent.Prelude.{
  ◌++◌, ℕ, zero, suc, ◌+◌, ◌<◌, ◌≤◌, ◌≡◌, refl, ap, Bool, true, false, Option, none, some, List, [],
  ◌∷◌, arith, Dict, if◌then◌else◌, Bool-cases, inl, inr,
}
use elastic_gpu_agent.Kube.Sitter.{has_synced}
use elastic_gpu_agent.Plugins.Factory.{PluginServer}

-- What `Run` starts, in the order in which it does: the sitter, each plugin server, the collector.
pub data Activity : Type 0 where
  sitter_starts : Activity
  polled : ℕ → Activity
  server_runs : PluginServer → Activity
  collector_runs : Activity

-- `GPUSharePlugin.Run`
pub run_servers : Dict PluginServer → List Activity
run_servers [] = []
run_servers ((k, p) ∷ servers) = server_runs p ∷ run_servers servers

module _ (informer : ℕ → Option Bool) where
  -- `wait.PollImmediateUntil`, for at most `n` polls from the `i`-th on: the poll that ends it
  poll : ℕ → ℕ → Option ℕ
  poll zero i = none
  poll (suc n) i = let rest = poll n (suc i) in if has_synced (informer i) then some i else rest

  activities : Dict PluginServer → Option ℕ → Option (List Activity)
  activities servers none = none
  activities servers (some i) =
      some (sitter_starts ∷ polled i ∷ run_servers servers ++ collector_runs ∷ [])

  unfoldable pub run : Dict PluginServer → ℕ → Option (List Activity)
  unfolding poll activities run_servers
  run servers fuel = activities servers (poll fuel 0)

  -- The sitter has synced at the `k`-th poll and at none before.
  pub record IsFirst (k : ℕ) : Type 0 where
    pub synced : has_synced (informer k) ≡ true
    pub before : (j : ℕ) → j < k → has_synced (informer j) ≡ false

  poll-first : (n i k : ℕ) → IsFirst k → i ≤ k → k < i + n → poll n i ≡ some k
  unfolding poll
  poll-first zero i k f l m = absurd (omega (arith, l, m))
  poll-first (suc n) i k f l m = elim (Bool-cases (has_synced (informer i))) [
    | inl now ↦ ground (arith, now, f.before i, l)
    | inr wait ↦ ground (arith, wait, f.synced, l, m, poll-first n (suc i) k f)
  ]

  poll-none : (n i : ℕ) → ((j : ℕ) → j < i + n → has_synced (informer j) ≡ false) → poll n i ≡ none
  unfolding poll
  poll-none zero i h = refl
  poll-none (suc n) i h =
      ground (arith, h i (omega arith), poll-none n (suc i) (λ j l. h j (omega (arith, l))))

  -- If the sitter has synced at the `k`-th poll and at none before, then `Run` ends once it may poll
  -- more than `k` times: it polls up to the `k`-th, and only then starts each server and, behind
  -- them, the collector. Within `k` polls it does not end, and starts none of them.
  pub run_lem :
      (servers : Dict PluginServer) (k fuel : ℕ)
      → IsFirst k
      → (k < fuel
          → run servers fuel
            ≡ some (sitter_starts ∷ polled k ∷ run_servers servers ++ collector_runs ∷ []))
        × (fuel ≤ k → run servers fuel ≡ none)
  unfolding run activities
  run_lem servers k fuel f = (
    λ h. ap (activities servers) (poll-first fuel 0 k f (omega arith) (omega (arith, h))),
    λ h. ap (activities servers) (poll-none fuel 0 (λ j l. f.before j (omega (arith, l, h)))),
  )
