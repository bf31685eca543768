-- ===== src/Operator/Nvidia.antt =====
-- pkg/operator/nvidia.go: the operator of whole GPUs, which makes no links. Nothing uses it.
use elastic_gpu_agent.Prelude.{Bool, true, Text, Exec, pure, ℤ}
use elastic_gpu_agent.Operator.FileSystem.{Files}

module _ (files : Files) where
  open files use {State}

  nvidia_check : ℤ → Text → State → Bool
  nvidia_check index id s = true

  nvidia_create : ℤ → Text → Exec State (Unit {0})
  nvidia_create index id = pure tt

  nvidia_delete : ℤ → Text → Exec State (Unit {0})
  nvidia_delete index id = pure tt
