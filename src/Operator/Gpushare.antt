-- ===== src/Operator/Gpushare.antt =====
-- pkg/operator/gpushare.go: a share of a GPU is a pair of symbolic links. The proofs are in the
-- modules below.
pub mod Links
pub mod Removal
use elastic_gpu_agent.Prelude.{
  ◌≡◌, Bool, true, false, ◌&&◌, ◌∷◌, ◌++◌, Text, codes, if◌then◌else◌, Result, ok, err, Error, Exec,
  pure, file_exists, ℤ,
}
use elastic_gpu_agent.Go.Strconv.{itoa}
use elastic_gpu_agent.Operator.FileSystem.{Files}

-- `/dev/nvidia%d`
unfoldable pub gpu_path : ℤ → Text
gpu_path index = codes "/dev/nvidia" ++ itoa index

abbrev pub gpu_ctl_path : Text
gpu_ctl_path = codes "/dev/nvidiactl"

-- `/host/dev/elastic-gpu-%s`
unfoldable pub sym_path : Text → Text
sym_path id = codes "/host/dev/elastic-gpu-" ++ id

-- `/host/dev/elastic-gpuctl-%s`
unfoldable pub sym_ctl_path : Text → Text
sym_ctl_path id = codes "/host/dev/elastic-gpuctl-" ++ id

-- `err == nil || os.IsExist(err)`
exists_of : Result (Unit {0}) → Bool
exists_of (ok u) = true
exists_of (err file_exists) = true
exists_of (err e) = false

is_ok : Result (Unit {0}) → Bool
is_ok (ok u) = true
is_ok (err e) = false

module _ (files : Files) where
  open files use {State, stat, symlink, remove}

  unfoldable pub is_exist : State → Text → Bool
  unfolding exists_of
  is_exist s path = exists_of (stat s path)

  -- one system call: the state changes only if it succeeds
  call : Result State → Exec State (Unit {0})
  call (ok s') s = (ok tt, s')
  call (err e) s = (err e, s)

  create_ctl : Text → Exec State (Unit {0})
  unfolding is_exist call
  create_ctl path s = if is_exist s path then (ok tt, s) else call (symlink s gpu_ctl_path path) s

  after_link : Text → Result State → Exec State (Unit {0})
  unfolding create_ctl
  after_link ctl (ok s') s = create_ctl ctl s'
  after_link ctl (err e) s = (err e, s)

  -- `GPUShareOperator.Create`
  unfoldable pub create : ℤ → Text → Exec State (Unit {0})
  unfolding after_link
  create index id s =
      if is_exist s (sym_path id)
      then (ok tt, s)
      else after_link (sym_ctl_path id) (symlink s (gpu_path index) (sym_path id)) s

  after_remove : Text → Result State → Exec State (Unit {0})
  unfolding call
  after_remove ctl (ok s') s = call (remove s' ctl) s'
  after_remove ctl (err e) s = (err e, s)

  -- `GPUShareOperator.Delete`, which does not use its index
  unfoldable pub delete : ℤ → Text → Exec State (Unit {0})
  unfolding after_remove
  delete index id s = after_remove (sym_ctl_path id) (remove s (sym_path id)) s

  -- `GPUShareOperator.Check`
  unfoldable pub check : ℤ → Text → State → Bool
  unfolding is_ok
  check index id s = is_ok (stat s (sym_path id)) && is_ok (stat s (sym_ctl_path id))
