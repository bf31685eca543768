-- ===== src/Operator/Nvml.antt =====
-- pkg/operator/base.go: the GPUs of the node, as NVML lists them. NVML is a parameter: each of its
-- calls answers with a value and a return code. The proofs are in the module below.
pub mod Listing
use elastic_gpu_agent.Prelude.{
  ℕ, zero, suc, ◌+◌, Option, none, some, List, [], ◌∷◌, ◌++◌, Text, codes, Error, nvml_failed, ℤ,
}
use elastic_gpu_agent.Go.Strconv.{itoa}

-- `operator.Device`
pub record GpuDevice : Type 0 where
  pub uuid : Text
  pub gpu_index : Text
  pub paths : List Text
  pub memory : ℕ

-- `nvml.SUCCESS`, or another code by its `ErrorString`
pub data Return : Type 0 where
  success : Return
  failure : Text → Return

pub record Nvml : Type 1 where
  pub Handle : Type 0
  pub init : Return
  pub shutdown : Return
  pub device_get_count : ℕ × Return
  pub device_get_handle_by_index : ℕ → Handle × Return
  pub get_uuid : Handle → Text × Return
  pub get_index : Handle → ℤ × Return
  pub get_memory_info : Handle → ℕ × Return

-- `if ret != nvml.SUCCESS { err = … }`
note : Text → Return → Option Error → Option Error
note what success e = e
note what (failure text) e = some (nvml_failed what text)

module _ (nvml : Nvml) where
  open nvml use {
    Handle, init, shutdown, device_get_count, device_get_handle_by_index, get_uuid, get_index,
    get_memory_info,
  }

  -- The loop over the handles: `n` of them, from `i` on.
  handles : ℕ → ℕ → List Handle → Option Error × List Handle
  unfolding note
  handles i zero devs = (none, devs)
  handles i (suc n) devs =
      let (device, ret) = device_get_handle_by_index i in
      elim ret [
        | success ↦ handles (suc i) n (devs ++ device ∷ [])
        | failure text ↦ (some (nvml_failed (codes "get device handle") text), devs)
      ]

  -- `baseOperator.devices`: the callback changes a state of its caller, and the deferred shutdown
  -- may replace the error.
  module _ {S : Type 0} (callback : List Handle → S → S) where
    with_handles : Option Error × List Handle → S → Option Error × S
    with_handles (none, devs) s = (none, callback devs s)
    with_handles (some e, devs) s = (some e, s)

    with_count : ℕ × Return → S → Option Error × S
    unfolding with_handles handles
    with_count (count, success) s = with_handles (handles 0 count []) s
    with_count (count, failure text) s = (some (nvml_failed (codes "get device count") text), s)

    deferred_shutdown : Option Error × S → Option Error × S
    unfolding note
    deferred_shutdown (e, s) = (note (codes "shutdown NVML") shutdown e, s)

    after_init : Return → S → Option Error × S
    unfolding with_count deferred_shutdown
    after_init success s = deferred_shutdown (with_count device_get_count s)
    after_init (failure text) s = (some (nvml_failed (codes "initialize NVML") text), s)

    unfoldable pub base_devices : S → Option Error × S
    unfolding after_init
    base_devices = after_init init

  -- The variables that the callback of `Devices` changes: the result, and the named error.
  record Found : Type 0 where
    devices : List GpuDevice
    err : Option Error

  unfoldable pub describe : Handle → GpuDevice
  describe gpu = record {
    uuid = (get_uuid gpu).0;
    gpu_index = itoa (get_index gpu).0;
    paths = [];
    memory = (get_memory_info gpu).0;
  }

  callback : List Handle → Found → Found
  unfolding note describe
  callback [] s = s
  callback (gpu ∷ gpus) s = callback gpus (record {
    devices = s.devices ++ describe gpu ∷ [];
    err = note (codes "get device memory") (get_memory_info gpu).1 (
        note (codes "get device index") (get_index gpu).1
          (note (codes "get device UUID") (get_uuid gpu).1 s.err));
  })

  -- `baseOperator.Devices`: `err = g.devices(…)` is the last write to `err`.
  unfoldable pub devices : List GpuDevice × Option Error
  unfolding base_devices callback
  devices =
      let (returned, s) = base_devices callback (record { devices = []; err = none }) in
      let final = record s { err = returned } in (final.devices, final.err)
