-- ===== src/Operator/Nvml/Listing.antt =====
-- What `Devices` returns, error and list.
use elastic_gpu_agent.Prelude.{
  ℕ, zero, suc, ◌≡◌, sym, ap, ◌∙◌, Option, none, List, [], ◌∷◌, ◌++◌, append_assoc, append-nil,
  codes, Error, map, range_from, All,
}
use elastic_gpu_agent.Operator.Nvml.{
  Nvml, success, Found, handles, with_handles, with_count, deferred_shutdown, after_init,
  base_devices, describe, callback, devices, note,
}

module _ (nvml : Nvml) where
  open nvml use {Handle, init, shutdown, device_get_count, device_get_handle_by_index}

  -- NVML starts and stops, counts its devices, and has a handle for each.
  pub record Answers (count : ℕ) : Type 0 where
    pub starts : init ≡ success
    pub stops : shutdown ≡ success
    pub counts : device_get_count ≡ (count, success)
    pub has_handles : All (λ i. (device_get_handle_by_index i).1 ≡ success) (range_from 0 count)

  abbrev pub handle_at : ℕ → Handle
  handle_at i = (device_get_handle_by_index i).0

  handles_lem :
      (i n : ℕ) (devs : List Handle)
      → All (λ i. (device_get_handle_by_index i).1 ≡ success) (range_from i n)
      → handles nvml i n devs ≡ (none, devs ++ map handle_at (range_from i n))
  unfolding handles
  handles_lem i zero devs h = rw append-nil
  handles_lem i (suc n) devs (e, h) =
      rw (e, handles) (rw (handles_lem (suc i) n (devs ++ handle_at i ∷ []) h, append_assoc))

  callback-devices :
      (gpus : List Handle) (s : Found nvml)
      → (callback nvml gpus s).devices ≡ s.devices ++ map (describe nvml) gpus
  unfolding callback
  callback-devices [] s = sym (append-nil s.devices)
  callback-devices (g ∷ gpus) s = rw (callback-devices gpus _, append_assoc)

  base_devices_of_Answers :
      {S : Type 0} (call : List Handle → S → S) (count : ℕ) (s : S)
      → Answers count
      → base_devices nvml call s ≡ (none, call (map handle_at (range_from 0 count)) s)
  unfolding base_devices
  base_devices_of_Answers call count s h =
      ap (λ r. after_init nvml call r s) h.starts
      ∙ ap (λ c. deferred_shutdown nvml call (with_count nvml call c s)) h.counts
      ∙ ap (λ r. deferred_shutdown nvml call (with_handles nvml call r s))
          (handles_lem 0 count [] h.has_handles)
      ∙ ap (λ r. (note (codes "shutdown NVML") r none, call (map handle_at (range_from 0 count)) s))
          h.stops

  -- If NVML starts, counts its devices, has a handle for each and stops, `Devices` returns no error
  -- and one device for each GPU, in the order of the indices, whatever codes the queries of the
  -- single GPUs return.
  pub devices_of_Answers :
      (count : ℕ)
      → Answers count
      → devices nvml ≡ (map (describe nvml) (map handle_at (range_from 0 count)), none)
  unfolding devices
  devices_of_Answers count h =
      let start : Found nvml = record { devices = []; err = none } in
      let gpus = map handle_at (range_from 0 count) in
      ap (λ (r : Option Error × Found nvml). (r.1.devices, r.0))
        (base_devices_of_Answers (callback nvml) count start h)
      ∙ ap (λ ds. (ds, none)) (callback-devices gpus start)
