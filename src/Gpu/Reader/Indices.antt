-- ===== src/Gpu/Reader/Indices.antt =====
-- The index of the GPU in a snapshot: libs/gpu_telemetry/src/gpu_probe.cpp and gpu_sensor_reader.cpp. No
-- polling helper writes it, and `sample_all` sets it.
use capacity_agent.Base.{
  ℕ, zero, suc, ◌≡◌, refl, ap, ◌∙◌, true, List, [], ◌∷◌, length, Option, none, some, Bool-cases,
  inl, inr, arith,
}
use capacity_agent.Base.Int.{ℤ, pos}
use capacity_agent.Base.Double.{Doubles}
use capacity_agent.Gpu.Snapshot.{GpuSnapshot}
use capacity_agent.Gpu.Probe.{
  answer, poll_thermals_undoc, poll_common_medium, poll_power, poll_fans, poll_slow_data,
  poll_temperature, poll_hotspot, poll_clocks, poll_nvml_clocks, poll_pstate, poll_utilization,
  poll_nvml_utilization, poll_voltage, poll_vram, poll_board, with_rails, with_fans, poll_nvml_rest,
}
use capacity_agent.Gpu.Discovery.{gpu_count}
use capacity_agent.Gpu.Contexts.{GpuBackendContext, Impl}
use capacity_agent.Gpu.Driver.{PowerTopologyStatus, NvFanCoolersStatus}
use capacity_agent.Gpu.Fans.{get_status}
use capacity_agent.Gpu.Samples.{Tier, thermal_fast, fast, medium, slow, rare, sample_tier, work_of}
use capacity_agent.Gpu.Samples.Rates.{rated-snap, sample_tier_eq}
use capacity_agent.Gpu.Reader.{
  GpuSampleMode, GpuSensorReader, Times, sample_mode, sample_with_mode, sample_from, sample_all,
}

module _ (d : Doubles) (p : Impl) (moment : ℕ) (g : GpuBackendContext) where
  poll_thermals_undoc-index :
      (s : GpuSnapshot d.Double) → (poll_thermals_undoc d p moment g s).gpu_index ≡ s.gpu_index
  unfolding poll_thermals_undoc
  poll_thermals_undoc-index s = ground arith

  poll_temperature-index :
      (s : GpuSnapshot d.Double) → (poll_temperature d p moment g s).gpu_index ≡ s.gpu_index
  poll_temperature-index s = ground arith

  poll_hotspot-index :
      (s : GpuSnapshot d.Double) → (poll_hotspot d p moment g s).gpu_index ≡ s.gpu_index
  poll_hotspot-index s = ground arith

  poll_clocks-index :
      (s : GpuSnapshot d.Double) → (poll_clocks d p moment g s).gpu_index ≡ s.gpu_index
  poll_clocks-index s = ground arith

  poll_nvml_clocks-index :
      (s : GpuSnapshot d.Double) → (poll_nvml_clocks d p moment g s).gpu_index ≡ s.gpu_index
  poll_nvml_clocks-index s = ground arith

  poll_pstate-index :
      (s : GpuSnapshot d.Double) → (poll_pstate d p moment g s).gpu_index ≡ s.gpu_index
  poll_pstate-index s = ground arith

  poll_utilization-index :
      (s : GpuSnapshot d.Double) → (poll_utilization d p moment g s).gpu_index ≡ s.gpu_index
  poll_utilization-index s = ground arith

  poll_nvml_utilization-index :
      (s : GpuSnapshot d.Double) → (poll_nvml_utilization d p moment g s).gpu_index ≡ s.gpu_index
  poll_nvml_utilization-index s = ground arith

  poll_voltage-index :
      (s : GpuSnapshot d.Double) → (poll_voltage d p moment g s).gpu_index ≡ s.gpu_index
  poll_voltage-index s = ground arith

  poll_vram-index : (s : GpuSnapshot d.Double) → (poll_vram d p moment g s).gpu_index ≡ s.gpu_index
  poll_vram-index s = ground arith

  poll_nvml_rest-index :
      (s : GpuSnapshot d.Double) → (poll_nvml_rest d p moment g s).gpu_index ≡ s.gpu_index
  poll_nvml_rest-index s = ground arith

  poll_board-index :
      (s : GpuSnapshot d.Double) → (poll_board d p moment g s).gpu_index ≡ s.gpu_index
  poll_board-index s = ground arith

  with_rails-index :
      (o : Option PowerTopologyStatus) (s : GpuSnapshot d.Double)
      → (with_rails d p moment g o s).gpu_index ≡ s.gpu_index
  with_rails-index none s = refl
  with_rails-index (some topo) s = refl

  with_fans-index :
      (o : Option NvFanCoolersStatus) (s : GpuSnapshot d.Double)
      → (with_fans d p moment g o s).gpu_index ≡ s.gpu_index
  with_fans-index none s = refl
  with_fans-index (some status) s = refl

  poll_common_medium-index :
      (s : GpuSnapshot d.Double) → (poll_common_medium d p moment g s).gpu_index ≡ s.gpu_index
  unfolding poll_common_medium
  poll_common_medium-index s =
      poll_nvml_utilization-index _
      ∙ poll_utilization-index _
      ∙ poll_pstate-index _
      ∙ poll_nvml_clocks-index _
      ∙ poll_clocks-index _
      ∙ poll_hotspot-index _
      ∙ poll_temperature-index s

  poll_slow_data-index :
      (s : GpuSnapshot d.Double) → (poll_slow_data d p moment g s).gpu_index ≡ s.gpu_index
  unfolding poll_slow_data
  poll_slow_data-index s = poll_nvml_rest-index _ ∙ poll_vram-index _ ∙ poll_voltage-index s

  poll_power-index :
      (s : GpuSnapshot d.Double) → (poll_power d p moment g s).gpu_index ≡ s.gpu_index
  unfolding poll_power
  poll_power-index s =
      with_rails-index (answer p.fn_power_topo moment g.nvapi_handle) _ ∙ poll_board-index s

  poll_fans-index : (s : GpuSnapshot d.Double) → (poll_fans d p moment g s).gpu_index ≡ s.gpu_index
  unfolding poll_fans
  poll_fans-index s = with_fans-index (get_status p.fans moment g.nvapi_handle) s

  work_of-index :
      (gpu_index : ℤ) (tier : Tier) (s : GpuSnapshot d.Double)
      → s.gpu_index ≡ gpu_index
      → (work_of d moment p gpu_index tier g s).gpu_index ≡ gpu_index
  work_of-index i thermal_fast s h = poll_thermals_undoc-index _
  work_of-index i fast s h = poll_common_medium-index _ ∙ poll_thermals_undoc-index _
  work_of-index i medium s h = poll_power-index _ ∙ poll_common_medium-index s ∙ h
  work_of-index i slow s h = poll_slow_data-index _ ∙ poll_power-index _ ∙ poll_fans-index s ∙ h
  work_of-index i rare s h = poll_slow_data-index s ∙ h

module _ (d : Doubles) where
  tier-index :
      (now moment : ℕ) (p : Impl) (i : ℤ) (tier : Tier) (s : GpuSnapshot d.Double)
      → s.gpu_index ≡ i
      → (sample_tier d now moment p i tier s).2.gpu_index ≡ i
  tier-index now moment p i tier s h = rw (sample_tier_eq d now moment p i tier s) (
      rated-snap (λ (x : GpuSnapshot d.Double). x.gpu_index ≡ i) now tier
        (work_of d moment p i tier) p i s h (λ g. work_of-index d p moment g i tier s h))

  mode-index :
      (t : Times) (mode : GpuSampleMode) (p : Impl) (i : ℤ) (s : GpuSnapshot d.Double)
      → s.gpu_index ≡ i
      → (sample_mode d t mode p i s).2.gpu_index ≡ i
  mode-index t GpuSampleMode.thermal_fast p i s h = tier-index t.now t.moment p i thermal_fast s h
  mode-index t GpuSampleMode.fast p i s h = tier-index t.now t.moment p i fast s h
  mode-index t GpuSampleMode.medium p i s h = tier-index t.now t.moment p i medium s h
  mode-index t GpuSampleMode.slow p i s h = tier-index t.now t.moment p i slow s h
  mode-index t GpuSampleMode.rare p i s h = tier-index t.now t.moment p i rare s h
  mode-index t GpuSampleMode.full p i s h =
      tier-index t.second_now t.second_moment (sample_tier d t.now t.moment p i fast s).1 i slow _
        (tier-index t.now t.moment p i fast s h)

-- The snapshots of the GPUs from `i` on, in their order.
abbrev pub Numbered : {D : Type 0} → ℕ → List (GpuSnapshot D) → Type 0
Numbered i [] = Unit {0}
Numbered i (snap ∷ snaps) = (snap.gpu_index ≡ pos i) × Numbered (suc i) snaps

module _ (d : Doubles) (times : ℕ → Times) (mode : GpuSampleMode) where
  sample_from-Numbered : (i n : ℕ) (p : Impl) → Numbered i (sample_from d times mode i n p).0
  unfolding sample_from sample_with_mode
  sample_from-Numbered i zero p = tt
  sample_from-Numbered i (suc n) p =
      (mode-index d (times i) mode p (pos i) _ refl, sample_from-Numbered (suc i) n _)

  pub sample_all-Numbered : (r : GpuSensorReader) → Numbered 0 (sample_all d times mode r).0
  unfolding sample_all
  sample_all-Numbered r = elim (Bool-cases r.initialized) [
    | inl e ↦ rw e (sample_from-Numbered 0 (gpu_count r.probe) r.probe)
    | inr e ↦ rw e tt
  ]

  length-sample_from : (i n : ℕ) (p : Impl) → length (sample_from d times mode i n p).0 ≡ n
  unfolding sample_from
  length-sample_from i zero p = refl
  length-sample_from i (suc n) p = ap suc (length-sample_from (suc i) n _)

  -- An initialised reader gives a snapshot of each of its GPUs.
  pub length-sample_all :
      (r : GpuSensorReader)
      → r.initialized ≡ true
      → length (sample_all d times mode r).0 ≡ gpu_count r.probe
  unfolding sample_all
  length-sample_all r e = rw e (length-sample_from 0 (gpu_count r.probe) r.probe)
