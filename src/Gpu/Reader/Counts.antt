-- ===== src/Gpu/Reader/Counts.antt =====
-- What the samples of libs/gpu_telemetry/src/gpu_sensor_reader.cpp leave as it is: they write nothing of the
-- probe but the contexts of its GPUs.
use capacity_agent.Base.{
  ℕ, zero, suc, ◌≡◌, refl, ◌∙◌, Bool-cases, inl, inr, Option-cases, length-set,
}
use capacity_agent.Base.Int.{ℤ, pos, negsuc}
use capacity_agent.Base.Double.{Doubles}
use capacity_agent.Gpu.Snapshot.{GpuSnapshot}
use capacity_agent.Gpu.Contexts.{GpuBackendContext, Impl}
use capacity_agent.Gpu.Discovery.{gpu_count}
use capacity_agent.Gpu.Samples.{
  Tier, thermal_fast, fast, medium, slow, rare, min_interval, last_of, context_at, set_context,
  attempt, rated, sample_tier, work_of,
}
use capacity_agent.Gpu.Samples.Rates.{
  check_poll_rate_cases, min_interval_pos, attempt_refused, attempt_served, rated-none, rated-some,
  sample_tier_eq,
}
use capacity_agent.Gpu.Reader.{
  GpuSampleMode, GpuSensorReader, Times, sample_mode, sample_with_mode, sample_from, sample_all,
}

gpu_count-set_context :
    (p : Impl) (i : ℤ) (g : GpuBackendContext) → gpu_count (set_context p i g) ≡ gpu_count p
gpu_count-set_context p (pos i) g = length-set p.gpus i g
gpu_count-set_context p (negsuc i) g = refl

module _ (P : Impl → Type 0)
    (keeps : (p : Impl) (i : ℤ) (g : GpuBackendContext) → P p → P (set_context p i g)) where
  module _ {S : Type 0} (now : ℕ) (tier : Tier) (work : GpuBackendContext → S → S) (p : Impl)
      (i : ℤ) (snap : S) (h : P p) where
    attempt-keeps : (g : GpuBackendContext) → P (attempt now tier work p i snap g).1
    attempt-keeps g =
        elim (check_poll_rate_cases now (last_of tier g.last_poll) (min_interval tier)
          (min_interval_pos tier)) [
            | inl e ↦ rw (attempt_refused now tier work p i snap g _ e.0) h
            | inr e ↦ rw (attempt_served now tier work p i snap g e.0) (keeps p i _ h)
          ]

    rated-keeps : P (rated now tier work p i snap).1
    rated-keeps = elim (Option-cases (context_at p i)) [
      | inl e ↦ rw (rated-none now tier work p i snap e) h
      | inr (g, e) ↦ rw (rated-some now tier work p i snap g e) (attempt-keeps g)
    ]

  module _ (d : Doubles) where
    tier-keeps :
        (now moment : ℕ) (p : Impl) (i : ℤ) (tier : Tier) (s : GpuSnapshot d.Double)
        → P p
        → P (sample_tier d now moment p i tier s).1
    tier-keeps now moment p i tier s h =
        rw (sample_tier_eq d now moment p i tier s)
          (rated-keeps now tier (work_of d moment p i tier) p i s h)

    mode-keeps :
        (t : Times) (mode : GpuSampleMode) (p : Impl) (i : ℤ) (s : GpuSnapshot d.Double)
        → P p
        → P (sample_mode d t mode p i s).1
    mode-keeps t GpuSampleMode.thermal_fast p i s h = tier-keeps t.now t.moment p i thermal_fast s h
    mode-keeps t GpuSampleMode.fast p i s h = tier-keeps t.now t.moment p i fast s h
    mode-keeps t GpuSampleMode.medium p i s h = tier-keeps t.now t.moment p i medium s h
    mode-keeps t GpuSampleMode.slow p i s h = tier-keeps t.now t.moment p i slow s h
    mode-keeps t GpuSampleMode.rare p i s h = tier-keeps t.now t.moment p i rare s h
    mode-keeps t GpuSampleMode.full p i s h =
        tier-keeps t.second_now t.second_moment (sample_tier d t.now t.moment p i fast s).1 i slow _
          (tier-keeps t.now t.moment p i fast s h)

  module _ (d : Doubles) (times : ℕ → Times) (mode : GpuSampleMode) where
    sample_from-keeps : (i n : ℕ) (p : Impl) → P p → P (sample_from d times mode i n p).1
    unfolding sample_from sample_with_mode
    sample_from-keeps i zero p h = h
    sample_from-keeps i (suc n) p h =
        sample_from-keeps (suc i) n _ (mode-keeps d (times i) mode p (pos i) _ h)

    pub sample_all-keeps_probe :
        (r : GpuSensorReader) → P r.probe → P (sample_all d times mode r).1.probe
    unfolding sample_all
    sample_all-keeps_probe r h = elim (Bool-cases r.initialized) [
      | inl e ↦ rw e (sample_from-keeps 0 (gpu_count r.probe) r.probe h)
      | inr e ↦ rw e h
    ]

module _ (d : Doubles) (times : ℕ → Times) (mode : GpuSampleMode) where
  sample_all-initialized :
      (r : GpuSensorReader) → (sample_all d times mode r).1.initialized ≡ r.initialized
  unfolding sample_all
  sample_all-initialized r = elim (Bool-cases r.initialized) [
    | inl e ↦ rw e refl
    | inr e ↦ rw e refl
  ]

  -- They neither add nor remove a GPU.
  pub sample_all-keeps :
      (r : GpuSensorReader)
      → ((sample_all d times mode r).1.initialized ≡ r.initialized)
        × (gpu_count (sample_all d times mode r).1.probe ≡ gpu_count r.probe)
  sample_all-keeps r = (
    sample_all-initialized r,
    sample_all-keeps_probe (λ p. gpu_count p ≡ gpu_count r.probe)
        (λ p i g h. gpu_count-set_context p i g ∙ h) d times mode r refl,
  )
