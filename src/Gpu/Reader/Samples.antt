-- ===== src/Gpu/Reader/Samples.antt =====
-- What a sample of the reader leaves behind: the shape of the snapshot, and what a refusal changes.
use capacity_agent.Base.{
  ℕ, ◌≡◌, refl, ap, sym, ◌∙◌, ◌⊎◌, inl, inr, Bool, true, false, not, ◌||◌, Bool-cases,
}
use capacity_agent.Base.Int.{ℤ}
use capacity_agent.Base.Double.{Doubles}
use capacity_agent.Gpu.Snapshot.{GpuSnapshot, IsWellFormed}
use capacity_agent.Gpu.Contexts.{Impl}
use capacity_agent.Gpu.Samples.{
  Tier, thermal_fast, fast, medium, slow, rare, sample_tier, sample_fast, work_of,
}
use capacity_agent.Gpu.Samples.Rates.{rated-snap, sample_tier_eq, sample_tier-HasOutcome}
use capacity_agent.Gpu.Samples.Shape.{
  IsFresh, IsFresh-IsWellFormed, fast-IsFresh, work_of-IsWellFormed,
}
use capacity_agent.Gpu.Reader.{
  GpuSampleMode, GpuSensorReader, Times, sample, sample_mode, sample_both, cleared,
  is_valid_gpu_index,
}

or_false : (a b : Bool) → (a || b) ≡ false → (a ≡ false) × (b ≡ false)
or_false true b h = cc
or_false false b h = (refl, h)

module _ (d : Doubles) where
  tier-IsWellFormed :
      (now moment : ℕ) (p : Impl) (gpu_index : ℤ) (tier : Tier) (s : GpuSnapshot d.Double)
      → IsFresh s
      → IsWellFormed (sample_tier d now moment p gpu_index tier s).2
  tier-IsWellFormed now moment p gpu_index tier s h =
      rw (sample_tier_eq d now moment p gpu_index tier s) (
        rated-snap (λ (x : GpuSnapshot d.Double). IsWellFormed x) now tier
          (work_of d moment p gpu_index tier) p gpu_index s (IsFresh-IsWellFormed s h)
          (λ g. work_of-IsWellFormed d p moment g gpu_index tier s h))

  sample_fast-IsFresh :
      (now moment : ℕ) (p : Impl) (gpu_index : ℤ) (s : GpuSnapshot d.Double)
      → IsFresh s
      → IsFresh (sample_fast d now moment p gpu_index s).2
  sample_fast-IsFresh now moment p gpu_index s h =
      rw (sample_tier_eq d now moment p gpu_index fast s) (
        rated-snap (λ (x : GpuSnapshot d.Double). IsFresh x) now fast
          (work_of d moment p gpu_index fast) p gpu_index s h
          (λ g. fast-IsFresh d p moment g gpu_index s h))

  mode-IsWellFormed :
      (t : Times) (mode : GpuSampleMode) (p : Impl) (gpu_index : ℤ) (s : GpuSnapshot d.Double)
      → IsFresh s
      → IsWellFormed (sample_mode d t mode p gpu_index s).2
  mode-IsWellFormed t GpuSampleMode.thermal_fast p i s h =
      tier-IsWellFormed t.now t.moment p i thermal_fast s h
  mode-IsWellFormed t GpuSampleMode.fast p i s h = tier-IsWellFormed t.now t.moment p i fast s h
  mode-IsWellFormed t GpuSampleMode.medium p i s h = tier-IsWellFormed t.now t.moment p i medium s h
  mode-IsWellFormed t GpuSampleMode.slow p i s h = tier-IsWellFormed t.now t.moment p i slow s h
  mode-IsWellFormed t GpuSampleMode.rare p i s h = tier-IsWellFormed t.now t.moment p i rare s h
  mode-IsWellFormed t GpuSampleMode.full p i s h =
      let a = sample_fast d t.now t.moment p i s in
      tier-IsWellFormed t.second_now t.second_moment a.1 i slow a.2
        (sample_fast-IsFresh t.now t.moment p i s h)

  -- Whatever the driver answers, the snapshot that a sample leaves is well-formed.
  pub sample-IsWellFormed :
      (t : Times) (r : GpuSensorReader) (gpu_index : ℤ) (mode : GpuSampleMode)
      → IsWellFormed (sample d t r gpu_index mode).2
  unfolding sample
  sample-IsWellFormed t r gpu_index mode =
      elim (Bool-cases (not r.initialized || not (is_valid_gpu_index r.probe gpu_index))) [
        | inl e ↦ rw e (IsFresh-IsWellFormed _ (refl, refl, refl, refl))
        | inr e ↦ rw e (mode-IsWellFormed t mode r.probe gpu_index _ (refl, refl, refl, refl))
      ]

  -- A sample of a tier that returns false returns the probe and the snapshot as they were.
  tier_refused :
      (now moment : ℕ) (p : Impl) (gpu_index : ℤ) (tier : Tier) (s : GpuSnapshot d.Double)
      → (sample_tier d now moment p gpu_index tier s).0 ≡ false
      → sample_tier d now moment p gpu_index tier s ≡ (false, p, s)
  tier_refused now moment p gpu_index tier s h =
      elim (sample_tier-HasOutcome d now moment p gpu_index tier s) [
        | inl o ↦ o.0
        | inr o ↦ elim o.2 [ inl r ↦ r.0 | inr r ↦ let t = r.0 in cc ]
      ]

  -- Of two samples, neither is served if the mode `Full` returns false.
  both_refused :
      (t : Times) (p : Impl) (gpu_index : ℤ) (s : GpuSnapshot d.Double)
      (a : Bool × Impl × GpuSnapshot d.Double)
      → ((sample_both d t gpu_index a).0 ≡ false → a ≡ (false, p, s))
      → (sample_both d t gpu_index a).0 ≡ false
      → sample_both d t gpu_index a ≡ (false, p, s)
  both_refused t p gpu_index s a first h =
      let same = first h in
      let slow_false : (sample_both d t gpu_index (false, p, s)).0 ≡ false =
        sym (ap (λ (x : Bool × Impl × GpuSnapshot d.Double). (sample_both d t gpu_index x).0) same)
        ∙ h in
      ap (sample_both d t gpu_index) same
      ∙ ap (λ (b : Bool × Impl × GpuSnapshot d.Double). (b.0, b.1, b.2))
          (tier_refused t.second_now t.second_moment p gpu_index slow s slow_false)

  mode_refused :
      (t : Times) (mode : GpuSampleMode) (p : Impl) (gpu_index : ℤ) (s : GpuSnapshot d.Double)
      → (sample_mode d t mode p gpu_index s).0 ≡ false
      → sample_mode d t mode p gpu_index s ≡ (false, p, s)
  mode_refused t GpuSampleMode.thermal_fast p i s h =
      tier_refused t.now t.moment p i thermal_fast s h
  mode_refused t GpuSampleMode.fast p i s h = tier_refused t.now t.moment p i fast s h
  mode_refused t GpuSampleMode.medium p i s h = tier_refused t.now t.moment p i medium s h
  mode_refused t GpuSampleMode.slow p i s h = tier_refused t.now t.moment p i slow s h
  mode_refused t GpuSampleMode.rare p i s h = tier_refused t.now t.moment p i rare s h
  mode_refused t GpuSampleMode.full p i s h =
      both_refused t p i s (sample_fast d t.now t.moment p i s)
        (λ e. tier_refused t.now t.moment p i fast s (or_false _ _ e).0) h

  abbrev result_of :
      GpuSensorReader
      → Bool × Impl × GpuSnapshot d.Double
      → Bool × GpuSensorReader × GpuSnapshot d.Double
  result_of r s = (s.0, record r { probe = s.1 }, s.2)

  sample_valid :
      (t : Times) (r : GpuSensorReader) (gpu_index : ℤ) (mode : GpuSampleMode)
      → (not r.initialized || not (is_valid_gpu_index r.probe gpu_index)) ≡ false
      → sample d t r gpu_index mode
        ≡ result_of r (
            sample_mode d t mode r.probe gpu_index (record (cleared d t) { gpu_index = gpu_index }))
  unfolding sample
  sample_valid t r gpu_index mode e = rw (e, sample) refl

  after_sample :
      (t : Times) (r : GpuSensorReader) (gpu_index : ℤ) (mode : GpuSampleMode)
      (x : Bool × GpuSensorReader × GpuSnapshot d.Double)
      → x
        ≡ result_of r (
            sample_mode d t mode r.probe gpu_index (record (cleared d t) { gpu_index = gpu_index }))
      → x.0 ≡ false
      → (x.1 ≡ r) × ((x.2 ≡ cleared d t) ⊎ (x.2 ≡ record (cleared d t) { gpu_index = gpu_index }))
  after_sample t r gpu_index mode x e h =
      let start = record (cleared d t) { gpu_index = gpu_index } in
      let served = ap (λ (y : Bool × GpuSensorReader × GpuSnapshot d.Double). y.0) e in
      let same =
        e ∙ ap (result_of r) (mode_refused t mode r.probe gpu_index start (sym served ∙ h)) in
      (
        ap (λ (y : Bool × GpuSensorReader × GpuSnapshot d.Double). y.1) same,
        inr (ap (λ (y : Bool × GpuSensorReader × GpuSnapshot d.Double). y.2) same),
      )

  -- A sample that returns false, because the reader is not initialised, the index is out of range, or the
  -- mode's samples of that GPU come too soon, leaves the reader as it was, and in the snapshot nothing
  -- but the initial values and possibly the index.
  sample_refused :
      (t : Times) (r : GpuSensorReader) (gpu_index : ℤ) (mode : GpuSampleMode)
      → (sample d t r gpu_index mode).0 ≡ false
      → ((sample d t r gpu_index mode).1 ≡ r)
        × (((sample d t r gpu_index mode).2 ≡ cleared d t)
            ⊎ ((sample d t r gpu_index mode).2 ≡ record (cleared d t) { gpu_index = gpu_index }))
  unfolding sample
  sample_refused t r gpu_index mode h =
      elim (Bool-cases (not r.initialized || not (is_valid_gpu_index r.probe gpu_index))) [
        | inl e ↦ rw e (refl, inl refl)
        | inr e ↦
            after_sample t r gpu_index mode (sample d t r gpu_index mode)
              (sample_valid t r gpu_index mode e) h
      ]
