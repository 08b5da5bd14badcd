-- ===== src/Api/Verdicts.antt =====
-- When /v1/readiness says that a job fits.
use capacity_agent.Base.{
  ◌≡◌, ◌↔◌, ◌⊎◌, refl, ◌∙◌, inl, inr, Bool-cases, Option-cases, Bool, true, false, ◌||◌, Option,
  none, some, List, [], ◌∷◌, codes, arith,
}
use capacity_agent.Base.Options.{some_inj}
use capacity_agent.Base.Int.{ℤ, pos, ◌+ℤ◌, ◌-ℤ◌, ◌≤ℤ◌, int_laws}
use capacity_agent.Base.Double.{Doubles}
use capacity_agent.Store.Rows.{CollectorHealthRow, GpuSnapshotRow}
use capacity_agent.Api.{
  Verdict, fits_idle, fits_available, fits_busy, last_sample_of, is_stale, gpu_stale, Vram, free_of,
  add_free, vram, no_vram, fresh_readiness, bridge_readiness, readiness,
}

abbrev pub fits : Verdict → Bool
fits fits_idle = true
fits fits_available = true
fits fits_busy = true
fits _ = false

module _ (d : Doubles) where
  abbrev plus : Option ℤ → ℤ → ℤ
  plus none total = total
  plus (some free) total = free +ℤ total

  abbrev or_some : Option ℤ → Bool → Bool
  or_some none b = b
  or_some (some free) b = true

  -- The free memory of the GPUs whose memory is known, and whether there is one.
  pub sum_free : List (GpuSnapshotRow d.Double) → ℤ
  sum_free [] = pos 0
  sum_free (gpu ∷ gpus) = plus (free_of d gpu) (sum_free gpus)

  pub any_vram : List (GpuSnapshotRow d.Double) → Bool
  any_vram [] = false
  any_vram (gpu ∷ gpus) = or_some (free_of d gpu) (any_vram gpus)

  total-add_free :
      (v : Vram d) (o : Option ℤ) (s : ℤ)
      → (add_free d v o).total_vram_free +ℤ s ≡ v.total_vram_free +ℤ plus o s
  total-add_free v none s = refl
  total-add_free v (some f) s = omega int_laws

  has-add_free :
      (v : Vram d) (o : Option ℤ) (b : Bool)
      → ((add_free d v o).has_vram || b) ≡ (v.has_vram || or_some o b)
  has-add_free v none b = refl
  has-add_free v (some f) b = ground arith

  total-vram :
      (v : Vram d) (gpus : List (GpuSnapshotRow d.Double))
      → (vram d v gpus).total_vram_free ≡ v.total_vram_free +ℤ sum_free gpus
  unfolding vram sum_free
  total-vram v [] = omega int_laws
  total-vram v (gpu ∷ gpus) =
      total-vram (add_free d v (free_of d gpu)) gpus
      ∙ total-add_free v (free_of d gpu) (sum_free gpus)

  has-vram :
      (v : Vram d) (gpus : List (GpuSnapshotRow d.Double))
      → (vram d v gpus).has_vram ≡ (v.has_vram || any_vram gpus)
  unfolding vram any_vram
  has-vram v [] = ground arith
  has-vram v (gpu ∷ gpus) =
      has-vram (add_free d v (free_of d gpu)) gpus ∙ has-add_free v (free_of d gpu) (any_vram gpus)

  -- What has to be known for a job to fit.
  pub record Backed (now required : ℤ) (gpus : List (GpuSnapshotRow d.Double))
      (collectors : List CollectorHealthRow) : Type 0 where
    pub last_sample : ℤ
    pub sampled : last_sample_of (codes "direct_gpu") collectors ≡ some last_sample
    pub recent : (now -ℤ last_sample) ≤ℤ pos 30000
    pub measured : any_vram gpus ≡ true
    pub enough : (required ≤ℤ pos 0) ⊎ (required ≤ℤ sum_free gpus)

  fresh_fits :
      (required : ℤ) (gpus : List (GpuSnapshotRow d.Double))
      → (fits (fresh_readiness d required gpus).verdict ≡ true)
        ↔ ((any_vram gpus ≡ true) × ((required ≤ℤ pos 0) ⊎ (required ≤ℤ sum_free gpus)))
  unfolding fresh_readiness
  fresh_fits required gpus =
      let h = has-vram (no_vram d) gpus in
      let t : (vram d (no_vram d) gpus).total_vram_free ≡ sum_free gpus =
        total-vram (no_vram d) gpus ∙ omega int_laws in
      rw (h, t) (λ k. ground arith, λ k. ground arith)

  fits-bridge :
      (now : ℤ) (collectors : List CollectorHealthRow)
      → fits (bridge_readiness d now collectors).verdict ≡ false
  unfolding bridge_readiness
  fits-bridge now collectors = ground arith

  any_vram-nil : any_vram [] ≡ false
  unfolding any_vram
  any_vram-nil = refl

  fresh_iff :
      (now : ℤ) (collectors : List CollectorHealthRow)
      → (gpu_stale now collectors ≡ false) ↔ (
          (t : ℤ) × (last_sample_of (codes "direct_gpu") collectors ≡ some t)
          × ((now -ℤ t) ≤ℤ pos 30000))
  unfolding gpu_stale is_stale
  fresh_iff now collectors = elim (Option-cases (last_sample_of (codes "direct_gpu") collectors)) [
    | inl e ↦ (λ h. absurd (cc (rw (e, gpu_stale) at h)), λ (t, f, r). absurd (cc (rw e at f)))
    | inr (t, e) ↦
        rw e (λ h. (t, refl, ground arith), λ (u, f, r). let g : t ≡ u = some_inj f in ground arith)
  ]

  -- /v1/readiness says that a job fits if and only if there is a GPU of known memory, the direct GPU
  -- collector has sampled at most 30 s ago, and the memory asked for, if any, is at most the sum of the
  -- free memory of the GPUs.
  pub readiness_iff :
      (now now2 required : ℤ) (gpus : List (GpuSnapshotRow d.Double))
      (collectors : List CollectorHealthRow)
      → (fits (readiness d now now2 required gpus collectors).verdict ≡ true)
        ↔ Backed now required gpus collectors
  unfolding readiness
  readiness_iff now now2 required [] collectors =
      (λ e. absurd (cc (fits-bridge now2 collectors)), λ b. absurd (cc (any_vram-nil, b.measured)))
  readiness_iff now now2 required (gpu ∷ gpus) collectors =
      let m = fresh_fits required (gpu ∷ gpus) in
      elim (Bool-cases (gpu_stale now collectors)) [
        | inl e ↦ rw e (
          λ h. absurd (cc h),
          λ b. absurd (cc (e, (fresh_iff now collectors).1 (b.last_sample, b.sampled, b.recent))),
        )
        | inr e ↦
            let (t, f, r) = (fresh_iff now collectors).0 e in
            rw e (
              λ h. record {
                last_sample = t;
                sampled = f;
                recent = r;
                measured = (m.0 h).0;
                enough = (m.0 h).1;
              },
              λ b. m.1 (b.measured, b.enough),
            )
      ]
