-- ===== src/Gpu/Samples/Rates.antt =====
-- The rates of the samples: which calls are served, and how far apart they are.
use capacity_agent.Base.{
  ℕ, ◌+◌, ◌-◌, ◌≤◌, ◌<◌, ◌≡◌, ◌⊎◌, ◌∙◌, ap, refl, inl, inr, Bool, true, false, ltb, none, some,
  arith, Bool-cases, Option-cases,
}
use capacity_agent.Base.Int.{ℤ}
use capacity_agent.Base.Double.{Doubles}
use capacity_agent.Gpu.Snapshot.{GpuSnapshot}
use capacity_agent.Gpu.Contexts.{GpuBackendContext, Impl}
use capacity_agent.Gpu.Samples.{
  Tier, thermal_fast, fast, medium, slow, rare, min_interval, last_of, check_poll_rate, context_at,
  set_context, touch, rated, attempt, sample_tier, sample_fast, sample_slow, sample_thermal_fast,
  sample_medium, sample_rare, work_of,
}

-- A call that is refused, because there is no such GPU or the last one of the tier that was served was too
-- short a time ago, changes nothing; one that is served is the last one of its tier and GPU from then on.
abbrev pub HasOutcome : {S : Type 0} → ℕ → Tier → Impl → ℤ → S → Bool × Impl × S → Type 0
HasOutcome now tier p gpu_index snap r =
    ((r ≡ (false, p, snap)) × (context_at p gpu_index ≡ none))
    ⊎ ((g : GpuBackendContext) × (context_at p gpu_index ≡ some g)
        × (((r ≡ (false, p, snap)) × (now < last_of tier g.last_poll + min_interval tier))
            ⊎ ((r.0 ≡ true)
                × (r.1 ≡ set_context p gpu_index (touch tier now g))
                × (last_of tier g.last_poll + min_interval tier ≤ now))))

pub check_poll_rate_cases :
    (now last interval : ℕ)
    → 0 < interval
    → ((check_poll_rate now last interval ≡ (false, last)) × (now < last + interval))
      ⊎ ((check_poll_rate now last interval ≡ (true, now)) × (last + interval ≤ now))
unfolding check_poll_rate
check_poll_rate_cases now last interval h = elim (Bool-cases (ltb (now - last) interval)) [
  | inl e ↦ inl (rw e refl, ground arith)
  | inr e ↦ inr (rw e refl, ground arith)
]

pub min_interval_pos : (tier : Tier) → 0 < min_interval tier
min_interval_pos thermal_fast = omega arith
min_interval_pos fast = omega arith
min_interval_pos medium = omega arith
min_interval_pos slow = omega arith
min_interval_pos rare = omega arith

pub rated-none :
    {S : Type 0} (now : ℕ) (tier : Tier) (work : GpuBackendContext → S → S) (p : Impl)
    (gpu_index : ℤ) (snap : S)
    → context_at p gpu_index ≡ none
    → rated now tier work p gpu_index snap ≡ (false, p, snap)
unfolding rated
rated-none now tier work p gpu_index snap e = rw (e, rated) refl

pub rated-some :
    {S : Type 0} (now : ℕ) (tier : Tier) (work : GpuBackendContext → S → S) (p : Impl)
    (gpu_index : ℤ) (snap : S) (g : GpuBackendContext)
    → context_at p gpu_index ≡ some g
    → rated now tier work p gpu_index snap ≡ attempt now tier work p gpu_index snap g
unfolding rated
rated-some now tier work p gpu_index snap g e = rw (e, rated) refl

-- `set_context` and the work go by the time that the test leaves, which is that of the call.
pub attempt_served :
    {S : Type 0} (now : ℕ) (tier : Tier) (work : GpuBackendContext → S → S) (p : Impl)
    (gpu_index : ℤ) (snap : S) (g : GpuBackendContext)
    → check_poll_rate now (last_of tier g.last_poll) (min_interval tier) ≡ (true, now)
    → attempt now tier work p gpu_index snap g
      ≡ (true, set_context p gpu_index (touch tier now g), work (touch tier now g) snap)
unfolding attempt
attempt_served now tier work p gpu_index snap g e = rw (e, attempt) refl

pub attempt_refused :
    {S : Type 0} (now : ℕ) (tier : Tier) (work : GpuBackendContext → S → S) (p : Impl)
    (gpu_index : ℤ) (snap : S) (g : GpuBackendContext) (last : ℕ)
    → check_poll_rate now (last_of tier g.last_poll) (min_interval tier) ≡ (false, last)
    → attempt now tier work p gpu_index snap g ≡ (false, p, snap)
unfolding attempt
attempt_refused now tier work p gpu_index snap g last e = rw (e, attempt) refl

rated-HasOutcome :
    {S : Type 0} (now : ℕ) (tier : Tier) (work : GpuBackendContext → S → S) (p : Impl)
    (gpu_index : ℤ) (snap : S)
    → HasOutcome now tier p gpu_index snap (rated now tier work p gpu_index snap)
rated-HasOutcome now tier work p gpu_index snap = elim (Option-cases (context_at p gpu_index)) [
  | inl e ↦ inl (rated-none now tier work p gpu_index snap e, e)
  | inr c ↦
      let g = c.0 in
      let at = rated-some now tier work p gpu_index snap g c.1 in
      elim (check_poll_rate_cases now (last_of tier g.last_poll) (min_interval tier)
        (min_interval_pos tier)) [
          | inl h ↦
              inr (g, c.1, inl (at ∙ attempt_refused now tier work p gpu_index snap g _ h.0, h.1))
          | inr h ↦
              let done = at ∙ attempt_served now tier work p gpu_index snap g h.0 in
              inr (
                g,
                c.1,
                inr (
                  ap (λ (r : Bool × Impl × _). r.0) done,
                  ap (λ (r : Bool × Impl × _). r.1) done,
                  h.1,
                ),
              )
        ]
]

-- A property of the snapshot that the work keeps holds of the snapshot after.
pub rated-snap :
    {S : Type 0} (P : S → Type 0) (now : ℕ) (tier : Tier) (work : GpuBackendContext → S → S)
    (p : Impl) (gpu_index : ℤ) (snap : S)
    → P snap
    → ((g : GpuBackendContext) → P (work g snap))
    → P (rated now tier work p gpu_index snap).2
rated-snap P now tier work p gpu_index snap h k = elim (Option-cases (context_at p gpu_index)) [
  | inl e ↦ rw (rated-none now tier work p gpu_index snap e) h
  | inr c ↦
      let g = c.0 in
      rw (rated-some now tier work p gpu_index snap g c.1)
        (elim (check_poll_rate_cases now (last_of tier g.last_poll) (min_interval tier)
          (min_interval_pos tier)) [
            | inl e ↦ rw (attempt_refused now tier work p gpu_index snap g _ e.0) h
            | inr e ↦
                rw (attempt_served now tier work p gpu_index snap g e.0) (k (touch tier now g))
          ])
]

-- Every sample is that of its tier's rate and work.
pub sample_tier_eq :
    (d : Doubles) (now moment : ℕ) (p : Impl) (gpu_index : ℤ) (tier : Tier)
    (snap : GpuSnapshot d.Double)
    → sample_tier d now moment p gpu_index tier snap
      ≡ rated now tier (work_of d moment p gpu_index tier) p gpu_index snap
unfolding sample_fast sample_slow sample_thermal_fast sample_medium sample_rare
sample_tier_eq d now moment p gpu_index thermal_fast snap = refl
sample_tier_eq d now moment p gpu_index fast snap = refl
sample_tier_eq d now moment p gpu_index medium snap = refl
sample_tier_eq d now moment p gpu_index slow snap = refl
sample_tier_eq d now moment p gpu_index rare snap = refl

-- Every sample of the probe, of each tier: it is refused, and then the snapshot and the probe stay as they
-- are, if there is no GPU with the index, or if the last sample of the tier and the GPU that was served is
-- less than the interval of the tier ago; and otherwise it is served, and the time of the call is
-- then that of the last one, for this tier and GPU alone.
pub sample_tier-HasOutcome :
    (d : Doubles) (now moment : ℕ) (p : Impl) (gpu_index : ℤ) (tier : Tier)
    (snap : GpuSnapshot d.Double)
    → HasOutcome now tier p gpu_index snap (sample_tier d now moment p gpu_index tier snap)
sample_tier-HasOutcome d now moment p gpu_index tier snap =
    rw (sample_tier_eq d now moment p gpu_index tier snap)
      (rated-HasOutcome now tier (work_of d moment p gpu_index tier) p gpu_index snap)
