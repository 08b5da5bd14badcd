-- ===== src/Gpu/Samples.antt =====
-- `check_poll_rate` and the five samples of libs/gpu_telemetry/src/gpu_probe.cpp. A time of the steady
-- clock is its count of nanoseconds since the epoch; the `TimePoint` of a context that was never sampled
-- is the epoch. `now` is what the clock gives in the call, and `moment` that of the driver's answers.
pub mod Rates
pub mod Spacing
pub mod Shape
use capacity_agent.Base.{
  ℕ, ◌-◌, ◌*◌, Bool, true, false, ltb, Option, none, some, get_elem?, set, if◌then◌else◌,
}
use capacity_agent.Base.Int.{ℤ, pos, negsuc}
use capacity_agent.Base.Double.{Doubles}
use capacity_agent.Gpu.Snapshot.{GpuSnapshot}
use capacity_agent.Gpu.Probe.{
  poll_thermals_undoc, poll_common_medium, poll_power, poll_fans, poll_slow_data,
}
use capacity_agent.Gpu.Contexts.{LastPoll, GpuBackendContext, Impl}

-- The members of `last_poll`.
pub data Tier : Type 0 where
  thermal_fast fast medium slow rare : Tier

-- `kMinThermalFastInterval` and the others, in nanoseconds.
abbrev pub min_interval : Tier → ℕ
min_interval thermal_fast = 5000000
min_interval fast = 16000000
min_interval medium = 16000000
min_interval slow = 100000000
min_interval rare = 500000000

abbrev pub last_of : Tier → LastPoll → ℕ
last_of thermal_fast p = p.thermal_fast
last_of fast p = p.fast
last_of medium p = p.medium
last_of slow p = p.slow
last_of rare p = p.rare

abbrev pub with_last : Tier → ℕ → LastPoll → LastPoll
with_last thermal_fast t p = record p { thermal_fast = t }
with_last fast t p = record p { fast = t }
with_last medium t p = record p { medium = t }
with_last slow t p = record p { slow = t }
with_last rare t p = record p { rare = t }

-- The result, and the time that `last` then is.
unfoldable pub check_poll_rate : ℕ → ℕ → ℕ → Bool × ℕ
check_poll_rate now last interval = if ltb (now - last) interval then (false, last) else (true, now)

-- The context of a GPU, or nothing for an index out of range.
abbrev pub context_at : Impl → ℤ → Option GpuBackendContext
context_at p (pos i) = get_elem? p.gpus i
context_at p (negsuc i) = none

abbrev pub set_context : Impl → ℤ → GpuBackendContext → Impl
set_context p (pos i) g = record p { gpus = set p.gpus i g }
set_context p (negsuc i) g = p

-- The context with the time that `check_poll_rate` leaves in the member of `last_poll`.
abbrev pub touch : Tier → ℕ → GpuBackendContext → GpuBackendContext
touch tier t g = record g { last_poll = with_last tier t g.last_poll }

module _ {S : Type 0} (now : ℕ) where
  -- What the five samples have in common: the test of the rate, and then the calls of the polling
  -- helpers, `work`, with the context;
  unfoldable pub attempt :
      Tier → (GpuBackendContext → S → S) → Impl → ℤ → S → GpuBackendContext → Bool × Impl × S
  unfolding check_poll_rate
  attempt tier work p gpu_index snap g =
      let r = check_poll_rate now (last_of tier g.last_poll) (min_interval tier) in
      if r.0
      then (true, set_context p gpu_index (touch tier r.1 g), work (touch tier r.1 g) snap)
      else (false, p, snap)

  -- and before it the test of the index.
  unfoldable pub rated : Tier → (GpuBackendContext → S → S) → Impl → ℤ → S → Bool × Impl × S
  unfolding attempt
  rated tier work p gpu_index snap = elim (context_at p gpu_index) [
    | none ↦ (false, p, snap)
    | some g ↦ attempt tier work p gpu_index snap g
  ]

module _ (d : Doubles) (moment : ℕ) (p : Impl) (gpu_index : ℤ) where
  -- The lines of `sample_fast` and the other four after the two tests.
  abbrev pub work_of : Tier → GpuBackendContext → GpuSnapshot d.Double → GpuSnapshot d.Double
  work_of fast g s =
      poll_common_medium d p moment g
        (poll_thermals_undoc d p moment g (record s { gpu_index = gpu_index }))
  work_of slow g s =
      poll_slow_data d p moment g (poll_power d p moment g (poll_fans d p moment g s))
  work_of thermal_fast g s = poll_thermals_undoc d p moment g (record s { gpu_index = gpu_index })
  work_of medium g s = poll_power d p moment g (poll_common_medium d p moment g s)
  work_of rare g s = poll_slow_data d p moment g s

module _ (d : Doubles) (now moment : ℕ) (p : Impl) (gpu_index : ℤ) where
  unfoldable pub sample_fast : GpuSnapshot d.Double → Bool × Impl × GpuSnapshot d.Double
  unfolding rated poll_thermals_undoc poll_common_medium
  sample_fast snap = rated now fast (work_of d moment p gpu_index fast) p gpu_index snap

  unfoldable pub sample_slow : GpuSnapshot d.Double → Bool × Impl × GpuSnapshot d.Double
  unfolding rated poll_fans poll_power poll_slow_data
  sample_slow snap = rated now slow (work_of d moment p gpu_index slow) p gpu_index snap

  unfoldable pub sample_thermal_fast : GpuSnapshot d.Double → Bool × Impl × GpuSnapshot d.Double
  unfolding rated poll_thermals_undoc
  sample_thermal_fast snap =
      rated now thermal_fast (work_of d moment p gpu_index thermal_fast) p gpu_index snap

  unfoldable pub sample_medium : GpuSnapshot d.Double → Bool × Impl × GpuSnapshot d.Double
  unfolding rated poll_common_medium poll_power
  sample_medium snap = rated now medium (work_of d moment p gpu_index medium) p gpu_index snap

  unfoldable pub sample_rare : GpuSnapshot d.Double → Bool × Impl × GpuSnapshot d.Double
  unfolding rated poll_slow_data
  sample_rare snap = rated now rare (work_of d moment p gpu_index rare) p gpu_index snap

  -- The sample of a tier, by its member of `last_poll`.
  abbrev pub sample_tier : Tier → GpuSnapshot d.Double → Bool × Impl × GpuSnapshot d.Double
  sample_tier thermal_fast snap = sample_thermal_fast snap
  sample_tier fast snap = sample_fast snap
  sample_tier medium snap = sample_medium snap
  sample_tier slow snap = sample_slow snap
  sample_tier rare snap = sample_rare snap
