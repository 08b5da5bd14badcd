-- ===== src/Gpu/Reader.antt =====
-- libs/gpu_telemetry/src/gpu_sensor_reader.cpp; Moves has the moves of a reader. `Times` are the times of the
-- steady clock and the moments of the driver's answers in the one or two samples that a call makes.
pub mod Samples
pub mod Indices
pub mod Counts
pub mod Moves
pub mod Lifetimes
use capacity_agent.Base.{
  ℕ, zero, suc, Bool, true, false, not, ◌||◌, Option, none, some, List, [], ◌∷◌, Text, get_elem?,
  map, if◌then◌else◌, ◌&&◌,
}
use capacity_agent.Base.Int.{ℤ, pos, negsuc, ltb_ℤ}
use capacity_agent.Base.Double.{Doubles}
use capacity_agent.Gpu.Driver.{NvApi, Nvml}
use capacity_agent.Gpu.Snapshot.{GpuSnapshot, empty_snapshot}
use capacity_agent.Gpu.Contexts.{GpuInfo, GpuBackendContext, Impl}
use capacity_agent.Gpu.Samples.{
  context_at, sample_fast, sample_slow, sample_thermal_fast, sample_medium, sample_rare,
}
use capacity_agent.Gpu.Discovery.{gpu_count}
use capacity_agent.Gpu.Discovery as Discovery

pub data GpuSampleMode : Type 0 where
  thermal_fast fast medium slow rare full : GpuSampleMode

pub record GpuSensorReader : Type 0 where
  pub probe : Impl
  pub initialized : Bool

pub record Times : Type 0 where
  pub now : ℕ
  pub moment : ℕ
  pub second_now : ℕ
  pub second_moment : ℕ

-- `init`: the result, the warning and the reader.
unfoldable pub init :
    (Text → ℕ)
    → ℕ
    → Option Nvml
    → Option (Option NvApi)
    → GpuSensorReader
    → Bool × Text × GpuSensorReader
unfolding Discovery.init
init strtoul moment nvml_dll nvapi_dll r =
    if r.initialized
    then (true, [], r)
    else (let i = Discovery.init strtoul moment nvml_dll nvapi_dll [] r.probe in
        (i.0, i.1, record { probe = i.2; initialized = i.0 }))

unfoldable pub shutdown : GpuSensorReader → GpuSensorReader
unfolding Discovery.shutdown
shutdown r =
    if r.initialized then record { probe = Discovery.shutdown r.probe; initialized = false } else r

-- `gpu_count`.
unfoldable pub count_of : GpuSensorReader → ℕ
count_of r = if r.initialized then gpu_count r.probe else 0

-- `gpu_info` with an index: nothing for a null pointer.
unfoldable pub gpu_info : GpuSensorReader → ℤ → Option GpuInfo
gpu_info r index =
    if r.initialized
    then elim (context_at r.probe index) [ none ↦ none | some g ↦ some g.info ]
    else none

-- `gpu_info` with none.
unfoldable pub gpu_infos : GpuSensorReader → List GpuInfo
gpu_infos r = if r.initialized then map (λ (g : GpuBackendContext). g.info) r.probe.gpus else []

abbrev pub is_valid_gpu_index : Impl → ℤ → Bool
is_valid_gpu_index p gpu_index =
    not (ltb_ℤ gpu_index (pos 0)) && ltb_ℤ gpu_index (pos (gpu_count p))

module _ (d : Doubles) (t : Times) where
  -- The mode `Full`: the second sample is made whatever the first returned.
  abbrev pub sample_both :
      ℤ → Bool × Impl × GpuSnapshot d.Double → Bool × Impl × GpuSnapshot d.Double
  sample_both gpu_index a =
      let b = sample_slow d t.second_now t.second_moment a.1 gpu_index a.2 in (a.0 || b.0, b.1, b.2)

  abbrev pub sample_mode :
      GpuSampleMode → Impl → ℤ → GpuSnapshot d.Double → Bool × Impl × GpuSnapshot d.Double
  sample_mode thermal_fast p gpu_index snap = sample_thermal_fast d t.now t.moment p gpu_index snap
  sample_mode fast p gpu_index snap = sample_fast d t.now t.moment p gpu_index snap
  sample_mode medium p gpu_index snap = sample_medium d t.now t.moment p gpu_index snap
  sample_mode slow p gpu_index snap = sample_slow d t.now t.moment p gpu_index snap
  sample_mode rare p gpu_index snap = sample_rare d t.now t.moment p gpu_index snap
  sample_mode full p gpu_index snap =
      sample_both gpu_index (sample_fast d t.now t.moment p gpu_index snap)

  unfoldable pub sample_with_mode :
      Impl → ℤ → GpuSampleMode → GpuSnapshot d.Double → Bool × Impl × GpuSnapshot d.Double
  unfolding sample_fast sample_slow sample_thermal_fast sample_medium sample_rare
  sample_with_mode p gpu_index mode snap =
      sample_mode mode p gpu_index (record snap { gpu_index = gpu_index })

  abbrev pub cleared : GpuSnapshot d.Double
  cleared = empty_snapshot (d.of_int (pos 0))

  -- The result, the reader, and what is then in `out_snapshot`.
  unfoldable pub sample :
      GpuSensorReader → ℤ → GpuSampleMode → Bool × GpuSensorReader × GpuSnapshot d.Double
  unfolding sample_with_mode
  sample r gpu_index mode =
      if not r.initialized || not (is_valid_gpu_index r.probe gpu_index)
      then (false, r, cleared)
      else (let s = sample_with_mode r.probe gpu_index mode cleared in
          (s.0, record r { probe = s.1 }, s.2))

module _ (d : Doubles) (times : ℕ → Times) (mode : GpuSampleMode) where
  -- The loop over `n` GPUs from `i` on: the result of each sample is dropped.
  unfoldable pub sample_from : ℕ → ℕ → Impl → List (GpuSnapshot d.Double) × Impl
  unfolding sample_with_mode
  sample_from i zero p = ([], p)
  sample_from i (suc n) p =
      let s = sample_with_mode d (times i) p (pos i) mode (empty_snapshot (d.of_int (pos 0))) in
      let rest = sample_from (suc i) n s.1 in (s.2 ∷ rest.0, rest.1)

  unfoldable pub sample_all : GpuSensorReader → List (GpuSnapshot d.Double) × GpuSensorReader
  unfolding sample_from
  sample_all r =
      if r.initialized
      then (let s = sample_from 0 (gpu_count r.probe) r.probe in (s.0, record r { probe = s.1 }))
      else ([], r)
