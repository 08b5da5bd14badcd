-- ===== src/Gpu/Capi.antt =====
-- libs/gpu_telemetry/src/gpu_telemetry_c.cpp, the functions of the reader. A pointer that may be null is an
-- `Option`. `thrown` is the reader as an exception leaves it, where the call of the reader throws one.
pub mod Buffers
pub mod Snapshots
use capacity_agent.Base.{
  ℕ, zero, suc, ◌-◌, min, Bool, true, false, not, ◌==◌, Option, none, some, List, [], ◌∷◌, ◌++◌,
  Text, codes, set, length, replicate, if◌then◌else◌,
}
use capacity_agent.Base.Int.{ℤ, pos, negsuc}
use capacity_agent.Base.Double.{Doubles}
use capacity_agent.Gpu.Driver.{NvApi, Nvml}
use capacity_agent.Gpu.Snapshot.{
  GpuSnapshot, empty_snapshot, max_fans, max_power_rails, no_fan, no_rail,
}
use capacity_agent.Gpu.Thermals.{Mask, to_uint32}
use capacity_agent.Gpu.Contexts.{GpuThermalInfo, GpuInfo, Impl}
use capacity_agent.Gpu.Reader.{
  GpuSampleMode, thermal_fast, fast, medium, slow, rare, full, GpuSensorReader, Times, count_of,
  gpu_info,
}
use capacity_agent.Gpu.Reader as Reader
use capacity_agent.Gpu.Reader.Moves.{new_reader, destroy_impl}
use capacity_agent.Gpu.Copies.{
  GpuTelemetryGpuInfo, clear, clear_buffer, copy_first, copy_gpu_info, copy_snapshot,
  copy_string_to_buffer, copy_to, flag, rounds, to_sample_mode, zero_info, zero_snapshot,
}

abbrev pub gpu_telemetry_get_api_version : ℕ
gpu_telemetry_get_api_version = 1

-- The argument tells whether `new` throws an exception.
unfoldable pub gpu_telemetry_reader_create : Bool → Option GpuSensorReader
gpu_telemetry_reader_create true = none
gpu_telemetry_reader_create false = some new_reader

-- The probe that the destructor of the reader deletes.
unfoldable pub gpu_telemetry_reader_destroy : Option GpuSensorReader → Option Impl
unfolding Reader.shutdown destroy_impl
gpu_telemetry_reader_destroy none = none
gpu_telemetry_reader_destroy (some reader) = some (destroy_impl (Reader.shutdown reader).probe)

-- `gpu_telemetry_reader_init`: the result, the buffer and the reader.
unfoldable pub gpu_telemetry_reader_init :
    (Text → ℕ)
    → ℕ
    → Option Nvml
    → Option (Option NvApi)
    → Option GpuSensorReader
    → Option GpuSensorReader
    → Option (List ℕ)
    → ℕ × Option (List ℕ) × Option GpuSensorReader
unfolding clear_buffer copy_string_to_buffer Reader.init
gpu_telemetry_reader_init strtoul moment nvml_dll nvapi_dll thrown none buffer =
    (0, clear buffer, none)
gpu_telemetry_reader_init strtoul moment nvml_dll nvapi_dll none (some reader) buffer =
    let r = Reader.init strtoul moment nvml_dll nvapi_dll reader in
    (flag r.0, copy_to r.1 (clear buffer), some r.2)
gpu_telemetry_reader_init strtoul moment nvml_dll nvapi_dll (some left) (some reader) buffer =
    (0, copy_to (codes "Unhandled C++ exception.") (clear buffer), some left)

unfoldable pub gpu_telemetry_reader_shutdown :
    Option GpuSensorReader → Option GpuSensorReader → Option GpuSensorReader
unfolding Reader.shutdown
gpu_telemetry_reader_shutdown thrown none = none
gpu_telemetry_reader_shutdown none (some reader) = some (Reader.shutdown reader)
gpu_telemetry_reader_shutdown (some left) (some reader) = some left

unfoldable pub gpu_telemetry_reader_is_initialized : Option GpuSensorReader → ℕ
gpu_telemetry_reader_is_initialized none = 0
gpu_telemetry_reader_is_initialized (some reader) = flag reader.initialized

unfoldable pub gpu_telemetry_reader_get_gpu_count : Option GpuSensorReader → ℕ
unfolding count_of
gpu_telemetry_reader_get_gpu_count none = 0
gpu_telemetry_reader_get_gpu_count (some reader) = count_of reader

-- What is in `*out_info` after, from what `gpu_info` gives.
abbrev pub give_info : Option GpuInfo → ℕ × GpuTelemetryGpuInfo
give_info none = (0, zero_info)
give_info (some info) = (1, copy_gpu_info info)

-- The result, and what is in `*out_info` unless it is null.
unfoldable pub gpu_telemetry_reader_get_gpu_info :
    Option GpuSensorReader → ℤ → Bool → ℕ × Option GpuTelemetryGpuInfo
unfolding copy_gpu_info gpu_info
gpu_telemetry_reader_get_gpu_info reader gpu_index false = (0, none)
gpu_telemetry_reader_get_gpu_info none gpu_index true = (0, some zero_info)
gpu_telemetry_reader_get_gpu_info (some reader) gpu_index true =
    let r = give_info (gpu_info reader gpu_index) in (r.0, some r.1)

module _ (d : Doubles) (t : Times) where
  abbrev pub zeroed : GpuSnapshot d.Double
  zeroed = zero_snapshot (d.of_int (pos 0))

  -- What is returned from the result of `sample`.
  abbrev pub give_snapshot :
      Bool × GpuSensorReader × GpuSnapshot d.Double → ℕ × GpuSensorReader × GpuSnapshot d.Double
  give_snapshot s = (flag s.0, s.1, if s.0 then copy_snapshot s.2 else zeroed)

  -- `gpu_telemetry_reader_sample` with pointers that are not null: the result, the reader, and
  -- what is in `*out_snapshot`. `thrown` as above.
  abbrev pub sample_checked :
      Option GpuSensorReader
      → GpuSensorReader
      → ℤ
      → Option GpuSampleMode
      → ℕ × GpuSensorReader × GpuSnapshot d.Double
  sample_checked thrown reader gpu_index none = (0, reader, zeroed)
  sample_checked (some left) reader gpu_index (some mode) = (0, left, zeroed)
  sample_checked none reader gpu_index (some mode) =
      give_snapshot (Reader.sample d t reader gpu_index mode)

  -- With pointers that may be null; the last argument tells whether `out_snapshot` is not.
  unfoldable pub gpu_telemetry_reader_sample :
      Option GpuSensorReader
      → Option GpuSensorReader
      → ℤ
      → ℤ
      → Bool
      → ℕ × Option GpuSensorReader × Option (GpuSnapshot d.Double)
  unfolding to_sample_mode copy_snapshot Reader.sample
  gpu_telemetry_reader_sample thrown reader gpu_index mode false = (0, reader, none)
  gpu_telemetry_reader_sample thrown none gpu_index mode true = (0, none, some zeroed)
  gpu_telemetry_reader_sample thrown (some reader) gpu_index mode true =
      let r = sample_checked thrown reader gpu_index (to_sample_mode mode) in
      (r.0, some r.1, some r.2)
