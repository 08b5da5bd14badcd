-- ===== src/Gpu/Copies.antt =====
-- libs/gpu_telemetry/src/gpu_telemetry_c.cpp: the copies of texts and structs. A buffer of characters is the
-- list of its bytes, and the structs of gpu_telemetry_c.h have the fields of those that they copy.
use capacity_agent.Base.{
  ℕ, zero, suc, ◌-◌, min, Bool, ◌==◌, Option, none, some, List, [], ◌∷◌, Text, set, length,
  replicate, if◌then◌else◌,
}
use capacity_agent.Base.Int.{ℤ, pos, negsuc}
use capacity_agent.Gpu.Snapshot.{
  GpuSnapshot, empty_snapshot, max_fans, max_power_rails, no_fan, no_rail,
}
use capacity_agent.Gpu.Thermals.{to_uint32}
use capacity_agent.Gpu.Contexts.{GpuInfo}
use capacity_agent.Gpu.Reader.{GpuSampleMode, thermal_fast, fast, medium, slow, rare, full}

unfoldable pub clear_buffer : List ℕ → List ℕ
clear_buffer [] = []
clear_buffer (b ∷ bs) = 0 ∷ bs

-- The first `n` entries are copied, as by a loop or by `memcpy`.
abbrev pub copy_first : {A : Type 0} → ℕ → List A → List A → List A
copy_first zero source target = target
copy_first (suc n) [] target = target
copy_first (suc n) source [] = []
copy_first (suc n) (a ∷ source) (b ∷ target) = a ∷ copy_first n source target

unfoldable pub copy_string_to_buffer : Text → List ℕ → List ℕ
unfolding clear_buffer
copy_string_to_buffer value [] = []
copy_string_to_buffer value (b ∷ bs) =
    let copy_size = min (length value) (length (b ∷ bs) - 1) in
    set (copy_first copy_size value (clear_buffer (b ∷ bs))) copy_size 0

abbrev pub copy_to : Text → Option (List ℕ) → Option (List ℕ)
copy_to value none = none
copy_to value (some buffer) = some (copy_string_to_buffer value buffer)

abbrev pub clear : Option (List ℕ) → Option (List ℕ)
clear none = none
clear (some buffer) = some (clear_buffer buffer)

-- The mode for a value of the enumeration of C, or nothing for the result false.
unfoldable pub to_sample_mode : ℤ → Option GpuSampleMode
to_sample_mode (negsuc n) = none
to_sample_mode (pos n) =
    if n == 0
    then some thermal_fast
    else (if n == 1
        then some fast
        else (if n == 2
            then some medium
            else (if n == 3
                then some slow
                else (if n == 4 then some rare else (if n == 5 then some full else none)))))

-- `gpu_telemetry_gpu_info_t`.
pub record GpuTelemetryGpuInfo : Type 0 where
  pub index : ℤ
  pub name : List ℕ
  pub nvml_pci_bus_id : List ℕ
  pub has_nvml : ℕ
  pub has_hotspot : ℕ
  pub mask : ℕ
  pub sensor_count : ℤ
  pub core_sensor_idx : ℤ
  pub memjn_sensor_idx : ℤ

abbrev pub zero_info : GpuTelemetryGpuInfo
zero_info = record {
  index = pos 0;
  name = replicate 64 0;
  nvml_pci_bus_id = replicate 32 0;
  has_nvml = 0;
  has_hotspot = 0;
  mask = 0;
  sensor_count = pos 0;
  core_sensor_idx = pos 0;
  memjn_sensor_idx = pos 0;
}

abbrev pub flag : Bool → ℕ
flag b = if b then 1 else 0

unfoldable pub copy_gpu_info : GpuInfo → GpuTelemetryGpuInfo
unfolding copy_string_to_buffer
copy_gpu_info source = record {
  index = source.index;
  name = copy_string_to_buffer source.name zero_info.name;
  nvml_pci_bus_id = copy_string_to_buffer source.nvml_pci_bus_id zero_info.nvml_pci_bus_id;
  has_nvml = flag source.has_nvml;
  has_hotspot = flag source.has_hotspot;
  mask = to_uint32 source.thermal.mask;
  sensor_count = source.thermal.sensor_count;
  core_sensor_idx = source.thermal.core_sensor_idx;
  memjn_sensor_idx = source.thermal.memjn_sensor_idx;
}

-- `std::min(count, limit)` as the number of rounds of the loop.
abbrev pub rounds : ℤ → ℕ → ℕ
rounds (pos n) limit = min n limit
rounds (negsuc n) limit = 0

-- A zeroed `gpu_telemetry_snapshot_t`, where `z` is 0.0.
abbrev pub zero_snapshot : {D : Type 0} → D → GpuSnapshot D
zero_snapshot z = record (empty_snapshot z) {
  pstate = pos 0;
  util_gpu_pct = pos 0;
  util_fb_pct = pos 0;
  util_vid_pct = pos 0;
}

unfoldable pub copy_snapshot : {D : Type 0} → GpuSnapshot D → GpuSnapshot D
copy_snapshot source = record {
  gpu_index = source.gpu_index;
  time_ms = source.time_ms;
  dt_ms = source.dt_ms;
  core_c = source.core_c;
  memjn_c = source.memjn_c;
  hotspot_c = source.hotspot_c;
  nvml_temp_c = source.nvml_temp_c;
  clock_graphics_mhz = source.clock_graphics_mhz;
  clock_memory_mhz = source.clock_memory_mhz;
  clock_video_mhz = source.clock_video_mhz;
  clock_boost_mhz = source.clock_boost_mhz;
  nvml_clock_graphics_mhz = source.nvml_clock_graphics_mhz;
  nvml_clock_memory_mhz = source.nvml_clock_memory_mhz;
  nvml_clock_video_mhz = source.nvml_clock_video_mhz;
  pstate = source.pstate;
  util_gpu_pct = source.util_gpu_pct;
  util_fb_pct = source.util_fb_pct;
  util_vid_pct = source.util_vid_pct;
  nvml_util_gpu_pct = source.nvml_util_gpu_pct;
  nvml_util_mem_pct = source.nvml_util_mem_pct;
  nvml_encoder_pct = source.nvml_encoder_pct;
  nvml_decoder_pct = source.nvml_decoder_pct;
  vram_used_mb = source.vram_used_mb;
  vram_free_mb = source.vram_free_mb;
  vram_total_mb = source.vram_total_mb;
  fan_count = source.fan_count;
  fans = copy_first (rounds source.fan_count max_fans) source.fans (replicate 4 no_fan);
  nvml_power_mw = source.nvml_power_mw;
  power_rail_count = source.power_rail_count;
  power_rails =
      copy_first (rounds source.power_rail_count max_power_rails) source.power_rails
        (replicate 4 no_rail);
  voltage_core_mv = source.voltage_core_mv;
  pcie_tx_kb_s = source.pcie_tx_kb_s;
  pcie_rx_kb_s = source.pcie_rx_kb_s;
  pcie_link_gen = source.pcie_link_gen;
  pcie_link_width = source.pcie_link_width;
  throttle_reasons = source.throttle_reasons;
}
