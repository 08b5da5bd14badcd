-- ===== src/Gpu/Snapshot.antt =====
-- libs/gpu_telemetry/include/gpu_telemetry/gpu_snapshot.h: `GpuSnapshot` with its initial values. The two
-- arrays are lists of four entries; an `unsigned int` is a number and a `double` is of the type `D`.
use capacity_agent.Base.{ℕ, zero, suc, ◌≤◌, ◌≡◌, List, [], ◌∷◌, replicate, length}
use capacity_agent.Base.Int.{ℤ, pos, negsuc}

pub record FanEntry : Type 0 where
  pub level_pct : ℕ
  pub rpm : ℕ

pub record PowerRailEntry : Type 0 where
  pub domain : ℕ
  pub power_mw : ℕ

-- `GPU_SNAPSHOT_MAX_FANS` and `GPU_SNAPSHOT_MAX_POWER_RAILS`.
abbrev pub max_fans : ℕ
max_fans = 4

abbrev pub max_power_rails : ℕ
max_power_rails = 4

pub record GpuSnapshot (D : Type 0) : Type 0 where
  pub gpu_index : ℤ
  pub time_ms : ℤ
  pub dt_ms : ℤ
  pub core_c : D
  pub memjn_c : D
  pub hotspot_c : ℤ
  pub nvml_temp_c : ℕ
  pub clock_graphics_mhz : ℕ
  pub clock_memory_mhz : ℕ
  pub clock_video_mhz : ℕ
  pub clock_boost_mhz : ℕ
  pub nvml_clock_graphics_mhz : ℕ
  pub nvml_clock_memory_mhz : ℕ
  pub nvml_clock_video_mhz : ℕ
  pub pstate : ℤ
  pub util_gpu_pct : ℤ
  pub util_fb_pct : ℤ
  pub util_vid_pct : ℤ
  pub nvml_util_gpu_pct : ℕ
  pub nvml_util_mem_pct : ℕ
  pub nvml_encoder_pct : ℕ
  pub nvml_decoder_pct : ℕ
  pub vram_used_mb : ℕ
  pub vram_free_mb : ℕ
  pub vram_total_mb : ℕ
  pub fan_count : ℤ
  pub fans : List FanEntry
  pub nvml_power_mw : ℕ
  pub power_rail_count : ℤ
  pub power_rails : List PowerRailEntry
  pub voltage_core_mv : ℕ
  pub pcie_tx_kb_s : ℕ
  pub pcie_rx_kb_s : ℕ
  pub pcie_link_gen : ℕ
  pub pcie_link_width : ℕ
  pub throttle_reasons : ℕ

abbrev pub no_fan : FanEntry
no_fan = record { level_pct = 0; rpm = 0 }

abbrev pub no_rail : PowerRailEntry
no_rail = record { domain = 0; power_mw = 0 }

-- `GpuSnapshot{}`, where `z` is 0.0.
abbrev pub empty_snapshot : {D : Type 0} → D → GpuSnapshot D
empty_snapshot z = record {
  gpu_index = pos 0;
  time_ms = pos 0;
  dt_ms = pos 0;
  core_c = z;
  memjn_c = z;
  hotspot_c = pos 0;
  nvml_temp_c = 0;
  clock_graphics_mhz = 0;
  clock_memory_mhz = 0;
  clock_video_mhz = 0;
  clock_boost_mhz = 0;
  nvml_clock_graphics_mhz = 0;
  nvml_clock_memory_mhz = 0;
  nvml_clock_video_mhz = 0;
  pstate = negsuc 0;
  util_gpu_pct = negsuc 0;
  util_fb_pct = negsuc 0;
  util_vid_pct = negsuc 0;
  nvml_util_gpu_pct = 0;
  nvml_util_mem_pct = 0;
  nvml_encoder_pct = 0;
  nvml_decoder_pct = 0;
  vram_used_mb = 0;
  vram_free_mb = 0;
  vram_total_mb = 0;
  fan_count = pos 0;
  fans = replicate 4 no_fan;
  nvml_power_mw = 0;
  power_rail_count = pos 0;
  power_rails = replicate 4 no_rail;
  voltage_core_mv = 0;
  pcie_tx_kb_s = 0;
  pcie_rx_kb_s = 0;
  pcie_link_gen = 0;
  pcie_link_width = 0;
  throttle_reasons = 0;
}

-- An array of four entries of which the first `n` are in use and the others are still `z`.
abbrev pub Padded : {A : Type 0} → A → ℕ → List A → Type 0
Padded z n [] = Unit
Padded z zero (x ∷ xs) = (x ≡ z) × Padded z zero xs
Padded z (suc n) (x ∷ xs) = Padded z n xs

-- The counts fit the arrays, and the entries that they leave out are zero.
pub record IsWellFormed {D : Type 0} (s : GpuSnapshot D) : Type 0 where
  pub fan_num : ℕ
  pub fan_count_eq : s.fan_count ≡ pos fan_num
  pub fan_count_le : fan_num ≤ max_fans
  pub fans_length : length s.fans ≡ max_fans
  pub fans_padded : Padded no_fan fan_num s.fans
  pub rail_num : ℕ
  pub rail_count_eq : s.power_rail_count ≡ pos rail_num
  pub rail_count_le : rail_num ≤ max_power_rails
  pub rails_length : length s.power_rails ≡ max_power_rails
  pub rails_padded : Padded no_rail rail_num s.power_rails
