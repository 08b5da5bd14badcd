-- ===== src/Gpu/Driver.antt =====
-- What libs/gpu_telemetry calls in the driver's libraries, and the structs that such calls fill
-- (libs/gpu_telemetry/include/gpu_telemetry/nvapi_undoc_types.h, nvapi_undoc_extra.h, nvapi_clocks.h and
-- nvml_loader.h beside it). The functions are parameters: an entry point that may be missing is an
-- `Option`. Handles and devices are addresses. Each function takes the moment of the call, a number, so that
-- equal calls at different moments may be answered differently. A function of NVAPI gives `none` for a
-- status that is not `NVAPI_OK`, and otherwise what it wrote, with an array as a function of the index; a
-- function of NVML is given what the output holds, and gives its status and what the output holds after.
use capacity_agent.Base.{ℕ, Option, none, List, Text}
use capacity_agent.Base.Int.{ℤ}

pub record NvFanCoolerControlItem : Type 0 where
  pub cooler_id : ℕ
  pub level : ℕ
  pub control_mode : ℕ

pub record NvFanCoolerControl : Type 0 where
  pub count : ℕ
  pub items : ℕ → NvFanCoolerControlItem

pub record NvFanCoolersStatusItem : Type 0 where
  pub cooler_id : ℕ
  pub current_rpm : ℕ
  pub current_min_level : ℕ
  pub current_max_level : ℕ
  pub current_level : ℕ

pub record NvFanCoolersStatus : Type 0 where
  pub count : ℕ
  pub items : ℕ → NvFanCoolersStatusItem

-- `NvClockDomainEntry`, and the type of clock that is asked for.
pub record NvClockDomainEntry : Type 0 where
  pub present : ℕ
  pub freq_khz : ℕ

pub data NvClockType : Type 0 where
  current : NvClockType
  base : NvClockType
  boost : NvClockType

-- `NvDynamicPStatesUtilEntry`.
pub record NvDynamicPStatesUtilEntry : Type 0 where
  pub present : ℕ
  pub percentage : ℤ

pub record NvVoltageDomainEntry : Type 0 where
  pub domain_id : ℕ
  pub current_mv : ℕ

pub record NvVoltageDomainsStatus : Type 0 where
  pub count : ℕ
  pub domains : ℕ → NvVoltageDomainEntry

-- The fields of `Sensor` that the probe reads.
pub record Sensor : Type 0 where
  pub current_temp : ℤ
  pub target : ℤ

pub record GpuThermalSettings : Type 0 where
  pub count : ℕ
  pub sensor : ℕ → Sensor

pub record PowerTopologyEntry : Type 0 where
  pub domain : ℕ
  pub power_mw : ℕ

pub record PowerTopologyStatus : Type 0 where
  pub count : ℕ
  pub entries : ℕ → PowerTopologyEntry

-- The entry points that `nvapi_QueryInterface` gives, one for each identifier that is asked for.
pub record NvApi : Type 0 where
  pub initialize : Option (ℕ → ℤ)
  pub unload : Option (ℕ → ℤ)
  pub enum_physical_gpus : Option (ℕ → Option (List ℕ))
  pub get_full_name : Option (ℕ → ℕ → Text)
  pub get_bus_id : Option (ℕ → ℕ → Option ℕ)
  pub get_all_clock_frequencies : Option (ℕ → ℕ → NvClockType → Option (ℕ → NvClockDomainEntry))
  pub get_dynamic_pstates_info_ex : Option (ℕ → ℕ → Option (ℕ → NvDynamicPStatesUtilEntry))
  pub get_current_pstate : Option (ℕ → ℕ → Option ℤ)
  pub get_voltage_domains_status : Option (ℕ → ℕ → Option NvVoltageDomainsStatus)
  pub power_topology_get_status : Option (ℕ → ℕ → Option PowerTopologyStatus)
  pub get_thermal_settings : Option (ℕ → ℕ → Option GpuThermalSettings)
  pub get_thermal_sensors_undoc : Option (ℕ → ℕ → ℕ → Option (ℕ → ℤ))
  pub fan_coolers_get_control : Option (ℕ → ℕ → Option NvFanCoolerControl)
  pub fan_coolers_get_status : Option (ℕ → ℕ → Option NvFanCoolersStatus)
  pub fan_coolers_set_control : Option (ℕ → ℕ → NvFanCoolerControl → ℤ)

pub record NvmlUtilization : Type 0 where
  pub gpu : ℕ
  pub memory : ℕ

pub record NvmlMemoryInfo : Type 0 where
  pub total : ℕ
  pub free : ℕ
  pub used : ℕ

-- The entry points of nvml.dll that `GetProcAddress` gives, named as the members of `NvmlLoader`.
pub record Nvml : Type 0 where
  pub fn_init : Option (ℕ → ℤ)
  pub fn_shutdown : Option (ℕ → ℤ)
  pub fn_device_count : Option (ℕ → ℕ → ℤ × ℕ)
  pub fn_device_by_index : Option (ℕ → ℕ → ℕ → ℤ × ℕ)
  pub fn_device_name : Option (ℕ → ℕ → ℕ → Text → ℤ × Text)
  pub fn_pci_bus_id : Option (ℕ → ℕ → ℕ → Text → ℤ × Text)
  pub fn_temperature : Option (ℕ → ℕ → ℕ → ℕ → ℤ × ℕ)
  pub fn_clock : Option (ℕ → ℕ → ℕ → ℕ → ℤ × ℕ)
  pub fn_power : Option (ℕ → ℕ → ℕ → ℤ × ℕ)
  pub fn_utilization : Option (ℕ → ℕ → NvmlUtilization → ℤ × NvmlUtilization)
  pub fn_memory_info : Option (ℕ → ℕ → NvmlMemoryInfo → ℤ × NvmlMemoryInfo)
  pub fn_encoder_util : Option (ℕ → ℕ → ℕ → ℕ → ℤ × (ℕ × ℕ))
  pub fn_decoder_util : Option (ℕ → ℕ → ℕ → ℕ → ℤ × (ℕ × ℕ))
  pub fn_pcie_throughput : Option (ℕ → ℕ → ℕ → ℕ → ℤ × ℕ)
  pub fn_pcie_link_gen : Option (ℕ → ℕ → ℕ → ℤ × ℕ)
  pub fn_pcie_link_width : Option (ℕ → ℕ → ℕ → ℤ × ℕ)
  pub fn_throttle_reasons : Option (ℕ → ℕ → ℕ → ℤ × ℕ)

-- All the members null.
abbrev pub no_nvml : Nvml
no_nvml = record {
  fn_init = none;
  fn_shutdown = none;
  fn_device_count = none;
  fn_device_by_index = none;
  fn_device_name = none;
  fn_pci_bus_id = none;
  fn_temperature = none;
  fn_clock = none;
  fn_power = none;
  fn_utilization = none;
  fn_memory_info = none;
  fn_encoder_util = none;
  fn_decoder_util = none;
  fn_pcie_throughput = none;
  fn_pcie_link_gen = none;
  fn_pcie_link_width = none;
  fn_throttle_reasons = none;
}
