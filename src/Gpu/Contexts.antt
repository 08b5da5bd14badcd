-- ===== src/Gpu/Contexts.antt =====
-- libs/gpu_telemetry/src/gpu_probe.cpp: `GpuBackendContext`, what it holds, and `GpuProbe::Impl`.
use capacity_agent.Base.{ℕ, Bool, Option, List, Text}
use capacity_agent.Base.Int.{ℤ}
use capacity_agent.Gpu.Driver.{
  NvClockType, NvClockDomainEntry, NvDynamicPStatesUtilEntry, NvVoltageDomainsStatus,
  GpuThermalSettings, PowerTopologyStatus,
}
use capacity_agent.Gpu.NvmlLoader.{NvmlLoader}
use capacity_agent.Gpu.NvapiLoader.{NvApiLoader}
use capacity_agent.Gpu.Thermals.{NvApiThermals, NvThermalDiscovery, Mask}
use capacity_agent.Gpu.Fans.{NvApiFans}

pub record GpuThermalInfo : Type 0 where
  pub mask : Mask
  pub sensor_count : ℤ
  pub core_sensor_idx : ℤ
  pub memjn_sensor_idx : ℤ

pub record GpuInfo : Type 0 where
  pub index : ℤ
  pub name : Text
  pub nvml_pci_bus_id : Text
  pub has_nvml : Bool
  pub has_hotspot : Bool
  pub thermal : GpuThermalInfo

-- `last_poll`.
pub record LastPoll : Type 0 where
  pub thermal_fast : ℕ
  pub fast : ℕ
  pub medium : ℕ
  pub slow : ℕ
  pub rare : ℕ

pub record GpuBackendContext : Type 0 where
  pub info : GpuInfo
  pub nvapi_handle : ℕ
  pub nvml_device : ℕ
  pub thermal_disc : NvThermalDiscovery
  pub hotspot_sensor_idx : ℤ
  pub last_poll : LastPoll

-- `GpuProbe::Impl`.
pub record Impl : Type 0 where
  pub nvapi : NvApiLoader
  pub thermals : NvApiThermals
  pub fans : NvApiFans
  pub nvml : NvmlLoader
  pub gpus : List GpuBackendContext
  pub fn_enum_gpus : Option (ℕ → Option (List ℕ))
  pub fn_get_name : Option (ℕ → ℕ → Text)
  pub fn_clocks : Option (ℕ → ℕ → NvClockType → Option (ℕ → NvClockDomainEntry))
  pub fn_pstates : Option (ℕ → ℕ → Option (ℕ → NvDynamicPStatesUtilEntry))
  pub fn_cur_pstate : Option (ℕ → ℕ → Option ℤ)
  pub fn_voltage : Option (ℕ → ℕ → Option NvVoltageDomainsStatus)
  pub fn_power_topo : Option (ℕ → ℕ → Option PowerTopologyStatus)
  pub fn_thermal_doc : Option (ℕ → ℕ → Option GpuThermalSettings)
  pub fn_get_bus_id : Option (ℕ → ℕ → Option ℕ)
