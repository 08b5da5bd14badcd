-- ===== src/Gpu/Discovery.antt =====
-- `GpuProbe::init`, `shutdown`, `gpu_count` and `gpu` of libs/gpu_telemetry/src/gpu_probe.cpp. What the two
-- calls of `LoadLibraryW` give are arguments, and so is `strtoul`, by which the source reads a hexadecimal
-- number. `moment` is that of the driver's answers.
pub mod Matching
use capacity_agent.Base.{
  ℕ, zero, suc, min, ◌%◌, Bool, true, false, not, ◌&&◌, ltb, ◌==◌, Option, none, some, List, [],
  ◌∷◌, ◌++◌, Text, codes, get_elem?, length, if◌then◌else◌,
}
use capacity_agent.Base.Options.{is_some, ◌>>=◌}
use capacity_agent.Base.Int.{ℤ, pos, negsuc, ltb_ℤ}
use capacity_agent.Store.Tables.{int_eq}
use capacity_agent.Gpu.Driver.{NvApi, Nvml, Sensor, GpuThermalSettings}
use capacity_agent.Gpu.NvmlLoader.{
  NvmlLoader, get_device_count, get_device_by_index, get_pci_bus_id,
}
use capacity_agent.Gpu.NvmlLoader as NvmlLoader
use capacity_agent.Gpu.NvapiLoader.{NvApiLoader, resolve}
use capacity_agent.Gpu.NvapiLoader as NvapiLoader
use capacity_agent.Gpu.Thermals.{NvThermalDiscovery, undiscovered, discover_sensors}
use capacity_agent.Gpu.Thermals as Thermals
use capacity_agent.Gpu.Fans as Fans
use capacity_agent.Gpu.Probe.{answer}
use capacity_agent.Gpu.Contexts.{GpuThermalInfo, GpuInfo, LastPoll, GpuBackendContext, Impl}

pub record NvmlDevInfo : Type 0 where
  pub dev : ℕ
  pub bus_id : Text
  pub pci_bus : ℕ

abbrev pub is_empty : {A : Type 0} → List A → Bool
is_empty [] = true
is_empty (a ∷ xs) = false

-- What stands after the first ':', or nothing.
unfoldable pub after_colon : Text → Option Text
after_colon [] = none
after_colon (c ∷ cs) = if c == b':' then some cs else after_colon cs

-- `static_cast<uint32_t>` of the number there, or 0.
unfoldable pub pci_bus_of : (Text → ℕ) → Text → ℕ
unfolding after_colon
pci_bus_of strtoul bus_id = elim (after_colon bus_id) [
  | none ↦ 0
  | some rest ↦ strtoul rest % 4294967296
]

module _ (strtoul : Text → ℕ) (nvml : NvmlLoader) (moment : ℕ) where
  abbrev pub dev_info : ℕ → NvmlDevInfo
  dev_info dev =
      let bus_id = (get_pci_bus_id nvml moment dev 32 []).1 in
      record { dev = dev; bus_id = bus_id; pci_bus = pci_bus_of strtoul bus_id }

  -- The loop over the devices of NVML, of which `n` are left from `i` on.
  unfoldable pub devices_from : ℕ → ℕ → List NvmlDevInfo
  unfolding get_device_by_index get_pci_bus_id pci_bus_of
  devices_from i zero = []
  devices_from i (suc n) =
      let r = get_device_by_index nvml moment i 0 in
      let rest = devices_from (suc i) n in if r.0 then dev_info r.1 ∷ rest else rest

  unfoldable pub nvml_devices : Bool → List NvmlDevInfo
  unfolding get_device_count devices_from
  nvml_devices have_nvml =
      let r = get_device_count nvml moment 0 in if have_nvml && r.0 then devices_from 0 r.1 else []

-- The first sensor, of `n` from `si` on, that measures the hotspot and is warmer than 0.
unfoldable pub hotspot_from : (ℕ → Sensor) → ℕ → ℕ → Option ℕ
hotspot_from sensor si zero = none
hotspot_from sensor si (suc n) =
    if int_eq (sensor si).target (pos 16) && ltb_ℤ (pos 0) (sensor si).current_temp
    then some si
    else hotspot_from sensor (suc si) n

unfoldable pub find_hotspot : Option GpuThermalSettings → Option ℕ
unfolding hotspot_from
find_hotspot none = none
find_hotspot (some ts) = hotspot_from ts.sensor 0 (min ts.count 3)

-- The first device with the bus number.
unfoldable pub on_bus : ℕ → List NvmlDevInfo → Option NvmlDevInfo
on_bus bus [] = none
on_bus bus (nd ∷ nds) = if nd.pci_bus == bus then some nd else on_bus bus nds

-- The device of the `i`-th GPU: that on the bus that `GetBusId` gives, and otherwise the `i`-th.
unfoldable pub match_device : Option ℕ → ℕ → List NvmlDevInfo → Option NvmlDevInfo
unfolding on_bus
match_device nvapi_bus i devs = elim (nvapi_bus >>= λ (bus : ℕ). on_bus bus devs) [
  | none ↦ get_elem? devs i
  | some nd ↦ some nd
]

abbrev pub never : LastPoll
never = record { thermal_fast = 0; fast = 0; medium = 0; slow = 0; rare = 0 }

abbrev pub thermal_info : NvThermalDiscovery → GpuThermalInfo
thermal_info disc = record {
  mask = disc.mask;
  sensor_count = disc.count;
  core_sensor_idx = disc.core_index;
  memjn_sensor_idx = disc.memj_index;
}

abbrev pub index_or : Option ℕ → ℤ
index_or none = negsuc 0
index_or (some i) = pos i

abbrev pub dev_of : Option NvmlDevInfo → ℕ
dev_of none = 0
dev_of (some nd) = nd.dev

abbrev pub bus_id_of : Option NvmlDevInfo → Text
bus_id_of none = []
bus_id_of (some nd) = nd.bus_id

abbrev pub name_or : Option (ℕ → ℕ → Text) → ℕ → ℕ → Text
name_or none moment handle = []
name_or (some f) moment handle = f moment handle

module _ (p : Impl) (moment : ℕ) (devs : List NvmlDevInfo) where
  -- The context of the `i`-th GPU.
  unfoldable pub context_of : ℕ → ℕ → GpuBackendContext
  unfolding discover_sensors find_hotspot match_device
  context_of i handle =
      let disc = (discover_sensors p.thermals handle undiscovered).1 in
      let hotspot = find_hotspot (answer p.fn_thermal_doc moment handle) in
      let device = match_device (answer p.fn_get_bus_id moment handle) i devs in
      record {
        info = record {
          index = pos i;
          name = name_or p.fn_get_name moment handle;
          nvml_pci_bus_id = bus_id_of device;
          has_nvml = is_some device;
          has_hotspot = is_some hotspot;
          thermal = thermal_info disc;
        };
        nvapi_handle = handle;
        nvml_device = dev_of device;
        thermal_disc = disc;
        hotspot_sensor_idx = index_or hotspot;
        last_poll = never;
      }

  unfoldable pub contexts_from : ℕ → List ℕ → List GpuBackendContext
  unfolding context_of
  contexts_from i [] = []
  contexts_from i (handle ∷ handles) = context_of i handle ∷ contexts_from (suc i) handles

abbrev pub resolve_all : Impl → Impl
resolve_all p = record p {
  fn_enum_gpus = resolve (λ (api : NvApi). api.enum_physical_gpus) p.nvapi;
  fn_get_name = resolve (λ (api : NvApi). api.get_full_name) p.nvapi;
  fn_clocks = resolve (λ (api : NvApi). api.get_all_clock_frequencies) p.nvapi;
  fn_pstates = resolve (λ (api : NvApi). api.get_dynamic_pstates_info_ex) p.nvapi;
  fn_cur_pstate = resolve (λ (api : NvApi). api.get_current_pstate) p.nvapi;
  fn_voltage = resolve (λ (api : NvApi). api.get_voltage_domains_status) p.nvapi;
  fn_power_topo = resolve (λ (api : NvApi). api.power_topology_get_status) p.nvapi;
  fn_thermal_doc = resolve (λ (api : NvApi). api.get_thermal_settings) p.nvapi;
  fn_get_bus_id = resolve (λ (api : NvApi). api.get_bus_id) p.nvapi;
}

-- The warning of NVML appended to what is there.
abbrev pub append_warning : Option Text → Text → Text
append_warning none out_warning = out_warning
append_warning (some nvml_warn) out_warning =
    if is_empty nvml_warn
    then out_warning
    else (if is_empty out_warning then [] else out_warning ++ codes "\n")
      ++ (codes "NVML: " ++ nvml_warn)

-- `init` from the enumeration of the GPUs of NVAPI on.
unfoldable pub enumerate :
    (Text → ℕ) → ℕ → Bool → Option (List ℕ) → Text → Impl → Bool × Text × Impl
unfolding contexts_from nvml_devices
enumerate strtoul moment have_nvml none out_warning p = (false, codes "No NVIDIA GPUs found.", p)
enumerate strtoul moment have_nvml (some []) out_warning p =
    (false, codes "No NVIDIA GPUs found.", p)
enumerate strtoul moment have_nvml (some (handle ∷ handles)) out_warning p = (
  true,
  out_warning,
  record p {
    gpus =
        contexts_from p moment (nvml_devices strtoul p.nvml moment have_nvml) 0 (handle ∷ handles);
  },
)

module _ (strtoul : Text → ℕ) (moment : ℕ) (nvml_dll : Option Nvml) where
  -- `init` from the test of `fn_enum_gpus_` on, with that pointer.
  unfoldable pub init_devices : Option (ℕ → Option (List ℕ)) → Text → Impl → Bool × Text × Impl
  unfolding enumerate Thermals.init Fans.init NvmlLoader.init
  init_devices none out_warning p = (false, codes "Cannot resolve EnumPhysicalGPUs.", p)
  init_devices (some fn_enum_gpus) out_warning p =
      let nvml = NvmlLoader.init moment nvml_dll p.nvml in
      enumerate strtoul moment (not (is_some nvml.0)) (fn_enum_gpus moment)
        (append_warning nvml.0 out_warning)
        (record p {
          thermals = (Thermals.init p.nvapi p.thermals).1;
          fans = (Fans.init p.nvapi p.fans).1;
          nvml = nvml.1;
        })

  -- `init` after that of the loader of NVAPI, with its warning.
  unfoldable pub init_loaded : Option Text → Text → Impl → Bool × Text × Impl
  unfolding init_devices resolve
  init_loaded none out_warning p =
      init_devices (resolve_all p).fn_enum_gpus out_warning (resolve_all p)
  init_loaded (some warning) out_warning p = (false, warning, p)

  -- The result, the warning and the probe.
  unfoldable pub init : Option (Option NvApi) → Text → Impl → Bool × Text × Impl
  unfolding init_loaded NvapiLoader.init
  init nvapi_dll out_warning p =
      let nvapi = NvapiLoader.init moment nvapi_dll p.nvapi in
      init_loaded nvapi.0 out_warning (record p { nvapi = nvapi.1 })

unfoldable pub shutdown : Impl → Impl
unfolding Thermals.shutdown Fans.shutdown NvmlLoader.shutdown NvapiLoader.shutdown
shutdown p = record p {
  gpus = [];
  fans = Fans.shutdown p.fans;
  thermals = Thermals.shutdown p.thermals;
  nvml = NvmlLoader.shutdown p.nvml;
  nvapi = NvapiLoader.shutdown p.nvapi;
}

abbrev pub gpu_count : Impl → ℕ
gpu_count p = length p.gpus
