-- ===== src/Gpu/NvmlLoader.antt =====
-- libs/gpu_telemetry/src/nvml_loader.cpp. `calls` keeps what the loader took and gave back; `entries` are
-- its function pointers. What `LoadLibraryW` gives is the library's entry points, or nothing.
pub mod Ledger
use capacity_agent.Base.{
  ℕ, Bool, true, false, not, ◌&&◌, ◌||◌, Option, none, some, List, [], ◌∷◌, ◌++◌, Text, codes,
  if◌then◌else◌,
}
use capacity_agent.Base.Options.{is_some}
use capacity_agent.Base.Int.{ℤ, pos}
use capacity_agent.Store.Json.{to_string}
use capacity_agent.Store.Tables.{int_eq}
use capacity_agent.Gpu.Calls.{Call, load_library, free_library, begin_driver, end_driver, push_if}
use capacity_agent.Gpu.Driver.{Nvml, NvmlUtilization, NvmlMemoryInfo, no_nvml}

pub record NvmlLoader : Type 0 where
  pub dll_handle : Bool
  pub initialized : Bool
  pub entries : Nvml
  pub calls : List Call

abbrev pub new_loader : NvmlLoader
new_loader = record { dll_handle = false; initialized = false; entries = no_nvml; calls = [] }

unfoldable pub shutdown : NvmlLoader → NvmlLoader
shutdown l = record {
  dll_handle = false;
  initialized = false;
  entries = no_nvml;
  calls =
      push_if l.dll_handle free_library
        (push_if (l.initialized && is_some l.entries.fn_shutdown) end_driver l.calls);
}

-- `init` from the call of `fn_init_` on: the warning if it returns false.
abbrev pub finish_init : ℤ → NvmlLoader → Option Text × NvmlLoader
finish_init status l =
    if not (int_eq status (pos 0))
    then (
      some (codes "nvmlInit_v2 failed (status " ++ (to_string status ++ codes ").")),
      shutdown l,
    )
    else (none, record l { initialized = true; calls = begin_driver ∷ l.calls })

-- One of the other required entry points is null.
abbrev pub missing : Nvml → Bool
missing e =
    not (is_some e.fn_shutdown)
    || (not (is_some e.fn_device_count) || not (is_some e.fn_device_by_index))

abbrev pub refused : NvmlLoader → Option Text × NvmlLoader
refused l = (some (codes "Required NVML entry points not found."), shutdown l)

-- `init` from the test of the required entry points on.
abbrev pub start : ℕ → NvmlLoader → Option Text × NvmlLoader
start moment l = elim l.entries.fn_init [
  | none ↦ refused l
  | some fn_init ↦ if missing l.entries then refused l else finish_init (fn_init moment) l
]

-- `init`: nothing for the result true, or the warning for false.
unfoldable pub init : ℕ → Option Nvml → NvmlLoader → Option Text × NvmlLoader
init moment dll l = if l.initialized then (none, l) else elim dll [
  | none ↦ (some (codes "Unable to load nvml.dll. Ensure NVIDIA driver is installed."), l)
  | some found ↦
      start moment (record l { dll_handle = true; entries = found; calls = load_library ∷ l.calls })
]

-- The result of a getter from the status and the output.
abbrev pub answered : {A : Type 0} → ℤ × A → Bool × A
answered r = (int_eq r.0 (pos 0), r.1)

module _ (l : NvmlLoader) (moment : ℕ) where
  unfoldable pub get_device_count : ℕ → Bool × ℕ
  get_device_count count = elim l.entries.fn_device_count [
    | none ↦ (false, count)
    | some f ↦ answered (f moment count)
  ]

  unfoldable pub get_device_by_index : ℕ → ℕ → Bool × ℕ
  get_device_by_index index device = elim l.entries.fn_device_by_index [
    | none ↦ (false, device)
    | some f ↦ answered (f moment index device)
  ]

  unfoldable pub get_device_name : ℕ → ℕ → Text → Bool × Text
  get_device_name device max_length name = elim l.entries.fn_device_name [
    | none ↦ (false, name)
    | some f ↦ answered (f moment device max_length name)
  ]

  unfoldable pub get_pci_bus_id : ℕ → ℕ → Text → Bool × Text
  get_pci_bus_id device max_length bus_id = elim l.entries.fn_pci_bus_id [
    | none ↦ (false, bus_id)
    | some f ↦ answered (f moment device max_length bus_id)
  ]

  unfoldable pub get_temperature : ℕ → ℕ → ℕ → Bool × ℕ
  get_temperature device sensor temp_c = elim l.entries.fn_temperature [
    | none ↦ (false, temp_c)
    | some f ↦ answered (f moment device sensor temp_c)
  ]

  unfoldable pub get_clock : ℕ → ℕ → ℕ → Bool × ℕ
  get_clock device kind clock_mhz = elim l.entries.fn_clock [
    | none ↦ (false, clock_mhz)
    | some f ↦ answered (f moment device kind clock_mhz)
  ]

  unfoldable pub get_power_usage : ℕ → ℕ → Bool × ℕ
  get_power_usage device power_mw = elim l.entries.fn_power [
    | none ↦ (false, power_mw)
    | some f ↦ answered (f moment device power_mw)
  ]

  unfoldable pub get_utilization : ℕ → NvmlUtilization → Bool × NvmlUtilization
  get_utilization device util = elim l.entries.fn_utilization [
    | none ↦ (false, util)
    | some f ↦ answered (f moment device util)
  ]

  unfoldable pub get_memory_info : ℕ → NvmlMemoryInfo → Bool × NvmlMemoryInfo
  get_memory_info device info = elim l.entries.fn_memory_info [
    | none ↦ (false, info)
    | some f ↦ answered (f moment device info)
  ]

  unfoldable pub get_encoder_utilization : ℕ → ℕ → ℕ → Bool × (ℕ × ℕ)
  get_encoder_utilization device util_pct period_us = elim l.entries.fn_encoder_util [
    | none ↦ (false, (util_pct, period_us))
    | some f ↦ answered (f moment device util_pct period_us)
  ]

  unfoldable pub get_decoder_utilization : ℕ → ℕ → ℕ → Bool × (ℕ × ℕ)
  get_decoder_utilization device util_pct period_us = elim l.entries.fn_decoder_util [
    | none ↦ (false, (util_pct, period_us))
    | some f ↦ answered (f moment device util_pct period_us)
  ]

  unfoldable pub get_pcie_throughput : ℕ → ℕ → ℕ → Bool × ℕ
  get_pcie_throughput device counter kb_per_sec = elim l.entries.fn_pcie_throughput [
    | none ↦ (false, kb_per_sec)
    | some f ↦ answered (f moment device counter kb_per_sec)
  ]

  unfoldable pub get_pcie_link_gen : ℕ → ℕ → Bool × ℕ
  get_pcie_link_gen device gen = elim l.entries.fn_pcie_link_gen [
    | none ↦ (false, gen)
    | some f ↦ answered (f moment device gen)
  ]

  unfoldable pub get_pcie_link_width : ℕ → ℕ → Bool × ℕ
  get_pcie_link_width device width = elim l.entries.fn_pcie_link_width [
    | none ↦ (false, width)
    | some f ↦ answered (f moment device width)
  ]

  unfoldable pub get_throttle_reasons : ℕ → ℕ → Bool × ℕ
  get_throttle_reasons device reasons = elim l.entries.fn_throttle_reasons [
    | none ↦ (false, reasons)
    | some f ↦ answered (f moment device reasons)
  ]
