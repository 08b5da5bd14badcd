-- ===== src/Gpu/Reader/Lifetimes/Held.antt =====
-- What the operations on one reader of libs/gpu_telemetry/src/gpu_sensor_reader.cpp leave the loaders of its
-- probe with.
use capacity_agent.Base.{
  ℕ, ◌≡◌, sym, refl, Bool, Option, none, some, List, [], ◌∷◌, inl, inr, Text, Bool-cases,
}
use capacity_agent.Base.Int.{ℤ, pos, negsuc}
use capacity_agent.Base.Double.{Doubles}
use capacity_agent.Gpu.Driver.{NvApi, Nvml}
use capacity_agent.Gpu.Contexts.{GpuBackendContext, Impl}
use capacity_agent.Gpu.Samples.{set_context}
use capacity_agent.Gpu.Discovery.{resolve_all, enumerate, init_devices, init_loaded}
use capacity_agent.Gpu.Discovery as Discovery
use capacity_agent.Gpu.NvmlLoader.Ledger as NvmlLedger
use capacity_agent.Gpu.NvapiLoader.Ledger as NvapiLedger
use capacity_agent.Gpu.Reader.{GpuSampleMode, GpuSensorReader, Times, init, shutdown, sample_all}
use capacity_agent.Gpu.Reader.Counts.{sample_all-keeps_probe}
use capacity_agent.Gpu.Reader.Moves.{new_impl, destroy_impl}
use capacity_agent.Gpu.Capi.{gpu_telemetry_reader_destroy}
use capacity_agent.Base.Options.{some_inj}
use capacity_agent.Gpu.Reader.Lifetimes.{IsReleased}

-- Both loaders are between two of their operations.
abbrev pub IsHeld : Impl → Type 0
IsHeld p = NvmlLedger.IsSettled p.nvml × NvapiLedger.IsSettled p.nvapi

pub new_impl-IsHeld : IsHeld new_impl
new_impl-IsHeld = (
  NvmlLedger.new_loader-IsSettled,
  record { handle_eq = refl; can_end = λ h. cc; loads = refl; begins = refl },
)

enumerate-IsHeld :
    (strtoul : Text → ℕ) (moment : ℕ) (have_nvml : Bool) (handles : Option (List ℕ)) (w : Text)
    (p : Impl)
    → IsHeld p
    → IsHeld (enumerate strtoul moment have_nvml handles w p).2
unfolding enumerate
enumerate-IsHeld strtoul moment have_nvml none w p h = h
enumerate-IsHeld strtoul moment have_nvml (some []) w p h = h
enumerate-IsHeld strtoul moment have_nvml (some (handle ∷ handles)) w p h = h

module _ (strtoul : Text → ℕ) (moment : ℕ) (nvml_dll : Option Nvml) where
  init_devices-IsHeld :
      (f : Option (ℕ → Option (List ℕ))) (w : Text) (p : Impl)
      → IsHeld p
      → IsHeld (init_devices strtoul moment nvml_dll f w p).2
  unfolding init_devices
  init_devices-IsHeld none w p h = h
  init_devices-IsHeld (some f) w p h =
      enumerate-IsHeld strtoul moment _ (f moment) _ _
        (NvmlLedger.init-IsSettled moment nvml_dll p.nvml h.0, h.1)

  init_loaded-IsHeld :
      (o : Option Text) (w : Text) (p : Impl)
      → IsHeld p
      → IsHeld (init_loaded strtoul moment nvml_dll o w p).2
  unfolding init_loaded
  init_loaded-IsHeld none w p h =
      init_devices-IsHeld (resolve_all p).fn_enum_gpus w (resolve_all p) h
  init_loaded-IsHeld (some warning) w p h = h

  probe-IsHeld :
      (nvapi_dll : Option (Option NvApi)) (p : Impl)
      → IsHeld p
      → IsHeld (Discovery.init strtoul moment nvml_dll nvapi_dll [] p).2
  unfolding Discovery.init
  probe-IsHeld nvapi_dll p h =
      init_loaded-IsHeld _ [] _ (h.0, NvapiLedger.init-IsSettled moment nvapi_dll p.nvapi h.1)

  -- Whether the initialisation succeeds or fails.
  pub init-IsHeld :
      (nvapi_dll : Option (Option NvApi)) (r : GpuSensorReader)
      → IsHeld r.probe
      → IsHeld (init strtoul moment nvml_dll nvapi_dll r).2.probe
  unfolding init
  init-IsHeld nvapi_dll r h = elim (Bool-cases r.initialized) [
    | inl e ↦ rw e h
    | inr e ↦ rw e (probe-IsHeld nvapi_dll r.probe h)
  ]

pub shutdown-IsHeld : (r : GpuSensorReader) → IsHeld r.probe → IsHeld (shutdown r).probe
unfolding shutdown Discovery.shutdown
shutdown-IsHeld r h = elim (Bool-cases r.initialized) [
  | inl e ↦ rw e (
    NvmlLedger.shutdown-IsSettled r.probe.nvml h.0,
    NvapiLedger.shutdown-IsSettled r.probe.nvapi h.1,
  )
  | inr e ↦ rw e h
]

set_context-IsHeld :
    (p : Impl) (i : ℤ) (g : GpuBackendContext) → IsHeld p → IsHeld (set_context p i g)
set_context-IsHeld p (pos i) g h = h
set_context-IsHeld p (negsuc i) g h = h

pub sample_all-IsHeld :
    (d : Doubles) (times : ℕ → Times) (mode : GpuSampleMode) (r : GpuSensorReader)
    → IsHeld r.probe
    → IsHeld (sample_all d times mode r).1.probe
sample_all-IsHeld d times mode r h =
    sample_all-keeps_probe IsHeld set_context-IsHeld d times mode r h

pub destroy_impl-IsReleased : (p : Impl) → IsHeld p → IsReleased (destroy_impl p)
unfolding destroy_impl
destroy_impl-IsReleased p h =
    let nvml = NvmlLedger.shutdown-Balanced p.nvml h.0 in
    let nvapi = NvapiLedger.shutdown-Balanced p.nvapi h.1 in
    record {
      nvml_loads = nvml.0;
      nvml_begins = nvml.1;
      nvapi_loads = nvapi.0;
      nvapi_begins = nvapi.1;
    }

-- A reader that is destroyed has given back what its probe took, whether it was initialised or not.
pub gpu_telemetry_reader_destroy-IsReleased :
    (r : GpuSensorReader) (p : Impl)
    → IsHeld r.probe
    → gpu_telemetry_reader_destroy (some r) ≡ some p
    → IsReleased p
unfolding gpu_telemetry_reader_destroy
gpu_telemetry_reader_destroy-IsReleased r p h e =
    rw (sym (some_inj e)) (destroy_impl-IsReleased _ (shutdown-IsHeld r h))
