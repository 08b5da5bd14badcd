-- ===== src/Examples/Gpus.antt =====
-- A driver with one GPU that has two sensors, one fan and no NVML, read through the reader and the C
-- interface.
use capacity_agent.Base.{
  ℕ, ◌<◌, ◌≡◌, ◌≢◌, ◌⊎◌, refl, min, true, false, ◌==◌, Option, none, some, List, [], ◌∷◌, Text,
  codes, get_elem?, length, take, if◌then◌else◌,
}
use capacity_agent.Base.Int.{ℤ, pos, negsuc}
use capacity_agent.Store.Tables.{int_eq}
use capacity_agent.Gpu.Snapshot.{IsWellFormed, empty_snapshot}
use capacity_agent.Gpu.Driver.{NvFanCoolerControl, NvFanCoolersStatus, NvApi, Nvml, no_nvml}
use capacity_agent.Gpu.NvmlLoader.{new_loader, init}
use capacity_agent.Gpu.Thermals.{GetThermal, undiscovered, discover_sensors}
use capacity_agent.Gpu.Thermals.Roles.{IsDiscovery, discover_sensors-IsDiscovery}
use capacity_agent.Gpu.Fans.{
  NvApiFans, NvCoolerDiscovery, get_control, get_status, discover_coolers,
}
use capacity_agent.Gpu.Fans.Coolers.{HasLevels, discover_coolers-HasLevels}
use capacity_agent.Gpu.Contexts.{GpuBackendContext, Impl}
use capacity_agent.Gpu.Samples as Samples
use capacity_agent.Gpu.Samples.{Tier, fast, slow, min_interval, last_of, context_at, sample_tier}
use capacity_agent.Gpu.Samples.Rates.{HasOutcome, sample_tier-HasOutcome}
use capacity_agent.Gpu.Samples.Spacing.{Sampled, Spaced, served_times, served_times-Spaced}
use capacity_agent.Gpu.Discovery.{NvmlDevInfo, match_device}
use capacity_agent.Gpu.Discovery as Discovery
use capacity_agent.Gpu.Discovery.Matching.{HasInit, init-HasInit, match_device_cases}
use capacity_agent.Gpu.Reader.{GpuSampleMode, GpuSensorReader, Times, sample}
use capacity_agent.Gpu.Reader.Moves.{new_impl}
use capacity_agent.Gpu.Reader.Samples.{sample-IsWellFormed}
use capacity_agent.Gpu.Capi.{gpu_telemetry_reader_sample, zeroed}
use capacity_agent.Gpu.Copies.{copy_string_to_buffer, flag}
use capacity_agent.Gpu.Capi.Buffers.{c_string, IsTerminated, copy_string_to_buffer_lem}
use capacity_agent.Gpu.Capi.Snapshots.{value_of, gpu_telemetry_reader_sample_eq}
use capacity_agent.Examples.Answers.{naturals}

-- Probes of the sensors at 1 and 2 are answered, and a read of both.
abbrev thermal_sensors : GetThermal
thermal_sensors moment gpu mask =
    if mask == 2
    then some (λ (i : ℕ). pos 15360)
    else (if mask == 4
        then some (λ (i : ℕ). pos 15360)
        else (if mask == 6 then some (λ (i : ℕ). pos 17920) else none))

discover_sensors-IsDiscovery_example :
    (((discover_sensors
          (record { ready = true; fn_get_thermal_u = some thermal_sensors })
          7
          undiscovered).0
        ≡ true)
      × IsDiscovery thermal_sensors 7
          (discover_sensors
            (record { ready = true; fn_get_thermal_u = some thermal_sensors })
            7
            undiscovered).1)
    ⊎ (((discover_sensors
            (record { ready = true; fn_get_thermal_u = some thermal_sensors })
            7
            undiscovered).0
          ≡ false)
        × ((discover_sensors
              (record { ready = true; fn_get_thermal_u = some thermal_sensors })
              7
              undiscovered).1
            ≡ undiscovered))
discover_sensors-IsDiscovery_example = discover_sensors-IsDiscovery thermal_sensors 7 undiscovered

-- It finds the core at 1 and the memory junction at 2.
found_roles :
    (discover_sensors
      (record { ready = true; fn_get_thermal_u = some thermal_sensors })
      7
      undiscovered).1.memj_index
    ≡ pos 2
unfolding discover_sensors int_eq
found_roles = refl

abbrev one_control : NvFanCoolerControl
one_control = record {
  count = 1;
  items = λ (i : ℕ). record { cooler_id = 5; level = 40; control_mode = 0 };
}

abbrev one_status : NvFanCoolersStatus
one_status = record {
  count = 1;
  items = λ (i : ℕ). record {
    cooler_id = 5;
    current_rpm = 1200;
    current_min_level = 30;
    current_max_level = 90;
    current_level = 40;
  };
}

abbrev fans : NvApiFans
fans = record {
  ready = true;
  fn_get_control = some (λ (moment : ℕ) (gpu : ℕ). some one_control);
  fn_get_status = some (λ (moment : ℕ) (gpu : ℕ). some one_status);
  fn_set_control = some (λ (moment : ℕ) (gpu : ℕ) (c : NvFanCoolerControl). pos 0);
}

control_given : get_control fans 0 7 ≡ some one_control
unfolding get_control
control_given = refl

status_given : get_status fans 0 7 ≡ some one_status
unfolding get_status
status_given = refl

discover_coolers-HasLevels_example :
    (length (discover_coolers fans 0 7) ≡ min one_control.count 32)
    × ((i : ℕ)
        → i < min one_control.count 32
        → (c : NvCoolerDiscovery) × (get_elem? (discover_coolers fans 0 7) i ≡ some c)
          × (c.cooler_id ≡ (one_control.items i).cooler_id)
          × HasLevels one_status.items
              (min one_status.count 32)
              c.cooler_id
              (c.min_level, c.max_level))
discover_coolers-HasLevels_example =
    discover_coolers-HasLevels fans 0 7 one_control one_status control_given status_given

abbrev context : GpuBackendContext
context = record {
  info = record {
    index = pos 0;
    name = codes "RTX";
    nvml_pci_bus_id = [];
    has_nvml = false;
    has_hotspot = false;
    thermal = record {
      mask = [];
      sensor_count = pos 0;
      core_sensor_idx = negsuc 0;
      memjn_sensor_idx = negsuc 0;
    };
  };
  nvapi_handle = 7;
  nvml_device = 0;
  thermal_disc = undiscovered;
  hotspot_sensor_idx = negsuc 0;
  last_poll = Discovery.never;
}

abbrev probe : Impl
probe = record new_impl { fans = fans; gpus = context ∷ [] }

abbrev fast_at : ℕ → Sampled ℕ
fast_at now = record { tier = fast; gpu = 0; now = now; moment = 0; snap = empty_snapshot 0 }

-- The second of three calls, 10 ms after the first, is refused.
abbrev three_calls : List (Sampled ℕ)
three_calls = fast_at 20000000 ∷ fast_at 30000000 ∷ fast_at 36000000 ∷ []

two_served : served_times naturals fast 0 three_calls probe ≡ 20000000 ∷ 36000000 ∷ []
unfolding Samples.sample_fast
two_served = refl

served_times-Spaced_example :
    Spaced
      (min_interval fast)
      (last_of fast context.last_poll)
      (served_times naturals fast 0 three_calls probe)
served_times-Spaced_example = served_times-Spaced naturals fast 0 three_calls probe context refl

sample_tier-HasOutcome_example :
    HasOutcome 20000000 slow probe
      (pos 0)
      (empty_snapshot 0)
      (sample_tier naturals 20000000 0 probe (pos 0) slow (empty_snapshot 0))
sample_tier-HasOutcome_example =
    sample_tier-HasOutcome naturals 20000000 0 probe (pos 0) slow (empty_snapshot 0)

-- A library without the entry points that are required, and one whose driver does not start.
abbrev broken : Nvml
broken = record no_nvml { fn_init = some (λ (moment : ℕ). pos 9) }

broken_refused :
    (init 0 (some broken) new_loader).0 ≡ some (codes "Required NVML entry points not found.")
unfolding init
broken_refused = refl

abbrev pub no_number : Text → ℕ
no_number text = 0

-- NVAPI with one GPU, whose handle is 7, and the sensors of above.
abbrev pub one_gpu : NvApi
one_gpu = record {
  initialize = some (λ (moment : ℕ). pos 0);
  unload = some (λ (moment : ℕ). pos 0);
  enum_physical_gpus = some (λ (moment : ℕ). some (7 ∷ []));
  get_full_name = some (λ (moment : ℕ) (gpu : ℕ). codes "RTX");
  get_bus_id = none;
  get_all_clock_frequencies = none;
  get_dynamic_pstates_info_ex = none;
  get_current_pstate = none;
  get_voltage_domains_status = none;
  power_topology_get_status = none;
  get_thermal_settings = none;
  get_thermal_sensors_undoc = some thermal_sensors;
  fan_coolers_get_control = none;
  fan_coolers_get_status = none;
  fan_coolers_set_control = none;
}

init-HasInit_example :
    HasInit probe (Discovery.init no_number 0 none (some (some one_gpu)) [] probe)
init-HasInit_example = init-HasInit no_number 0 none (some (some one_gpu)) [] probe

abbrev devices : List NvmlDevInfo
devices =
    record { dev = 100; bus_id = codes "00000000:01:00.0"; pci_bus = 1 }
    ∷ record { dev = 200; bus_id = codes "00000000:02:00.0"; pci_bus = 2 }
    ∷ []

match_device_cases_example :
    ((b : ℕ) × (k : ℕ) × (nd : NvmlDevInfo) × (◌≡◌ {A = Option ℕ} (some 2) (some b))
      × (get_elem? devices k ≡ some nd)
      × (nd.pci_bus ≡ b)
      × ((j : ℕ) (other : NvmlDevInfo)
          → j < k
          → get_elem? devices j ≡ some other
          → other.pci_bus ≢ b)
      × (match_device (some 2) 0 devices ≡ some nd))
    ⊎ (((b : ℕ) (k : ℕ) (nd : NvmlDevInfo)
          → ◌≡◌ {A = Option ℕ} (some 2) (some b)
          → get_elem? devices k ≡ some nd
          → nd.pci_bus ≢ b)
        × (match_device (some 2) 0 devices ≡ get_elem? devices 0))
match_device_cases_example = match_device_cases (some 2) 0 devices

abbrev pub reader : GpuSensorReader
reader = record { probe = probe; initialized = true }

abbrev pub at_start : Times
at_start = record { now = 1000000000; moment = 0; second_now = 1000000000; second_moment = 0 }

sample-IsWellFormed_example :
    IsWellFormed (sample naturals at_start reader (pos 0) GpuSampleMode.full).2
sample-IsWellFormed_example =
    sample-IsWellFormed naturals at_start reader (pos 0) GpuSampleMode.full

out_of_range : (sample naturals at_start reader (pos 1) GpuSampleMode.full).0 ≡ false
unfolding sample
out_of_range = refl

copy_string_to_buffer_lem_example :
    (length (copy_string_to_buffer (codes "NVIDIA") (9 ∷ 9 ∷ 9 ∷ 9 ∷ [])) ≡ 4)
    × IsTerminated (copy_string_to_buffer (codes "NVIDIA") (9 ∷ 9 ∷ 9 ∷ 9 ∷ []))
    × (c_string (copy_string_to_buffer (codes "NVIDIA") (9 ∷ 9 ∷ 9 ∷ 9 ∷ []))
        ≡ c_string (take (min (length (codes "NVIDIA")) 3) (codes "NVIDIA")))
copy_string_to_buffer_lem_example = copy_string_to_buffer_lem (codes "NVIDIA") 9 (9 ∷ 9 ∷ 9 ∷ [])

truncated : c_string (copy_string_to_buffer (codes "NVIDIA") (9 ∷ 9 ∷ 9 ∷ 9 ∷ [])) ≡ codes "NVI"
unfolding copy_string_to_buffer
truncated = refl

gpu_telemetry_reader_sample_eq_example :
    ((mode : GpuSampleMode)
      → let s = sample naturals at_start reader (pos 0) mode in
        gpu_telemetry_reader_sample naturals at_start none
          (some reader)
          (pos 0)
          (pos (value_of mode))
          true
        ≡ (flag s.0, some s.1, some (if s.0 then s.2 else zeroed naturals at_start)))
    × ((z : ℤ)
        → ((mode : GpuSampleMode) → z ≢ pos (value_of mode))
        → gpu_telemetry_reader_sample naturals at_start none (some reader) (pos 0) z true
          ≡ (0, some reader, some (zeroed naturals at_start)))
gpu_telemetry_reader_sample_eq_example =
    gpu_telemetry_reader_sample_eq naturals at_start reader (pos 0)
