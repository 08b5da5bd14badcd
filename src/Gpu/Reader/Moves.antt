-- ===== src/Gpu/Reader/Moves.antt =====
-- The construction, the moves and the destruction of a `GpuSensorReader`, of libs/gpu_telemetry/src/
-- gpu_sensor_reader.cpp, with those of `GpuProbe` in gpu_probe.cpp and of the loaders in nvapi_loader.cpp and
-- nvml_loader.cpp. A `ReaderObject` is the storage of a reader; the result `none` is a null pointer
-- that is dereferenced.
use capacity_agent.Base.{ℕ, Bool, true, false, Option, none, some, List, [], Text, if◌then◌else◌}
use capacity_agent.Base.Options.{◌>>=◌}
use capacity_agent.Base.Double.{Doubles}
use capacity_agent.Gpu.Driver.{NvApi, Nvml}
use capacity_agent.Gpu.Snapshot.{GpuSnapshot}
use capacity_agent.Gpu.Contexts.{Impl}
use capacity_agent.Gpu.NvapiLoader.{NvApiLoader}
use capacity_agent.Gpu.NvapiLoader as NvapiLoader
use capacity_agent.Gpu.NvmlLoader.{new_loader}
use capacity_agent.Gpu.NvmlLoader as NvmlLoader
use capacity_agent.Gpu.Reader.{GpuSampleMode, GpuSensorReader, Times, init, shutdown, sample_all}

-- `impl` is `probe_.impl_`, null after a move from the reader.
pub record ReaderObject : Type 0 where
  pub impl : Option Impl
  pub initialized : Bool

abbrev pub new_nvapi_loader : NvApiLoader
new_nvapi_loader = record {
  dll_handle = false;
  initialized = false;
  query_interface = none;
  fn_initialize = none;
  fn_unload = none;
  calls = [];
}

-- What `std::make_unique<Impl>()` makes.
abbrev pub new_impl : Impl
new_impl = record {
  nvapi = new_nvapi_loader;
  thermals = record { ready = false; fn_get_thermal_u = none };
  fans = record {
    ready = false;
    fn_get_control = none;
    fn_get_status = none;
    fn_set_control = none;
  };
  nvml = new_loader;
  gpus = [];
  fn_enum_gpus = none;
  fn_get_name = none;
  fn_clocks = none;
  fn_pstates = none;
  fn_cur_pstate = none;
  fn_voltage = none;
  fn_power_topo = none;
  fn_thermal_doc = none;
  fn_get_bus_id = none;
}

abbrev pub new_reader : GpuSensorReader
new_reader = record { probe = new_impl; initialized = false }

-- The object that holds a reader, and the reader that an object holds with a probe.
abbrev pub object : GpuSensorReader → ReaderObject
object r = record { impl = some r.probe; initialized = r.initialized }

abbrev pub reader_of : ReaderObject → Impl → GpuSensorReader
reader_of o p = record { probe = p; initialized = o.initialized }

-- `delete` of a probe: the destructors of its loaders shut them down, that of NVML first.
unfoldable pub destroy_impl : Impl → Impl
unfolding NvmlLoader.shutdown NvapiLoader.shutdown
destroy_impl p = record p {
  nvml = NvmlLoader.shutdown p.nvml;
  nvapi = NvapiLoader.shutdown p.nvapi;
}

unfoldable pub init_object :
    (Text → ℕ)
    → ℕ
    → Option Nvml
    → Option (Option NvApi)
    → ReaderObject
    → Option (Bool × Text × ReaderObject)
unfolding init
init_object strtoul moment nvml_dll nvapi_dll o = elim o.impl [
  | none ↦ if o.initialized then some (true, [], o) else none
  | some p ↦
      let i = init strtoul moment nvml_dll nvapi_dll (reader_of o p) in some (i.0, i.1, object i.2)
]

unfoldable pub shutdown_object : ReaderObject → Option ReaderObject
unfolding shutdown
shutdown_object o = elim o.impl [
  | none ↦ if o.initialized then none else some o
  | some p ↦ some (object (shutdown (reader_of o p)))
]

module _ (d : Doubles) (times : ℕ → Times) (mode : GpuSampleMode) where
  unfoldable pub sample_all_object :
      ReaderObject → Option (List (GpuSnapshot d.Double) × ReaderObject)
  unfolding sample_all
  sample_all_object o = elim o.impl [
    | none ↦ if o.initialized then none else some ([], o)
    | some p ↦ let s = sample_all d times mode (reader_of o p) in some (s.0, object s.1)
  ]

-- What is left of `other` after a move from it.
abbrev pub moved_from : ReaderObject
moved_from = record { impl = none; initialized = false }

-- The move constructor: the new object and `other`.
abbrev pub move_construct : ReaderObject → ReaderObject × ReaderObject
move_construct other = (other, moved_from)

-- The `delete` of a `std::unique_ptr`: the probe that is deleted, as its destructor leaves it.
unfoldable pub delete_probe : Option Impl → Option Impl
unfolding destroy_impl
delete_probe none = none
delete_probe (some p) = some (destroy_impl p)

-- The move assignment to another object: this one, `other`, and the probe that is deleted.
unfoldable pub move_assign :
    ReaderObject → ReaderObject → Option (ReaderObject × ReaderObject × Option Impl)
unfolding shutdown_object delete_probe
move_assign this other =
    shutdown_object this >>= λ (o : ReaderObject). some (other, moved_from, delete_probe o.impl)

-- The destructor: the probe that is deleted.
unfoldable pub destroy_object : ReaderObject → Option (Option Impl)
unfolding shutdown_object delete_probe
destroy_object this = shutdown_object this >>= λ (o : ReaderObject). some (delete_probe o.impl)
