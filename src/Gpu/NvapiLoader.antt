-- ===== src/Gpu/NvapiLoader.antt =====
-- libs/gpu_telemetry/src/nvapi_loader.cpp, and `resolve` of nvapi_loader.h. `dll` is what `LoadLibraryW`
-- gives: nothing, or a library whose `nvapi_QueryInterface` may be missing; that function is the table of
-- the entry points it gives. `calls` keeps what the loader took and gave back.
pub mod Ledger
use capacity_agent.Base.{
  ℕ, Bool, true, false, not, ◌&&◌, Option, none, some, List, ◌∷◌, ◌++◌, Text, codes, if◌then◌else◌,
}
use capacity_agent.Base.Options.{is_some, ◌>>=◌}
use capacity_agent.Base.Int.{ℤ, pos}
use capacity_agent.Store.Json.{to_string}
use capacity_agent.Store.Tables.{int_eq}
use capacity_agent.Gpu.Calls.{Call, load_library, free_library, begin_driver, end_driver, push_if}
use capacity_agent.Gpu.Driver.{NvApi}

pub record NvApiLoader : Type 0 where
  pub dll_handle : Bool
  pub initialized : Bool
  pub query_interface : Option NvApi
  pub fn_initialize : Option (ℕ → ℤ)
  pub fn_unload : Option (ℕ → ℤ)
  pub calls : List Call

-- `resolve`, for the entry point that a field of the table stands for.
unfoldable pub resolve : {F : Type 0} → (NvApi → Option F) → NvApiLoader → Option F
resolve entry l = l.query_interface >>= entry

unfoldable pub shutdown : NvApiLoader → NvApiLoader
shutdown l = record {
  dll_handle = false;
  initialized = false;
  query_interface = none;
  fn_initialize = none;
  fn_unload = none;
  calls =
      push_if l.dll_handle free_library
        (push_if (l.initialized && is_some l.fn_unload) end_driver l.calls);
}

abbrev pub fail : Text → NvApiLoader → Option Text × NvApiLoader
fail warning l = (some warning, shutdown l)

-- `init` from the call of `NvAPI_Initialize` on.
abbrev pub finish_init : ℤ → NvApiLoader → Option Text × NvApiLoader
finish_init st l =
    if not (int_eq st (pos 0))
    then fail (codes "NvAPI_Initialize failed (status " ++ (to_string st ++ codes ").")) l
    else (none, record l { initialized = true; calls = begin_driver ∷ l.calls })

abbrev pub resolve_loader : NvApiLoader → NvApiLoader
resolve_loader l = record l {
  fn_initialize = l.query_interface >>= λ (api : NvApi). api.initialize;
  fn_unload = l.query_interface >>= λ (api : NvApi). api.unload;
}

-- `init` from the test of the two entry points of the loader on, with the first of them.
abbrev pub start_by : Option (ℕ → ℤ) → ℕ → NvApiLoader → Option Text × NvApiLoader
start_by none moment l = fail (codes "Required NVAPI loader entry points are not available.") l
start_by (some fn_initialize) moment l =
    if not (is_some l.fn_unload)
    then fail (codes "Required NVAPI loader entry points are not available.") l
    else finish_init (fn_initialize moment) l

abbrev pub start : ℕ → NvApiLoader → Option Text × NvApiLoader
start moment l = start_by l.fn_initialize moment l

abbrev pub query : ℕ → NvApiLoader → Option Text × NvApiLoader
query moment l =
    if not (is_some l.query_interface)
    then fail (codes "nvapi_QueryInterface not found in nvapi64.dll.") l
    else start moment (resolve_loader l)

-- `init`: nothing for the result true, or the warning for false.
unfoldable pub init : ℕ → Option (Option NvApi) → NvApiLoader → Option Text × NvApiLoader
init moment dll l = if l.initialized then (none, l) else elim dll [
  | none ↦ (
    some (codes "Unable to load nvapi64.dll. Ensure an NVIDIA driver is installed."),
    record l { dll_handle = false },
  )
  | some found ↦
      query moment
        (record l { dll_handle = true; query_interface = found; calls = load_library ∷ l.calls })
]
