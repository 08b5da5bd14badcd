-- ===== src/Gpu/Fans.antt =====
-- libs/gpu_telemetry/src/nvapi_fans_core.cpp, and `NvCoolerDiscovery` of nvapi_fans_core.h. The structs that a
-- call fills are zeroed before it, so that they hold what the driver wrote.
pub mod Coolers
use capacity_agent.Base.{
  ℕ, zero, suc, min, Bool, true, false, not, ◌||◌, ◌==◌, Option, none, some, List, [], ◌∷◌, Text,
  codes, if◌then◌else◌,
}
use capacity_agent.Base.Options.{is_some}
use capacity_agent.Base.Int.{ℤ, negsuc}
use capacity_agent.Gpu.Driver.{
  NvApi, NvFanCoolerControl, NvFanCoolersStatus, NvFanCoolersStatusItem,
}
use capacity_agent.Gpu.NvapiLoader.{NvApiLoader, resolve}

pub record NvCoolerDiscovery : Type 0 where
  pub cooler_id : ℕ
  pub min_level : ℕ
  pub max_level : ℕ

pub record NvApiFans : Type 0 where
  pub ready : Bool
  pub fn_get_control : Option (ℕ → ℕ → Option NvFanCoolerControl)
  pub fn_get_status : Option (ℕ → ℕ → Option NvFanCoolersStatus)
  pub fn_set_control : Option (ℕ → ℕ → NvFanCoolerControl → ℤ)

unfoldable pub shutdown : NvApiFans → NvApiFans
shutdown f = record {
  ready = false;
  fn_get_control = none;
  fn_get_status = none;
  fn_set_control = none;
}

abbrev pub resolved : NvApiLoader → NvApiFans → NvApiFans
resolved loader f = record f {
  fn_get_control = resolve (λ (api : NvApi). api.fan_coolers_get_control) loader;
  fn_get_status = resolve (λ (api : NvApi). api.fan_coolers_get_status) loader;
  fn_set_control = resolve (λ (api : NvApi). api.fan_coolers_set_control) loader;
}

abbrev pub incomplete : NvApiFans → Bool
incomplete f =
    not (is_some f.fn_get_control)
    || (not (is_some f.fn_get_status) || not (is_some f.fn_set_control))

-- `init`: the warning if it returns false.
unfoldable pub init : NvApiLoader → NvApiFans → Option Text × NvApiFans
unfolding resolve shutdown
init loader f =
    if not loader.initialized
    then (some (codes "NVAPI loader is not ready."), f)
    else (if incomplete (resolved loader f)
        then (
          some (codes "Required NVAPI fan control function pointers are not available."),
          shutdown (resolved loader f),
        )
        else (none, record (resolved loader f) { ready = true }))

-- The levels of the first status item of the cooler among `n` from `si` on, or 0 and 100.
unfoldable pub levels_of : ℕ → ℕ → (ℕ → NvFanCoolersStatusItem) → ℕ → ℕ × ℕ
levels_of cooler_id si items zero = (0, 100)
levels_of cooler_id si items (suc n) =
    if (items si).cooler_id == cooler_id
    then ((items si).current_min_level, (items si).current_max_level)
    else levels_of cooler_id (suc si) items n

abbrev pub cooler_of : NvFanCoolersStatus → ℕ → NvCoolerDiscovery
cooler_of status cooler_id =
    let levels = levels_of cooler_id 0 status.items (min status.count 32) in
    record { cooler_id = cooler_id; min_level = levels.0; max_level = levels.1 }

-- The loop over `n` control items from `ci` on.
unfoldable pub coolers_from :
    NvFanCoolerControl → NvFanCoolersStatus → ℕ → ℕ → List NvCoolerDiscovery
unfolding levels_of
coolers_from control status ci zero = []
coolers_from control status ci (suc n) =
    cooler_of status (control.items ci).cooler_id ∷ coolers_from control status (suc ci) n

-- The calls of a `Ready` object go through pointers that are set: `none` is any other status.
unfoldable pub get_control : NvApiFans → ℕ → ℕ → Option NvFanCoolerControl
get_control f moment gpu =
    if not f.ready then none else elim f.fn_get_control [ none ↦ none | some g ↦ g moment gpu ]

unfoldable pub get_status : NvApiFans → ℕ → ℕ → Option NvFanCoolersStatus
get_status f moment gpu =
    if not f.ready then none else elim f.fn_get_status [ none ↦ none | some g ↦ g moment gpu ]

-- The status; -1 if the object is not ready.
unfoldable pub set_control : NvApiFans → ℕ → ℕ → NvFanCoolerControl → ℤ
set_control f moment gpu ctrl =
    if not f.ready
    then negsuc 0
    else elim f.fn_set_control [ none ↦ negsuc 0 | some g ↦ g moment gpu ctrl ]

unfoldable pub discover_coolers : NvApiFans → ℕ → ℕ → List NvCoolerDiscovery
unfolding get_control get_status coolers_from
discover_coolers f moment gpu = elim (get_control f moment gpu) [
  | none ↦ []
  | some control ↦ elim (get_status f moment gpu) [
    | none ↦ []
    | some status ↦ coolers_from control status 0 (min control.count 32)
  ]
]
