-- ===== src/Gpu/Thermals.antt =====
-- libs/gpu_telemetry/src/nvapi_thermals_core.cpp, and `NvThermalDiscovery` of nvapi_thermals_core.h. The
-- moment of a call is a number; the probe of bit `b` is made at moment `b` and the full read at 32.
-- A mask of 32 bits is the list of its bits, the lowest first.
pub mod Roles
use capacity_agent.Base.{
  ℕ, zero, suc, ◌+◌, Bool, true, false, not, ◌&&◌, ◌||◌, ltb, ◌==◌, Option, none, some, List, [],
  ◌∷◌, Text, codes, get_or, replicate, if◌then◌else◌,
}
use capacity_agent.Base.Options.{is_some}
use capacity_agent.Base.Int.{ℤ, pos, negsuc}
use capacity_agent.Store.Tables.{int_eq}
use capacity_agent.Gpu.Driver.{NvApi}
use capacity_agent.Gpu.NvapiLoader.{NvApiLoader, resolve}

abbrev pub Mask : Type 0
Mask = List Bool

abbrev pub is_empty : Mask → Bool
is_empty [] = true
is_empty (b ∷ bs) = if b then false else is_empty bs

-- The `uint32_t` that a mask is.
abbrev pub to_uint32 : Mask → ℕ
to_uint32 [] = 0
to_uint32 (b ∷ bs) = (if b then 1 else 0) + (to_uint32 bs + to_uint32 bs)

-- `1u << bit`.
unfoldable pub single : ℕ → ℕ → Mask
single zero bit = []
single (suc n) zero = true ∷ replicate n false
single (suc n) (suc bit) = false ∷ single n bit

-- The function of the driver: the moment, the handle, and the mask.
abbrev pub GetThermal : Type 0
GetThermal = ℕ → ℕ → ℕ → Option (ℕ → ℤ)

pub record NvApiThermals : Type 0 where
  pub ready : Bool
  pub fn_get_thermal_u : Option GetThermal

pub record NvThermalDiscovery : Type 0 where
  pub mask : Mask
  pub count : ℤ
  pub core_index : ℤ
  pub memj_index : ℤ
  pub initial : List ℤ

abbrev pub undiscovered : NvThermalDiscovery
undiscovered = record {
  mask = replicate 32 false;
  count = pos 0;
  core_index = negsuc 0;
  memj_index = negsuc 0;
  initial = replicate 32 (pos 0);
}

unfoldable pub shutdown : NvApiThermals → NvApiThermals
shutdown t = record { ready = false; fn_get_thermal_u = none }

-- `init`: the warning if it returns false.
unfoldable pub init : NvApiLoader → NvApiThermals → Option Text × NvApiThermals
unfolding resolve shutdown
init loader t =
    if not loader.initialized
    then (some (codes "NVAPI loader is not ready."), t)
    else elim (resolve (λ (api : NvApi). api.get_thermal_sensors_undoc) loader) [
      | none ↦ (
        some (codes "Cannot resolve undocumented thermal sensor function (0x65FE3AAD)."),
        shutdown t,
      )
      | some f ↦ (none, record { ready = true; fn_get_thermal_u = some f })
    ]

-- `SENTINEL_RAW`.
abbrev pub sentinel_raw : ℤ
sentinel_raw = pos 65280

module _ (f : GetThermal) (gpu : ℕ) where
  -- Phase 1: one call for each bit, from `bit` on.
  unfoldable pub probe_bits : ℕ → ℕ → Mask
  unfolding single
  probe_bits zero bit = []
  probe_bits (suc n) bit = is_some (f bit gpu (to_uint32 (single 32 bit))) ∷ probe_bits n (suc bit)

-- `max_bit`: one more than the highest bit that is set, or 0.
unfoldable pub max_bit_from : ℕ → ℕ → Mask → ℕ
max_bit_from bit so_far [] = so_far
max_bit_from bit so_far (b ∷ bs) = max_bit_from (suc bit) (if b then suc bit else so_far) bs

abbrev pub max_bit_of : Mask → ℕ
max_bit_of mask = max_bit_from 0 0 mask

-- Phase 3, the core sensor.
unfoldable pub core_index_of : Mask → ℤ
unfolding max_bit_from
core_index_of mask = if ltb 1 (max_bit_of mask) && get_or mask 1 false then pos 1 else negsuc 0

-- Phase 3, the test of one candidate for the memory junction.
unfoldable pub is_candidate : Mask → (ℕ → ℤ) → ℕ → Bool
unfolding max_bit_from
is_candidate mask temperatures idx =
    ltb idx (max_bit_of mask)
    && (get_or mask idx false
        && (not (int_eq (temperatures idx) (pos 0))
            && not (int_eq (temperatures idx) sentinel_raw)))

unfoldable pub first_candidate : Mask → (ℕ → ℤ) → List ℕ → ℤ
unfolding is_candidate
first_candidate mask temperatures [] = negsuc 0
first_candidate mask temperatures (idx ∷ rest) =
    if is_candidate mask temperatures idx then pos idx else first_candidate mask temperatures rest

abbrev pub mem_candidates : List ℕ
mem_candidates = 2 ∷ 7 ∷ 9 ∷ 8 ∷ []

abbrev pub table : ℕ → ℕ → (ℕ → ℤ) → List ℤ
table zero i f = []
table (suc n) i f = f i ∷ table n (suc i) f

-- Phases 2 and 3, with the mask of phase 1.
abbrev pub identify : Mask → Option (ℕ → ℤ) → Bool × NvThermalDiscovery
identify mask none = (false, undiscovered)
identify mask (some temperatures) = (
  true,
  record {
    mask = mask;
    count = pos (max_bit_of mask);
    core_index = core_index_of mask;
    memj_index = first_candidate mask temperatures mem_candidates;
    initial = table 32 0 temperatures;
  },
)

unfoldable pub discover_sensors : NvApiThermals → ℕ → NvThermalDiscovery → Bool × NvThermalDiscovery
unfolding probe_bits max_bit_from core_index_of first_candidate
discover_sensors t gpu out = if not t.ready then (false, out) else elim t.fn_get_thermal_u [
  | none ↦ (false, out)
  | some f ↦
      let mask = probe_bits f gpu 32 0 in
      if is_empty mask then (false, undiscovered) else identify mask (f 32 gpu (to_uint32 mask))
]

-- `read`: the temperatures, or nothing for the result false.
unfoldable pub read : NvApiThermals → ℕ → ℕ → Mask → Option (ℕ → ℤ)
read t moment gpu mask =
    if not t.ready || is_empty mask
    then none
    else elim t.fn_get_thermal_u [ none ↦ none | some f ↦ f moment gpu (to_uint32 mask) ]
