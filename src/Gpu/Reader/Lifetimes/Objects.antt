-- ===== src/Gpu/Reader/Lifetimes/Objects.antt =====
-- What one operation leaves a reader of libs/gpu_telemetry/src/gpu_sensor_reader.cpp with.
use capacity_agent.Base.{
  ℕ, ◌+◌, ◌≡◌, refl, ◌⊎◌, Bool, true, false, Option, none, some, List, inl, inr, Text, length,
  arith,
}
use capacity_agent.Base.Double.{Doubles}
use capacity_agent.Gpu.Driver.{NvApi, Nvml}
use capacity_agent.Gpu.Contexts.{Impl}
use capacity_agent.Gpu.Reader.{GpuSampleMode, Times}
use capacity_agent.Gpu.Reader.Moves.{
  ReaderObject, init_object, shutdown_object, sample_all_object, delete_probe,
}
use capacity_agent.Gpu.Reader.Lifetimes.{keep, living, AllReleased}
use capacity_agent.Gpu.Reader.Lifetimes.Held.{
  IsHeld, init-IsHeld, shutdown-IsHeld, sample_all-IsHeld, destroy_impl-IsReleased,
}

-- A reader without a probe is not initialised.
abbrev pub HoldsImpl : Option Impl → Bool → Type 0
HoldsImpl none initialized = initialized ≡ false
HoldsImpl (some p) initialized = IsHeld p

abbrev pub IsSound : ReaderObject → Type 0
IsSound o = HoldsImpl o.impl o.initialized

abbrev pub object_of : Option Impl → Bool → ReaderObject
object_of i b = record { impl = i; initialized = b }

-- An operation on a reader goes through and leaves it as sound, with its probe if it had one.
abbrev pub Leaves : {R : Type 0} → Option R → (R → ReaderObject) → Option Impl → Type 0
Leaves {R} x get i = (r : R) × (x ≡ some r) × IsSound (get r) × (living (get r).impl ≡ living i)

pub shutdown-Leaves :
    (i : Option Impl) (b : Bool)
    → HoldsImpl i b
    → Leaves (shutdown_object (object_of i b)) (λ o. o) i
unfolding shutdown_object
shutdown-Leaves none true h = cc
shutdown-Leaves none false h = (_, refl, refl, refl)
shutdown-Leaves (some p) b h =
    (_, refl, shutdown-IsHeld (record { probe = p; initialized = b }) h, refl)

module _ (d : Doubles) (times : ℕ → Times) (mode : GpuSampleMode) where
  pub sample_all-Leaves :
      (i : Option Impl) (b : Bool)
      → HoldsImpl i b
      → Leaves (sample_all_object d times mode (object_of i b)) (λ r. r.1) i
  unfolding sample_all_object
  sample_all-Leaves none true h = cc
  sample_all-Leaves none false h = (_, refl, refl, refl)
  sample_all-Leaves (some p) b h =
      (_, refl, sample_all-IsHeld d times mode (record { probe = p; initialized = b }) h, refl)

module _ (strtoul : Text → ℕ) (moment : ℕ) (nvml_dll : Option Nvml)
    (nvapi_dll : Option (Option NvApi)) where
  pub init-Leaves :
      (i : Option Impl) (b : Bool)
      → HoldsImpl i b
      → Leaves (init_object strtoul moment nvml_dll nvapi_dll (object_of i b)) (λ r. r.2) i
        ⊎ ((i ≡ none) × (init_object strtoul moment nvml_dll nvapi_dll (object_of i b) ≡ none))
  unfolding init_object
  init-Leaves none true h = cc
  init-Leaves none false h = inr (refl, refl)
  init-Leaves (some p) b h = inl (
    _,
    refl,
    init-IsHeld strtoul moment nvml_dll nvapi_dll (record { probe = p; initialized = b }) h,
    refl,
  )

-- A probe that is deleted is released.
pub deleted-AllReleased :
    (i : Option Impl) (b : Bool) (ps : List Impl)
    → HoldsImpl i b
    → AllReleased ps
    → AllReleased (keep (delete_probe i) ps)
unfolding delete_probe
deleted-AllReleased none b ps h released = released
deleted-AllReleased (some p) b ps h released = (destroy_impl-IsReleased p h, released)

pub length-keep :
    (i : Option Impl) (ps : List Impl) → length (keep (delete_probe i) ps) ≡ living i + length ps
unfolding delete_probe
length-keep none ps = omega arith
length-keep (some p) ps = omega arith
