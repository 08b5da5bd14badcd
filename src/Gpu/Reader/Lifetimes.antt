-- ===== src/Gpu/Reader/Lifetimes.antt =====
-- What two readers take from the driver and give back while a program initialises them, samples, shuts them
-- down, moves them to each other, destroys them and makes new ones, in any order: the special members of
-- libs/gpu_telemetry/src/gpu_sensor_reader.cpp.

pub mod Held
pub mod Objects
pub mod Released
use capacity_agent.Base.{
  ℕ, ◌+◌, ◌≡◌, refl, ◌⊎◌, ◌↔◌, Bool, true, false, Option, none, some, List, [], ◌∷◌, inl, inr, Text,
  length,
}
use capacity_agent.Base.Options.{◌>>=◌}
use capacity_agent.Base.Double.{Doubles}
use capacity_agent.Gpu.Calls.{load_library, free_library, begin_driver, end_driver, count}
use capacity_agent.Gpu.Driver.{NvApi, Nvml}
use capacity_agent.Gpu.Contexts.{Impl}
use capacity_agent.Gpu.Reader.{GpuSampleMode, Times}
use capacity_agent.Gpu.Reader.Moves.{
  ReaderObject, object, new_reader, init_object, shutdown_object, sample_all_object, move_construct,
  move_assign, destroy_object,
}

-- Two readers, and the probes that have been deleted.
pub record Readers : Type 0 where
  pub first : ReaderObject
  pub second : ReaderObject
  pub deleted : List Impl

-- The two change places; the first is initialised, shut down or samples all GPUs; the second or itself
-- is assigned to it; it is destroyed and made again, anew or by a move from the second.
pub data Op : Type 0 where
  swap : Op
  do_init : ℕ → Option Nvml → Option (Option NvApi) → Op
  do_shutdown : Op
  do_sample_all : (ℕ → Times) → GpuSampleMode → Op
  assign assign_self renew renew_from : Op

abbrev pub keep : Option Impl → List Impl → List Impl
keep none deleted = deleted
keep (some p) deleted = p ∷ deleted

abbrev pub two_new : Readers
two_new = record { first = object new_reader; second = object new_reader; deleted = [] }

module _ (strtoul : Text → ℕ) (d : Doubles) where
  -- Nothing, if a null pointer is dereferenced.
  unfoldable pub step : Op → Readers → Option Readers
  unfolding init_object shutdown_object sample_all_object move_assign destroy_object
  step swap s = some (record s { first = s.second; second = s.first })
  step (do_init moment nvml_dll nvapi_dll) s =
      init_object strtoul moment nvml_dll nvapi_dll s.first >>= λ r. some (record s { first = r.2 })
  step do_shutdown s = shutdown_object s.first >>= λ o. some (record s { first = o })
  step (do_sample_all times mode) s =
      sample_all_object d times mode s.first >>= λ r. some (record s { first = r.1 })
  step assign s = move_assign s.first s.second >>= λ r.
      some (record { first = r.0; second = r.1; deleted = keep r.2 s.deleted })
  step assign_self s = some s
  step renew s = destroy_object s.first >>= λ q.
      some (record s { first = object new_reader; deleted = keep q s.deleted })
  step renew_from s = destroy_object s.first >>= λ q. some (record {
    first = (move_construct s.second).0;
    second = (move_construct s.second).1;
    deleted = keep q s.deleted;
  })

  unfoldable pub run : List Op → Readers → Option Readers
  unfolding step
  run [] s = some s
  run (op ∷ ops) s = step op s >>= run ops

abbrev pub is_init : Op → Bool
is_init (do_init moment nvml_dll nvapi_dll) = true
is_init _ = false

-- The probes that an operation makes.
abbrev pub made : Op → ℕ
made renew = 1
made _ = 0

abbrev pub made_by : List Op → ℕ
made_by [] = 0
made_by (op ∷ ops) = made op + made_by ops

abbrev pub living : Option Impl → ℕ
living none = 0
living (some p) = 1

-- A probe has given back all that it took.
pub record IsReleased (p : Impl) : Type 0 where
  pub nvml_loads : count load_library p.nvml.calls ≡ count free_library p.nvml.calls
  pub nvml_begins : count begin_driver p.nvml.calls ≡ count end_driver p.nvml.calls
  pub nvapi_loads : count load_library p.nvapi.calls ≡ count free_library p.nvapi.calls
  pub nvapi_begins : count begin_driver p.nvapi.calls ≡ count end_driver p.nvapi.calls

abbrev pub AllReleased : List Impl → Type 0
AllReleased [] = Unit {0}
AllReleased (p ∷ ps) = IsReleased p × AllReleased ps
