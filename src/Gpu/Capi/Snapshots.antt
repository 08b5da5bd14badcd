-- ===== src/Gpu/Capi/Snapshots.antt =====
-- The C interface to a sample gives what the reader's sample gives.
use capacity_agent.Base.{
  ℕ, zero, suc, ◌≤◌, ◌≡◌, ◌↔◌, refl, ap, sym, ◌∙◌, ◌≢◌, inl, inr, Option-cases, Bool, true,
  if◌then◌else◌, Option, none, some, List, [], ◌∷◌, length, replicate, arith,
}
use capacity_agent.Base.Int.{ℤ, pos, negsuc}
use capacity_agent.Base.Double.{Doubles}
use capacity_agent.Gpu.Snapshot.{
  GpuSnapshot, IsWellFormed, Padded, no_fan, no_rail, max_fans, max_power_rails,
}
use capacity_agent.Gpu.Reader.{
  GpuSampleMode, thermal_fast, fast, medium, slow, rare, full, GpuSensorReader, Times, sample,
}
use capacity_agent.Gpu.Reader.Samples.{sample-IsWellFormed}
use capacity_agent.Gpu.Capi.{zeroed, sample_checked, give_snapshot, gpu_telemetry_reader_sample}
use capacity_agent.Gpu.Copies.{copy_first, copy_snapshot, to_sample_mode, rounds, flag}

-- The values of `gpu_telemetry_sample_mode_t`.
abbrev pub value_of : GpuSampleMode → ℕ
value_of thermal_fast = 0
value_of fast = 1
value_of medium = 2
value_of slow = 3
value_of rare = 4
value_of full = 5

-- An integer stands for a mode exactly if it is the mode's value; every other one is refused.
to_sample_mode_iff :
    (z : ℤ) (mode : GpuSampleMode) → (to_sample_mode z ≡ some mode) ↔ (z ≡ pos (value_of mode))
unfolding to_sample_mode
to_sample_mode_iff (negsuc n) mode = ground arith
to_sample_mode_iff (pos n) mode = ground arith

-- Where the entries that are left out are zero, copying the others onto zeros copies all.
copy_first-Padded :
    {A : Type 0} (z : A) (n k : ℕ) (xs : List A)
    → length xs ≡ k
    → Padded z n xs
    → copy_first n xs (replicate k z) ≡ xs
copy_first-Padded z zero zero [] h w = refl
copy_first-Padded z zero zero (x ∷ xs) h w = absurd (omega (arith, h))
copy_first-Padded z zero (suc k) [] h w = absurd (omega (arith, h))
copy_first-Padded z zero (suc k) (x ∷ xs) h w =
    let rest = copy_first-Padded z zero k xs (omega (arith, h)) w.1 in λ i. sym w.0 i ∷ rest i
copy_first-Padded z (suc n) zero [] h w = refl
copy_first-Padded z (suc n) zero (x ∷ xs) h w = absurd (omega (arith, h))
copy_first-Padded z (suc n) (suc k) [] h w = absurd (omega (arith, h))
copy_first-Padded z (suc n) (suc k) (x ∷ xs) h w =
    ap (λ l. x ∷ l) (copy_first-Padded z n k xs (omega (arith, h)) w)

rounds_eq : (z : ℤ) (n limit : ℕ) → z ≡ pos n → n ≤ limit → rounds z limit ≡ n
rounds_eq z n limit e h = ap (λ (k : ℤ). rounds k limit) e ∙ omega arith

-- A well-formed snapshot is copied whole.
pub copy_snapshot_eq : {D : Type 0} (s : GpuSnapshot D) → IsWellFormed s → copy_snapshot s ≡ s
unfolding copy_snapshot
copy_snapshot_eq s w =
    let fans =
      ap (λ (n : ℕ). copy_first n s.fans (replicate 4 no_fan))
        (rounds_eq s.fan_count w.fan_num max_fans w.fan_count_eq w.fan_count_le)
      ∙ copy_first-Padded no_fan w.fan_num 4 s.fans w.fans_length w.fans_padded in
    let rails =
      ap (λ (n : ℕ). copy_first n s.power_rails (replicate 4 no_rail))
        (rounds_eq s.power_rail_count w.rail_num max_power_rails w.rail_count_eq w.rail_count_le)
      ∙ copy_first-Padded no_rail w.rail_num 4 s.power_rails w.rails_length w.rails_padded in
    λ i. record s { fans = fans i; power_rails = rails i }

to_sample_mode_value : (mode : GpuSampleMode) → to_sample_mode (pos (value_of mode)) ≡ some mode
to_sample_mode_value mode = (to_sample_mode_iff (pos (value_of mode)) mode).1 refl

no_mode : (z : ℤ) → ((mode : GpuSampleMode) → z ≢ pos (value_of mode)) → to_sample_mode z ≡ none
no_mode z h = elim (Option-cases (to_sample_mode z)) [
  | inl e ↦ e
  | inr q ↦ absurd (h q.0 ((to_sample_mode_iff z q.0).0 q.1))
]

module _ (d : Doubles) (t : Times) (reader : GpuSensorReader) (gpu_index : ℤ) where
  abbrev pub given : GpuSampleMode → Bool × GpuSensorReader × GpuSnapshot d.Double
  given mode = sample d t reader gpu_index mode

  give_snapshot_eq :
      (mode : GpuSampleMode)
      → give_snapshot d t (given mode) ≡ (
        flag (given mode).0,
        (given mode).1,
        if (given mode).0 then (given mode).2 else zeroed d t,
      )
  give_snapshot_eq mode =
      ap
        (λ (x : GpuSnapshot d.Double).
          (flag (given mode).0, (given mode).1, if (given mode).0 then x else zeroed d t))
        (copy_snapshot_eq (given mode).2 (sample-IsWellFormed d t reader gpu_index mode))

  sample_checked_eq :
      (z : ℤ) (o : Option GpuSampleMode)
      → to_sample_mode z ≡ o
      → gpu_telemetry_reader_sample d t none (some reader) gpu_index z true ≡ (
        (sample_checked d t none reader gpu_index o).0,
        some (sample_checked d t none reader gpu_index o).1,
        some (sample_checked d t none reader gpu_index o).2,
      )
  unfolding gpu_telemetry_reader_sample
  sample_checked_eq z o e =
      ap
        (λ (m : Option GpuSampleMode). (
          (sample_checked d t none reader gpu_index m).0,
          some (sample_checked d t none reader gpu_index m).1,
          some (sample_checked d t none reader gpu_index m).2,
        ))
        e

-- A call of the C function with a reader and a place for the snapshot, in which no exception is thrown: with
-- the value of a mode it returns 1 if the reader's sample in that mode returns true, and then the place
-- holds the reader's snapshot in every field, and 0 and a zeroed place otherwise, and leaves the reader as
-- the sample does; with any other value it returns 0 and a zeroed place and does nothing to the reader.
pub gpu_telemetry_reader_sample_eq :
    (d : Doubles) (t : Times) (reader : GpuSensorReader) (gpu_index : ℤ)
    → ((mode : GpuSampleMode)
        → let s = sample d t reader gpu_index mode in
          gpu_telemetry_reader_sample d t none (some reader) gpu_index (pos (value_of mode)) true
          ≡ (flag s.0, some s.1, some (if s.0 then s.2 else zeroed d t)))
      × ((z : ℤ)
          → ((mode : GpuSampleMode) → z ≢ pos (value_of mode))
          → gpu_telemetry_reader_sample d t none (some reader) gpu_index z true
            ≡ (0, some reader, some (zeroed d t)))
gpu_telemetry_reader_sample_eq d t reader gpu_index = (
  λ mode.
      sample_checked_eq d t reader gpu_index _ (some mode) (to_sample_mode_value mode)
      ∙ ap (λ (x : ℕ × GpuSensorReader × GpuSnapshot d.Double). (x.0, some x.1, some x.2))
          (give_snapshot_eq d t reader gpu_index mode),
  λ z h. sample_checked_eq d t reader gpu_index z none (no_mode z h),
)
