-- ===== src/Gpu/Samples/Shape.antt =====
-- The shape that every sample keeps: the counts of fans and rails fit the arrays and tell their entries in
-- use.
use capacity_agent.Base.{
  ℕ, zero, suc, ◌≡◌, refl, ap, ◌∙◌, min, Option, none, some, List, [], ◌∷◌, length, replicate,
  arith,
}
use capacity_agent.Base.Int.{ℤ, pos}
use capacity_agent.Base.Double.{Doubles}
use capacity_agent.Gpu.Snapshot.{
  GpuSnapshot, IsWellFormed, Padded, no_fan, no_rail, max_fans, max_power_rails,
}
use capacity_agent.Gpu.Probe.{
  fill_first, fan_of, rail_of, answer, poll_thermals_undoc, poll_common_medium, poll_power,
  poll_fans, poll_slow_data, poll_temperature, poll_hotspot, poll_clocks, poll_nvml_clocks,
  poll_pstate, poll_utilization, poll_nvml_utilization, poll_voltage, poll_vram, poll_board,
  with_rails, with_fans, poll_nvml_rest,
}
use capacity_agent.Gpu.Contexts.{GpuBackendContext, Impl}
use capacity_agent.Gpu.Driver.{PowerTopologyStatus, NvFanCoolersStatus}
use capacity_agent.Gpu.Fans.{get_status}
use capacity_agent.Gpu.Samples.{Tier, thermal_fast, fast, medium, slow, rare, work_of}

-- The two arrays and their counts are the same.
abbrev pub SameArrays : {D : Type 0} → GpuSnapshot D → GpuSnapshot D → Type 0
SameArrays s t =
    (t.fan_count ≡ s.fan_count)
    × (t.fans ≡ s.fans)
    × (t.power_rail_count ≡ s.power_rail_count)
    × (t.power_rails ≡ s.power_rails)

-- The arrays of a snapshot that no fans and no rails were written to.
abbrev pub IsFresh : {D : Type 0} → GpuSnapshot D → Type 0
IsFresh s =
    (s.fan_count ≡ pos 0)
    × (s.fans ≡ replicate 4 no_fan)
    × (s.power_rail_count ≡ pos 0)
    × (s.power_rails ≡ replicate 4 no_rail)

SameArrays-trans :
    {D : Type 0} (s t u : GpuSnapshot D) → SameArrays s t → SameArrays t u → SameArrays s u
SameArrays-trans s t u k l = (l.0 ∙ k.0, l.1 ∙ k.1, l.2 ∙ k.2, l.3 ∙ k.3)

SameArrays-IsFresh : {D : Type 0} (s t : GpuSnapshot D) → SameArrays s t → IsFresh s → IsFresh t
SameArrays-IsFresh s t k h = (k.0 ∙ h.0, k.1 ∙ h.1, k.2 ∙ h.2, k.3 ∙ h.3)

SameArrays-IsWellFormed :
    {D : Type 0} (s t : GpuSnapshot D) → SameArrays s t → IsWellFormed s → IsWellFormed t
SameArrays-IsWellFormed s t k w = record {
  fan_num = w.fan_num;
  fan_count_eq = k.0 ∙ w.fan_count_eq;
  fan_count_le = w.fan_count_le;
  fans_length = ap length k.1 ∙ w.fans_length;
  fans_padded = rw k.1 w.fans_padded;
  rail_num = w.rail_num;
  rail_count_eq = k.2 ∙ w.rail_count_eq;
  rail_count_le = w.rail_count_le;
  rails_length = ap length k.3 ∙ w.rails_length;
  rails_padded = rw k.3 w.rails_padded;
}

Padded-replicate : {A : Type 0} (z : A) (n k : ℕ) → Padded z n (replicate k z)
Padded-replicate z n zero = tt
Padded-replicate z zero (suc k) = (refl, Padded-replicate z zero k)
Padded-replicate z (suc n) (suc k) = Padded-replicate z n k

length-fill_first :
    {A : Type 0} (n : ℕ) (f : ℕ → A) (old : List A) → length (fill_first n f old) ≡ length old
length-fill_first zero f old = refl
length-fill_first (suc n) f [] = refl
length-fill_first (suc n) f (a ∷ old) = ap suc (length-fill_first n (λ i. f (suc i)) old)

Padded-fill_first :
    {A : Type 0} (z : A) (n k : ℕ) (f : ℕ → A) → Padded z n (fill_first n f (replicate k z))
Padded-fill_first z zero k f = Padded-replicate z 0 k
Padded-fill_first z (suc n) zero f = tt
Padded-fill_first z (suc n) (suc k) f = Padded-fill_first z n k (λ i. f (suc i))

pub IsFresh-IsWellFormed : {D : Type 0} (s : GpuSnapshot D) → IsFresh s → IsWellFormed s
IsFresh-IsWellFormed s h = record {
  fan_num = 0;
  fan_count_eq = h.0;
  fan_count_le = omega arith;
  fans_length = ap length h.1;
  fans_padded = rw h.1 (Padded-replicate no_fan 0 4);
  rail_num = 0;
  rail_count_eq = h.2;
  rail_count_le = omega arith;
  rails_length = ap length h.3;
  rails_padded = rw h.3 (Padded-replicate no_rail 0 4);
}

module _ (d : Doubles) (p : Impl) (moment : ℕ) (g : GpuBackendContext) where
  poll_thermals_undoc-SameArrays :
      (s : GpuSnapshot d.Double) → SameArrays s (poll_thermals_undoc d p moment g s)
  unfolding poll_thermals_undoc
  poll_thermals_undoc-SameArrays s = ground arith

  poll_temperature-SameArrays :
      (s : GpuSnapshot d.Double) → SameArrays s (poll_temperature d p moment g s)
  poll_temperature-SameArrays s = ground arith

  poll_hotspot-SameArrays : (s : GpuSnapshot d.Double) → SameArrays s (poll_hotspot d p moment g s)
  poll_hotspot-SameArrays s = ground arith

  poll_clocks-SameArrays : (s : GpuSnapshot d.Double) → SameArrays s (poll_clocks d p moment g s)
  poll_clocks-SameArrays s = ground arith

  poll_nvml_clocks-SameArrays :
      (s : GpuSnapshot d.Double) → SameArrays s (poll_nvml_clocks d p moment g s)
  poll_nvml_clocks-SameArrays s = ground arith

  poll_pstate-SameArrays : (s : GpuSnapshot d.Double) → SameArrays s (poll_pstate d p moment g s)
  poll_pstate-SameArrays s = ground arith

  poll_utilization-SameArrays :
      (s : GpuSnapshot d.Double) → SameArrays s (poll_utilization d p moment g s)
  poll_utilization-SameArrays s = ground arith

  poll_nvml_utilization-SameArrays :
      (s : GpuSnapshot d.Double) → SameArrays s (poll_nvml_utilization d p moment g s)
  poll_nvml_utilization-SameArrays s = ground arith

  poll_board-SameArrays : (s : GpuSnapshot d.Double) → SameArrays s (poll_board d p moment g s)
  poll_board-SameArrays s = ground arith

  poll_voltage-SameArrays : (s : GpuSnapshot d.Double) → SameArrays s (poll_voltage d p moment g s)
  poll_voltage-SameArrays s = ground arith

  poll_vram-SameArrays : (s : GpuSnapshot d.Double) → SameArrays s (poll_vram d p moment g s)
  poll_vram-SameArrays s = ground arith

  poll_nvml_rest-SameArrays :
      (s : GpuSnapshot d.Double) → SameArrays s (poll_nvml_rest d p moment g s)
  poll_nvml_rest-SameArrays s = ground arith

  poll_slow_data-SameArrays :
      (s : GpuSnapshot d.Double) → SameArrays s (poll_slow_data d p moment g s)
  unfolding poll_slow_data
  poll_slow_data-SameArrays s =
      let s1 = poll_voltage d p moment g s in
      let s2 = poll_vram d p moment g s1 in
      let s3 = poll_nvml_rest d p moment g s2 in
      SameArrays-trans s s1 s3 (poll_voltage-SameArrays s)
        (SameArrays-trans s1 s2 s3 (poll_vram-SameArrays s1) (poll_nvml_rest-SameArrays s2))

  poll_common_medium-SameArrays :
      (s : GpuSnapshot d.Double) → SameArrays s (poll_common_medium d p moment g s)
  unfolding poll_common_medium
  poll_common_medium-SameArrays s =
      let s1 = poll_temperature d p moment g s in
      let s2 = poll_hotspot d p moment g s1 in
      let s3 = poll_clocks d p moment g s2 in
      let s4 = poll_nvml_clocks d p moment g s3 in
      let s5 = poll_pstate d p moment g s4 in
      let s6 = poll_utilization d p moment g s5 in
      let s7 = poll_nvml_utilization d p moment g s6 in
      SameArrays-trans s s1 s7 (poll_temperature-SameArrays s) (
        SameArrays-trans s1 s2 s7 (poll_hotspot-SameArrays s1) (
          SameArrays-trans s2 s3 s7 (poll_clocks-SameArrays s2) (
            SameArrays-trans s3 s4 s7 (poll_nvml_clocks-SameArrays s3) (
              SameArrays-trans s4 s5 s7 (poll_pstate-SameArrays s4) (
                SameArrays-trans s5 s6 s7 (poll_utilization-SameArrays s5)
                  (poll_nvml_utilization-SameArrays s6))))))

  with_rails-IsWellFormed :
      (o : Option PowerTopologyStatus) (s : GpuSnapshot d.Double)
      → IsWellFormed s
      → s.power_rails ≡ replicate 4 no_rail
      → IsWellFormed (with_rails d p moment g o s)
  with_rails-IsWellFormed none s w h = w
  with_rails-IsWellFormed (some topo) s w h = record {
    fan_num = w.fan_num;
    fan_count_eq = w.fan_count_eq;
    fan_count_le = w.fan_count_le;
    fans_length = w.fans_length;
    fans_padded = w.fans_padded;
    rail_num = min topo.count max_power_rails;
    rail_count_eq = refl;
    rail_count_le = omega arith;
    rails_length = length-fill_first (min topo.count max_power_rails) _ _ ∙ w.rails_length;
    rails_padded = rw h (Padded-fill_first no_rail _ 4 (rail_of topo.entries));
  }

  poll_power-IsWellFormed :
      (s : GpuSnapshot d.Double)
      → IsWellFormed s
      → s.power_rails ≡ replicate 4 no_rail
      → IsWellFormed (poll_power d p moment g s)
  unfolding poll_power
  poll_power-IsWellFormed s w h =
      let same = poll_board-SameArrays s in
      with_rails-IsWellFormed (answer p.fn_power_topo moment g.nvapi_handle)
        (poll_board d p moment g s) (SameArrays-IsWellFormed s _ same w) (same.3 ∙ h)

  with_fans-IsWellFormed :
      (o : Option NvFanCoolersStatus) (s : GpuSnapshot d.Double)
      → IsFresh s
      → IsWellFormed (with_fans d p moment g o s)
        × ((with_fans d p moment g o s).power_rails ≡ replicate 4 no_rail)
  with_fans-IsWellFormed none s h = (IsFresh-IsWellFormed s h, h.3)
  with_fans-IsWellFormed (some status) s h =
      let w = IsFresh-IsWellFormed s h in
      let n = min status.count max_fans in
      (
        record {
          rail_num = w.rail_num;
          rail_count_eq = w.rail_count_eq;
          rail_count_le = w.rail_count_le;
          rails_length = w.rails_length;
          rails_padded = w.rails_padded;
          fan_num = n;
          fan_count_eq = refl;
          fan_count_le = omega arith;
          fans_length = length-fill_first n _ _ ∙ w.fans_length;
          fans_padded = rw (h.1) (Padded-fill_first no_fan n 4 (fan_of status.items));
        },
        h.3,
      )

  pub fast-IsFresh :
      (gpu_index : ℤ) (s : GpuSnapshot d.Double)
      → IsFresh s
      → IsFresh (work_of d moment p gpu_index fast g s)
  fast-IsFresh gpu_index s h =
      let s1 = record s { gpu_index = gpu_index } in
      let s2 = poll_thermals_undoc d p moment g s1 in
      let s3 = poll_common_medium d p moment g s2 in
      SameArrays-IsFresh s1 s3
        (SameArrays-trans s1 s2 s3 (poll_thermals_undoc-SameArrays s1)
          (poll_common_medium-SameArrays s2))
        h

  -- The work of each tier, on a snapshot to which no fans and rails were written.
  pub work_of-IsWellFormed :
      (gpu_index : ℤ) (tier : Tier) (s : GpuSnapshot d.Double)
      → IsFresh s
      → IsWellFormed (work_of d moment p gpu_index tier g s)
  unfolding poll_fans
  work_of-IsWellFormed gpu_index thermal_fast s h =
      let s1 = record s { gpu_index = gpu_index } in
      let s2 = poll_thermals_undoc d p moment g s1 in
      IsFresh-IsWellFormed s2 (SameArrays-IsFresh s1 s2 (poll_thermals_undoc-SameArrays s1) h)
  work_of-IsWellFormed gpu_index fast s h =
      IsFresh-IsWellFormed (work_of d moment p gpu_index fast g s) (fast-IsFresh gpu_index s h)
  work_of-IsWellFormed gpu_index medium s h =
      let s1 = poll_common_medium d p moment g s in
      let fresh = SameArrays-IsFresh s s1 (poll_common_medium-SameArrays s) h in
      poll_power-IsWellFormed s1 (IsFresh-IsWellFormed s1 fresh) fresh.3
  work_of-IsWellFormed gpu_index slow s h =
      let s1 = poll_fans d p moment g s in
      let s2 = poll_power d p moment g s1 in
      let fans = with_fans-IsWellFormed (get_status p.fans moment g.nvapi_handle) s h in
      SameArrays-IsWellFormed s2 (poll_slow_data d p moment g s2) (poll_slow_data-SameArrays s2)
        (poll_power-IsWellFormed s1 fans.0 fans.1)
  work_of-IsWellFormed gpu_index rare s h =
      let s1 = poll_slow_data d p moment g s in
      IsFresh-IsWellFormed s1 (SameArrays-IsFresh s s1 (poll_slow_data-SameArrays s) h)
