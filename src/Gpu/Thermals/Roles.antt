-- ===== src/Gpu/Thermals/Roles.antt =====
-- Which sensors the discovery finds, and that their indices are those of valid temperatures.
use capacity_agent.Base.{
  ℕ, zero, suc, ◌+◌, ◌≤◌, ◌<◌, ◌≡◌, refl, ◌⊎◌, ◌↔◌, if◌then◌else◌, ap, inl, inr, true, false, some,
  List, [], ◌∷◌, get_or, length, arith, Bool-cases, Option-cases,
}
use capacity_agent.Base.Options.{is_some}
use capacity_agent.Base.Int.{ℤ, pos, negsuc}
use capacity_agent.Store.Tables.{int_eq}
use capacity_agent.Gpu.Thermals.{
  Mask, to_uint32, is_empty, single, GetThermal, NvThermalDiscovery, probe_bits, max_bit_from,
  max_bit_of, core_index_of, is_candidate, first_candidate, mem_candidates, identify, sentinel_raw,
  discover_sensors, undiscovered,
}

get_or-probe_bits :
    (f : GetThermal) (gpu n bit i j : ℕ)
    → i < n
    → j ≡ i + bit
    → get_or (probe_bits f gpu n bit) i false ≡ is_some (f j gpu (to_uint32 (single 32 j)))
unfolding probe_bits
get_or-probe_bits f gpu zero bit i j h e = absurd (omega arith)
get_or-probe_bits f gpu (suc n) bit zero j h e = let e : j ≡ bit = omega arith in rw e refl
get_or-probe_bits f gpu (suc n) bit (suc i) j h e =
    get_or-probe_bits f gpu n (suc bit) i j (omega arith) (omega arith)

length-probe_bits : (f : GetThermal) (gpu n bit : ℕ) → length (probe_bits f gpu n bit) ≡ n
unfolding probe_bits
length-probe_bits f gpu zero bit = refl
length-probe_bits f gpu (suc n) bit = ap suc (length-probe_bits f gpu n (suc bit))

max_bit_from_le :
    (mask : Mask) (bit so_far : ℕ)
    → so_far ≤ bit
    → (so_far ≤ max_bit_from bit so_far mask) × (max_bit_from bit so_far mask ≤ bit + length mask)
unfolding max_bit_from
max_bit_from_le [] bit so_far h = omega arith
max_bit_from_le (true ∷ bs) bit so_far h =
    omega (arith, max_bit_from_le bs (suc bit) (suc bit) (omega arith))
max_bit_from_le (false ∷ bs) bit so_far h =
    omega (arith, max_bit_from_le bs (suc bit) so_far (omega arith))

-- Every bit that is set is below the result,
max_bit_from_above :
    (mask : Mask) (bit so_far i : ℕ)
    → so_far ≤ bit
    → get_or mask i false ≡ true
    → bit + i < max_bit_from bit so_far mask
unfolding max_bit_from
max_bit_from_above [] bit so_far i h e = cc
max_bit_from_above (true ∷ bs) bit so_far zero h e =
    omega (arith, max_bit_from_le bs (suc bit) (suc bit) (omega arith))
max_bit_from_above (false ∷ bs) bit so_far zero h e = cc
max_bit_from_above (true ∷ bs) bit so_far (suc i) h e =
    omega (arith, max_bit_from_above bs (suc bit) (suc bit) i (omega arith) e)
max_bit_from_above (false ∷ bs) bit so_far (suc i) h e =
    omega (arith, max_bit_from_above bs (suc bit) so_far i (omega arith) e)

-- and the result is next to one of them, or was given.
max_bit_from_found :
    (mask : Mask) (bit so_far : ℕ)
    → (max_bit_from bit so_far mask ≡ so_far)
      ⊎ ((i : ℕ) × (max_bit_from bit so_far mask ≡ suc (bit + i)) × (get_or mask i false ≡ true))
unfolding max_bit_from
max_bit_from_found [] bit so_far = inl refl
max_bit_from_found (true ∷ bs) bit so_far = elim (max_bit_from_found bs (suc bit) (suc bit)) [
  | inl e ↦ inr (0, omega (arith, e), refl)
  | inr p ↦ inr (suc p.0, omega (arith, p.1), p.2)
]
max_bit_from_found (false ∷ bs) bit so_far = elim (max_bit_from_found bs (suc bit) so_far) [
  | inl e ↦ inl e
  | inr p ↦ inr (suc p.0, omega (arith, p.1), p.2)
]

-- The sensor that a candidate stands for answers, and its temperature is neither 0 nor the sentinel.
abbrev pub IsUsable : Mask → (ℕ → ℤ) → ℕ → Type 0
IsUsable mask temperatures i =
    (get_or mask i false ≡ true)
    × (int_eq (temperatures i) (pos 0) ≡ false)
    × (int_eq (temperatures i) sentinel_raw ≡ false)

is_candidate-IsUsable :
    (mask : Mask) (temperatures : ℕ → ℤ) (i : ℕ)
    → (is_candidate mask temperatures i ≡ true) ↔ IsUsable mask temperatures i
unfolding is_candidate
is_candidate-IsUsable mask temperatures i = ground (arith, max_bit_from_above mask 0 0 i)

-- The first usable one of the candidates, or -1 where none is.
abbrev pub IsFirst : Mask → (ℕ → ℤ) → List ℕ → ℤ → Type 0
IsFirst mask temperatures [] r = r ≡ negsuc 0
IsFirst mask temperatures (c ∷ cs) r =
    (IsUsable mask temperatures c × (r ≡ pos c))
    ⊎ ((¬ IsUsable mask temperatures c) × IsFirst mask temperatures cs r)

first_candidate-IsFirst :
    (mask : Mask) (temperatures : ℕ → ℤ) (cs : List ℕ)
    → IsFirst mask temperatures cs (first_candidate mask temperatures cs)
unfolding first_candidate
first_candidate-IsFirst mask temperatures [] = refl
first_candidate-IsFirst mask temperatures (c ∷ cs) =
    let usable = is_candidate-IsUsable mask temperatures c in
    elim (Bool-cases (is_candidate mask temperatures c)) [
      | inl e ↦ rw e (inl (usable.0 e, refl))
      | inr e ↦
          rw e (inr ((λ u. let t = usable.1 u in cc), first_candidate-IsFirst mask temperatures cs))
    ]

core_index_eq :
    (mask : Mask) → core_index_of mask ≡ (if get_or mask 1 false then pos 1 else negsuc 0)
unfolding core_index_of
core_index_eq mask = ground (arith, max_bit_from_above mask 0 0 1)

-- What the discovery promises, of the driver's function and the GPU.
pub record IsDiscovery (f : GetThermal) (gpu : ℕ) (d : NvThermalDiscovery) : Type 0 where
  -- A bit of the mask is set exactly if the driver answers the probe of that bit alone.
  pub mask_eq :
      (bit : ℕ)
      → bit < 32
      → get_or d.mask bit false ≡ is_some (f bit gpu (to_uint32 (single 32 bit)))
  -- The count is one more than the highest of them, and at most 32.
  pub num : ℕ
  pub count_eq : d.count ≡ pos num
  pub num_le : num ≤ 32
  pub num_above : (bit : ℕ) → get_or d.mask bit false ≡ true → bit < num
  pub num_found : (bit : ℕ) × (num ≡ suc bit) × (get_or d.mask bit false ≡ true)
  -- The core sensor is the one at 1, if there is one.
  pub core_eq : d.core_index ≡ (if get_or d.mask 1 false then pos 1 else negsuc 0)
  -- The memory junction is the first usable candidate in the full read with the mask.
  pub temperatures : ℕ → ℤ
  pub read_eq : f 32 gpu (to_uint32 d.mask) ≡ some temperatures
  pub memj_first : IsFirst d.mask temperatures mem_candidates d.memj_index

is_empty-false : (mask : Mask) → is_empty mask ≡ false → (i : ℕ) × (get_or mask i false ≡ true)
is_empty-false [] h = cc
is_empty-false (true ∷ bs) h = (0, refl)
is_empty-false (false ∷ bs) h = let p = is_empty-false bs h in (suc p.0, p.1)

max_bit_of-found :
    (mask : Mask)
    → is_empty mask ≡ false
    → (bit : ℕ) × (max_bit_of mask ≡ suc bit) × (get_or mask bit false ≡ true)
max_bit_of-found mask h =
    let p = is_empty-false mask h in
    elim (max_bit_from_found mask 0 0) [
      | inl e ↦ absurd (omega (arith, e, max_bit_from_above mask 0 0 p.0 (omega arith) p.1))
      | inr q ↦ (q.0, omega (arith, q.1), q.2)
    ]

identify-IsDiscovery :
    (f : GetThermal) (gpu : ℕ) (temperatures : ℕ → ℤ)
    → is_empty (probe_bits f gpu 32 0) ≡ false
    → f 32 gpu (to_uint32 (probe_bits f gpu 32 0)) ≡ some temperatures
    → IsDiscovery f gpu (identify (probe_bits f gpu 32 0) (some temperatures)).1
identify-IsDiscovery f gpu temperatures h e =
    let mask = probe_bits f gpu 32 0 in
    record {
      mask_eq = λ bit lt. get_or-probe_bits f gpu 32 0 bit bit lt (omega arith);
      num = max_bit_of mask;
      count_eq = refl;
      num_le =
          omega (arith, (max_bit_from_le mask 0 0 (omega arith)).1, length-probe_bits f gpu 32 0);
      num_above = λ bit b. omega (arith, max_bit_from_above mask 0 0 bit (omega arith) b);
      num_found = max_bit_of-found mask h;
      core_eq = core_index_eq mask;
      temperatures = temperatures;
      read_eq = e;
      memj_first = first_candidate-IsFirst mask temperatures mem_candidates;
    }

-- A discovery that succeeds, with the driver's function `f`, finds what `IsDiscovery` says; one that
-- fails with a function at hand leaves the mask empty and both indices at -1.
pub discover_sensors-IsDiscovery :
    (f : GetThermal) (gpu : ℕ) (out : NvThermalDiscovery)
    → let r = discover_sensors (record { ready = true; fn_get_thermal_u = some f }) gpu out in
      ((r.0 ≡ true) × IsDiscovery f gpu r.1) ⊎ ((r.0 ≡ false) × (r.1 ≡ undiscovered))
unfolding discover_sensors
discover_sensors-IsDiscovery f gpu out =
    let mask = probe_bits f gpu 32 0 in
    elim (Bool-cases (is_empty mask)) [
      | inl e ↦ rw e (inr (refl, refl))
      | inr h ↦ rw h (elim (Option-cases (f 32 gpu (to_uint32 mask))) [
        | inl e ↦ rw e (inr (refl, refl))
        | inr p ↦ rw p.1 (inl (refl, identify-IsDiscovery f gpu p.0 h p.1))
      ])
    ]
