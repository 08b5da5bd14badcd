-- ===== src/Gpu/Fans/Coolers.antt =====
-- The coolers that the discovery lists, and their levels.
use capacity_agent.Base.{
  ℕ, zero, suc, ◌+◌, ◌<◌, ◌≡◌, ◌≢◌, refl, ap, ◌⊎◌, inl, inr, min, ◌==◌, ==_iff, ◌∙◌, sym, false,
  length, some, get_elem?, arith, Bool-cases,
}
use capacity_agent.Gpu.Driver.{NvFanCoolerControl, NvFanCoolersStatus, NvFanCoolersStatusItem}
use capacity_agent.Gpu.Fans.{
  NvApiFans, NvCoolerDiscovery, levels_of, cooler_of, coolers_from, get_control, get_status,
  discover_coolers,
}

-- The levels of a cooler: those of the first status item with its number, or 0 and 100.
abbrev pub HasLevels : (ℕ → NvFanCoolersStatusItem) → ℕ → ℕ → ℕ × ℕ → Type 0
HasLevels items n cooler_id levels =
    (((si : ℕ) → si < n → (items si).cooler_id ≢ cooler_id) × (levels ≡ (0, 100)))
    ⊎ ((si : ℕ) × (si < n)
        × ((items si).cooler_id ≡ cooler_id)
        × ((sj : ℕ) → sj < si → (items sj).cooler_id ≢ cooler_id)
        × (levels ≡ ((items si).current_min_level, (items si).current_max_level)))

none_below_suc :
    (items : ℕ → NvFanCoolersStatusItem) (cooler_id si : ℕ)
    → ((sj : ℕ) → sj < si → (items sj).cooler_id ≢ cooler_id)
    → ((items si).cooler_id == cooler_id) ≡ false
    → (sj : ℕ) → sj < suc si
    → (items sj).cooler_id ≢ cooler_id
none_below_suc items cooler_id si before t sj lt = elim (Bool-cases (sj == si)) [
  | inl e ↦ λ h.
      let at = ap (λ (k : ℕ). (items k).cooler_id) (sym ((==_iff sj si).0 e)) in
      let hit = (==_iff _ _).1 (at ∙ h) in cc
  | inr e ↦ before sj (ground arith)
]

levels_of-HasLevels :
    (items : ℕ → NvFanCoolersStatusItem) (cooler_id si n m : ℕ)
    → m ≡ si + n
    → ((sj : ℕ) → sj < si → (items sj).cooler_id ≢ cooler_id)
    → HasLevels items m cooler_id (levels_of cooler_id si items n)
unfolding levels_of
levels_of-HasLevels items cooler_id si zero m e before =
    inl ((λ sj lt. before sj (omega arith)), refl)
levels_of-HasLevels items cooler_id si (suc n) m e before =
    elim (Bool-cases ((items si).cooler_id == cooler_id)) [
      | inl t ↦ rw t (inr (si, omega arith, (==_iff _ _).0 t, before, refl))
      | inr t ↦ rw t (
          levels_of-HasLevels items cooler_id (suc si) n m (omega arith)
            (none_below_suc items cooler_id si before t))
    ]

get_elem?-coolers_from :
    (control : NvFanCoolerControl) (status : NvFanCoolersStatus) (ci n i j : ℕ)
    → i < n
    → j ≡ i + ci
    → get_elem? (coolers_from control status ci n) i
      ≡ some (cooler_of status (control.items j).cooler_id)
unfolding coolers_from
get_elem?-coolers_from control status ci zero i j h e = absurd (omega arith)
get_elem?-coolers_from control status ci (suc n) zero j h e =
    let e : j ≡ ci = omega arith in rw e refl
get_elem?-coolers_from control status ci (suc n) (suc i) j h e =
    get_elem?-coolers_from control status (suc ci) n i j (omega arith) (omega arith)

length-coolers_from :
    (control : NvFanCoolerControl) (status : NvFanCoolersStatus) (ci n : ℕ)
    → length (coolers_from control status ci n) ≡ n
unfolding coolers_from
length-coolers_from control status ci zero = refl
length-coolers_from control status ci (suc n) =
    ap suc (length-coolers_from control status (suc ci) n)

discover_coolers_eq :
    (f : NvApiFans) (moment gpu : ℕ) (control : NvFanCoolerControl) (status : NvFanCoolersStatus)
    → get_control f moment gpu ≡ some control
    → get_status f moment gpu ≡ some status
    → discover_coolers f moment gpu ≡ coolers_from control status 0 (min control.count 32)
unfolding discover_coolers
discover_coolers_eq f moment gpu control status h k = rw (h, discover_coolers) (rw k refl)

-- If both calls of the driver are answered, then the discovery lists one cooler for each control item,
-- of at most 32 (the size of the array), in their order and with their numbers, and the levels of each are
-- those of the first status item, of at most 32, that has its number, or 0 and 100 if there is none.
pub discover_coolers-HasLevels :
    (f : NvApiFans) (moment gpu : ℕ) (control : NvFanCoolerControl) (status : NvFanCoolersStatus)
    → get_control f moment gpu ≡ some control
    → get_status f moment gpu ≡ some status
    → (length (discover_coolers f moment gpu) ≡ min control.count 32)
      × ((i : ℕ)
          → i < min control.count 32
          → (c : NvCoolerDiscovery) × (get_elem? (discover_coolers f moment gpu) i ≡ some c)
            × (c.cooler_id ≡ (control.items i).cooler_id)
            × HasLevels status.items (min status.count 32) c.cooler_id (c.min_level, c.max_level))
discover_coolers-HasLevels f moment gpu control status h k =
    rw (discover_coolers_eq f moment gpu control status h k) (
      length-coolers_from control status 0 (min control.count 32),
      λ i lt. (
        cooler_of status (control.items i).cooler_id,
        get_elem?-coolers_from control status 0 (min control.count 32) i i lt (omega arith),
        refl,
        levels_of-HasLevels status.items (control.items i).cooler_id 0 (min status.count 32) _
            (omega arith) (λ sj below. absurd (omega arith)),
      ),
    )
